-- ===== src/Scheduler.antt =====
-- orchestrator/scheduler.py: write scopes and the claims on them, the dependency graph of a plan, the
-- admission of a plan, and the selection of ready work.
pub mod Scopes
pub mod Claims
pub mod Dag
pub mod Limits
pub mod Admission
pub mod Depth
pub mod Selection
pub mod Samples
