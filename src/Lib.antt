-- ===== src/Lib.antt =====
-- ClaudeRouter: the deterministic core of the orchestrator, modelled and verified.
--
-- The program is a local service that plans and runs coding tasks with several model agents. Its
-- HTTP server (server.py) admits tasks and streams their events; the hierarchy runtime
-- (orchestrator/hierarchy.py) drives a Director, Managers, Workers and Testers; a scheduler picks
-- the ready work; SQLite keeps the durable state. This library models the parts whose rules do not
-- depend on a model, a socket or a file:
--
-- * Jobs (orchestrator/jobs.py): the durable job queue. `Jobs` has the row of `durable_jobs`, the
--   WHERE clauses as tests on a row and the SET clauses as functions of a row. `Jobs.Queue` has one
--   function for each method of DurableJobQueue, on the tables `durable_jobs` and
--   `job_fencing_counters`. `Jobs.Rows` is the life of one row as a step relation, `Jobs.Queue.Table`
--   the same for the table, `Jobs.Queue.Methods` the refinement of each method to it. The properties
--   are in `Jobs.Queue.History`, `Fencing`, `Completion`, `Selection`, `Idempotency` and `Recovery`. `Jobs.Execution`
--   has the workers of orchestrator/execution.py: execute_once, with the handler as a parameter that says
--   what it returns or raises and what became of the queue meanwhile (`Held`, `Settling`), and `Remote`
--   the broker for remote claims, behind the policy engine.
-- * Broker (orchestrator/event_broker.py): the in-memory event stream. `Broker` has the methods of
--   ReplayEventBroker, `Broker.Chain` the invariant of the buffer, `Broker.Replay` what a subscriber
--   gets, `Broker.Publishers` the threads inside put_many and the interleaving of their atomic blocks.
-- * Scheduler (orchestrator/scheduler.py): `Scheduler.Scopes` has canonical_scope and
--   scopes_conflict, with `posixpath.normpath` written out; `Scheduler.Claims` has the methods of
--   ScopeClaims as what a thread does while it holds the condition's lock, and the steps of
--   interleaved threads. `Claims.Exclusion`, `Claims.Tickets` and `Claims.Order` have the proofs.
--   `Scheduler.Dag` has _validate_dag, `Scheduler.Limits` SchedulerLimits, `Scheduler.Admission`
--   validate_plan, `Scheduler.Depth` _critical_path_depths, and `Scheduler.Selection` the ready lists,
--   the wait ages and the selection methods of HierarchicalScheduler; their child modules have the
--   proofs. The sort of Python is an insertion sort, which is stable as Python's is.
-- * Models (orchestrator/models.py): the checks that WorkContract, WorkItem, Workstream and TaskPlan
--   make at construction, and the contracts that they are given by default. `Models.Checks` has the
--   shared checks of fields, `Models.Sound`, `Models.Validity` and `Models.Contracts` the proofs. A plan that passes
--   them is what validate_plan of the scheduler gets.
-- * EventCore (orchestrator/event_core.py): `EventCore` has apply_event and project_events,
--   `EventCore.Steps` and `EventCore.Replay` what they do over one event and over a history.
--   `EventCore.Paging` has rebuild of TaskEventCore, which reads the stored events in pages.
-- * Remediation (orchestrator/retry_policy.py): `Remediation` has advance_remediation,
--   choose_remediation and claim_remediation_strategy over a repository's reservation hook, which is
--   a parameter; `Remediation.Choice` and `Remediation.Claiming` have the proofs;
--   `Remediation.Recovery` has recovery_state_from_attempts.
-- * Leases (orchestrator/account_lease.py, orchestrator/sqlite_account_lease.py): `Leases.Matching` has
--   _match_candidates, the assignment of accounts to the agents of a cohort by augmenting paths;
--   `Handover` is what a success does to the matching, `Search` the search, `Complete` why a search in
--   vain excludes every matching, `Correct` the whole. `Leases.Store` has the tables of
--   SQLiteAccountLeaseStore, the expiry, the ranking of candidates and acquire; Python's `str.lower` is
--   a parameter. `Leases.Reservations` has activate, renew_task and the releases; `Leases.Requests`
--   has _normalize_assignments, `Leases.Cohorts` reserve_many (`Vacancy` the pools, `Entry`, `Holding`
--   and `Commit` its loops, `Whole` the method);
--   `Leases.Replacement` has renew, replace and record_health_transition; `Leases.Adapters` has
--   consume_reserved_account and replace_account_atomically, which call them; `Leases.Owners` takes all
--   methods together. The listings, which only read, are not modelled.
-- * Policy (orchestrator/policy.py, orchestrator/deployment.py): `Policy.Paths` has _normalize_resource and
--   _in_scope, with what they use of `str` and `PurePosixPath` over code points, `Paths.Joining`,
--   `Paths.Normal`, `Paths.Stray` and `Paths.Containment` their proofs; `Policy.Deployment` has what a remote deployment lacks,
--   `Policy.Rules` the default rules and `Policy.Engine` evaluate and require. The sandbox's check of a
--   command and the scan for secrets are parameters; `Engine.Decisions`, `Engine.Access`,
--   `Engine.Verdicts` and `Engine.Answers` have the proofs.
--
-- Conventions. A method that mutates an object returns the new record. A method that may raise
-- returns a `Result`; where a SQL transaction rolls back, the state before the call stays. Instants
-- and spans are whole ticks on ℕ: the code works with UTC datetimes, and SQL compares their ISO
-- texts, whose order is that of the instants when all are UTC. The arguments `now` and the fresh
-- identifiers are arguments of the model too. Dictionaries of JSON values are their canonical texts.
-- `Prelude` has the shared tests, lists, tables and text operations.
--
-- Fuel: the loops modelled here recur on lists, but for the page loop of `rebuild`, whose fuel is
-- enough when it exceeds the number of stored events: each page but the last takes some of them;
-- and for the loop of claim_remediation_strategy, whose fuel is enough when it exceeds the number of
-- strategies: each round tries one more. The search of _validate_dag has one more than the number of
-- nodes, since the path of the search repeats no node; the recursion of _critical_path_depths has the
-- number of nodes, which is enough on an acyclic graph; on a cyclic graph, which only a caller that has
-- not validated its plan passes, the source raises RecursionError where the model stops at 0. The search for an augmenting
-- path has one more than the number of candidates: each call has seen one more account.
--
-- Not modelled: HTTP (server.py), the frontend, the provider transport (orchestrator/llm_client.py), the
-- sandbox and file effects, which are input and output; the hierarchy runtime, whose course is decided
-- by the replies of models; the SQL of orchestrator/state_repository.py beyond the statements that the
-- parts above use; and the effect journal, the patch engine and
-- the shutdown of orchestrator/lifecycle.py. Of the parts above: the failure registry of retry_policy.py, append and
-- verify_checkpoint of TaskEventCore, the serialisation of models.py, from_environment of
-- DeploymentProfile, and the calls of FencedRemoteClaimBroker that pass their arguments on to the queue.
pub mod Prelude
pub mod Broker
pub mod Jobs
pub mod Leases
pub mod Models
pub mod Scheduler
pub mod EventCore
pub mod Remediation
pub mod Policy
