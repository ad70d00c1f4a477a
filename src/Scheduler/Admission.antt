-- ===== src/Scheduler/Admission.antt =====
-- `validate_plan` of orchestrator/scheduler.py. `wide` is the answer of `max_parallelism_enabled()`.
pub mod Accepted
use claude_router.Prelude.{
  Bool, List, Result, String, [], any, err, false, is_in, length, ltb, map, not, ok, raise_if, true,
  ◌&&◌, ◌++◌, ◌==◌, ◌>>=◌, ◌>>◌, ◌∷◌, nat_eq, string_eq, option_eq,
}
use claude_router.Models.Checks.{is_empty}
use claude_router.Models.{WorkItem, Workstream, TaskPlan}
use claude_router.Scheduler.Dag
use claude_router.Scheduler.Dag.{Node, validate_dag}
use claude_router.Scheduler.Limits.{SchedulerLimits, manager_cap, coders_per_manager}

pub data Error : Type 0 where
  scheduling_error : Error
  value_error : Error
  bad_graph : Dag.Error → Error

abbrev pub stream_node : Workstream → Node
stream_node w = record { id = w.id; dependencies = w.dependencies }

abbrev pub item_node : WorkItem → Node
item_node i = record { id = i.id; dependencies = i.dependencies }

abbrev pub item_ids : List WorkItem → List String
item_ids items = map (λ (i : WorkItem). i.id) items

-- `if not max_parallelism_enabled(): _validate_dag(nodes)`
unfoldable pub check_graph : Bool → List Node → Result Error (Unit {0})
check_graph true nodes = ok tt
check_graph false nodes = elim (validate_dag nodes) [
  | ok visited ↦ ok tt
  | err raised ↦ err (bad_graph raised)
]

-- The body of the loop over the workstreams; `seen` is `all_item_ids`.
unfoldable pub check_stream :
    Bool → SchedulerLimits → List String → Workstream → Result Error (Unit {0})
check_stream wide limits seen w = do
  raise_if (ltb limits.max_work_items_per_stream (length w.work_items)) scheduling_error
  raise_if (any (λ (i : WorkItem). is_in i.id seen) w.work_items) scheduling_error
  raise_if (any (λ (i : WorkItem). is_empty i.write_scopes) w.work_items) scheduling_error
  check_graph wide (map item_node w.work_items)
  raise_if (not (is_empty w.work_items) && not (w.requested_worker_count == length w.work_items))
      scheduling_error
  raise_if (not (is_empty w.work_items) && ltb (coders_per_manager limits) w.requested_worker_count)
      scheduling_error

unfoldable pub check_streams :
    Bool → SchedulerLimits → List String → List Workstream → Result Error (Unit {0})
check_streams wide limits seen [] = ok tt
check_streams wide limits seen (w ∷ ws) = do
  check_stream wide limits seen w
  check_streams wide limits (item_ids w.work_items ++ seen) ws

unfoldable pub validate_plan : Bool → SchedulerLimits → TaskPlan → Result Error (Unit {0})
validate_plan wide limits plan = do
  raise_if (ltb limits.max_workstreams (length plan.workstreams)) scheduling_error
  raise_if (ltb (manager_cap limits) (length plan.workstreams)) scheduling_error
  raise_if (not (plan.requested_manager_count == length plan.workstreams)) scheduling_error
  check_graph wide (map stream_node plan.workstreams)
  check_streams wide limits [] plan.workstreams
