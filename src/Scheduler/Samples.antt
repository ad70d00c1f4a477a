-- ===== src/Scheduler/Samples.antt =====
-- A plan of two workstreams under the default limits: tests of the planning calls, and witnesses.
use claude_router.Prelude.{
  All, List, Member, String, [], any, arith, false, has_repeats, is_in, length, map, none, ok, refl,
  suc, true, ◌+◌, ◌<◌, ◌∷◌, ◌≡◌, ◌≤◌,
}
use claude_router.Scheduler.Selection.Work.{running_stays_bounded}
use claude_router.Scheduler.Scopes.{
  PathText, canonical_scope, canonical_scopes, overlaps, scopes_conflict, text_eq,
}
use claude_router.Scheduler.Depth.Chains.{critical_path_depth_lem}
use claude_router.Scheduler.Depth.{critical_path_depth, dependents, max_over}
use claude_router.Models.{WorkItem, Workstream, TaskPlan, pending}
use claude_router.Models.Checks.{is_empty}
use claude_router.Scheduler.Dag.{deps_of, has_unknown, visit_each, visit, validate_dag, Node}
use claude_router.Scheduler.Dag.Acyclic.{IsAcyclic}
use claude_router.Scheduler.Limits.{
  default_limits, manager_cap, coders_per_manager, worker_parallel_cap,
}
use claude_router.Scheduler.Admission.{
  check_graph, check_stream, check_streams, validate_plan, stream_node,
}
use claude_router.Scheduler.Admission.Accepted.{IsAdmitted, AreTaskGlobal, accepted_plan}
use claude_router.Scheduler.Selection.{select_work_items}

abbrev item : String → String → List String → WorkItem
item id scope dependencies = record {
  id = id;
  workstream_id = "api";
  title = id;
  goal = id;
  acceptance_criteria = [];
  dependencies = dependencies;
  write_scopes = scope ∷ [];
  status = pending;
  priority = 0;
  contract = none;
}

abbrev stream : String → List WorkItem → List String → Workstream
stream id items dependencies = record {
  id = id;
  title = id;
  goal = id;
  acceptance_criteria = [];
  dependencies = dependencies;
  write_scopes = [];
  work_items = items;
  requested_worker_count = length items;
  status = pending;
  contract = none;
  legacy_contract = none;
}

abbrev api : Workstream
api =
    stream "api"
      (item "routes" "src/**" [] ∷ item "views" "src/ui" [] ∷ item "guide" "docs" [] ∷ []) []

abbrev site : Workstream
site = stream "site" [] ("api" ∷ [])

abbrev two_streams : TaskPlan
two_streams = record {
  task_id = "t";
  session_id = "s";
  goal = "g";
  workstreams = api ∷ site ∷ [];
  requested_manager_count = 2;
  revision = 1;
}

two_streams-accepted : validate_plan false default_limits two_streams ≡ ok tt
unfolding validate_plan check_graph validate_dag has_unknown visit visit_each deps_of is_in
    manager_cap coders_per_manager check_stream check_streams is_empty
two_streams-accepted = refl

accepted_plan_example :
    (length two_streams.workstreams ≡ 2)
    × (2 ≤ 64)
    × (2 ≤ manager_cap default_limits)
    × All (IsAdmitted false default_limits) two_streams.workstreams
    × AreTaskGlobal [] two_streams.workstreams
    × (false ≡ false → IsAcyclic (map stream_node two_streams.workstreams))
accepted_plan_example =
    accepted_plan false default_limits two_streams (unfold has_repeats is_in any in refl)
      (unfold has_repeats is_in any in (refl, (refl, tt))) two_streams-accepted

two_nodes-IsAcyclic : IsAcyclic (map stream_node two_streams.workstreams)
two_nodes-IsAcyclic = accepted_plan_example.5 refl

critical_path_depth_lem_example :
    ((s : String)
      → is_in s ("api" ∷ "site" ∷ []) ≡ true
      → critical_path_depth (map stream_node two_streams.workstreams) s
        ≡ suc (
            max_over
              (critical_path_depth (map stream_node two_streams.workstreams))
              (dependents (map stream_node two_streams.workstreams) s)))
    × ((n : Node)
        → Member n (map stream_node two_streams.workstreams)
        → (d : String) → Member d n.dependencies
        → critical_path_depth (map stream_node two_streams.workstreams) n.id
          < critical_path_depth (map stream_node two_streams.workstreams) d)
critical_path_depth_lem_example =
    critical_path_depth_lem (map stream_node two_streams.workstreams) two_nodes-IsAcyclic

abbrev same_case : PathText → PathText
same_case s = s

-- "views" lies under the scope of "routes", so "guide" runs beside "routes" and "views" waits.
second_round :
    map
      (λ (i : WorkItem). i.id)
      (select_work_items false same_case default_limits [] api 0 0 [] [] false (λ n. false)).0
    ≡ "routes" ∷ "guide" ∷ []
unfolding select_work_items critical_path_depth scopes_conflict canonical_scopes overlaps
    claude_router.Scheduler.Scopes.text_eq canonical_scope
second_round = refl

running_stays_bounded_example :
    let taken =
      (select_work_items false same_case default_limits [] api 1 2 [] [] false (λ n. false)).0 in
    (1 + length taken ≤ worker_parallel_cap default_limits) × (2 + length taken ≤ 8)
running_stays_bounded_example =
    running_stays_bounded same_case default_limits [] api 1 2 [] []
      (unfold worker_parallel_cap coders_per_manager in omega arith) (omega arith)
