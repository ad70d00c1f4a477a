-- ===== src/Scheduler/Selection.antt =====
-- The selection of ready work in orchestrator/scheduler.py: `ready_workstreams`, `ready_work_items` and
-- the methods of HierarchicalScheduler. `wide` is the answer of `max_parallelism_enabled()`. Python's
-- sort is stable and the ready lists are in plan order, so the last part of each sort key, the
-- position in the plan, is the order that the sort keeps.
pub mod Fairness
pub mod Work
use claude_router.Prelude.{
  Bool, List, Option, Result, String, [], all, any, codes, dict_get, dict_set, false, if◌then◌else◌,
  is_in, leb, length, ltb, map, min, none, not, ok, select, some, sorted_by, suc, take, true, ℕ,
  ◌&&◌, ◌++◌, ◌+◌, ◌-◌, ◌==◌, ◌>>=◌, ◌>>◌, ◌||◌, ◌∷◌, nat_eq, string_eq, option_eq,
}
use claude_router.Models.{WorkStatus, WorkItem, Workstream, TaskPlan, approved, pending, ready}
use claude_router.Scheduler.Scopes.{PathText, scopes_conflict}
use claude_router.Scheduler.Depth.{critical_path_depth, depth}
use claude_router.Scheduler.Limits.{SchedulerLimits, worker_parallel_cap}
use claude_router.Scheduler.Admission.{Error, stream_node, item_node, validate_plan}

-- `status in _UNSCHEDULED_STATES`
unfoldable pub is_unscheduled : WorkStatus → Bool
is_unscheduled WorkStatus.pending = true
is_unscheduled WorkStatus.ready = true
is_unscheduled _ = false

-- `state.get(id) in _SUCCESS_STATES`
unfoldable pub is_success : Option WorkStatus → Bool
is_success (some WorkStatus.approved) = true
is_success _ = false

abbrev pub Statuses : Type 0
Statuses = List (String × WorkStatus)

-- `state = {…}; state.update(statuses)`
unfoldable pub updated : Statuses → Statuses → Statuses
unfolding dict_set
updated state [] = state
updated state ((id, status) ∷ rest) = updated (dict_set id status state) rest

unfoldable pub status_or : Option WorkStatus → WorkStatus → WorkStatus
status_or none own = own
status_or (some s) own = s

-- The test of the two list comprehensions.
unfoldable pub is_ready : Bool → Statuses → String → WorkStatus → List String → Bool
unfolding is_unscheduled is_success status_or dict_get all
is_ready wide state id own dependencies =
    is_unscheduled (status_or (dict_get id state) own)
    && (wide || all (λ d. is_success (dict_get d state)) dependencies)

-- `{stream.id: stream.status for stream in streams}`
unfoldable pub stream_states : List Workstream → Statuses → Statuses
unfolding dict_set
stream_states [] state = state
stream_states (w ∷ ws) state = stream_states ws (dict_set w.id w.status state)

unfoldable pub item_states : List WorkItem → Statuses → Statuses
unfolding dict_set
item_states [] state = state
item_states (i ∷ is) state = item_states is (dict_set i.id i.status state)

unfoldable pub ready_workstreams : Bool → Statuses → TaskPlan → List Workstream
unfolding select is_ready stream_states updated
ready_workstreams wide statuses plan =
    let state = updated (stream_states plan.workstreams []) statuses in
    select (λ (w : Workstream). is_ready wide state w.id w.status w.dependencies) plan.workstreams

abbrev pub higher_priority : WorkItem → WorkItem → Bool
higher_priority i j = ltb j.priority i.priority

unfoldable pub ready_work_items : Bool → Statuses → Workstream → List WorkItem
unfolding select is_ready item_states updated sorted_by
ready_work_items wide statuses w =
    let state = updated (item_states w.work_items []) statuses in
    sorted_by higher_priority
      (select (λ (i : WorkItem). is_ready wide state i.id i.status i.dependencies) w.work_items)

abbrev pub Ages : Type 0
Ages = List (String × ℕ)

-- `ages.get(id, 0)`
unfoldable pub age_of : Ages → String → ℕ
unfolding dict_get
age_of ages id = elim (dict_get id ages) [ none ↦ 0 | some n ↦ n ]

-- The second loop of `_update_wait_age`.
unfoldable pub grow_ages : Ages → List String → List String → Ages
unfolding age_of dict_set is_in
grow_ages ages [] selected = ages
grow_ages ages (id ∷ rest) selected =
    grow_ages (dict_set id (if is_in id selected then 0 else age_of ages id + 1) ages) rest selected

-- `_update_wait_age`
unfoldable pub update_wait_age : Ages → List String → List String → Ages
unfolding grow_ages select is_in
update_wait_age ages ready_ids selected_ids =
    grow_ages (select (λ entry. is_in entry.0 ready_ids) ages) ready_ids selected_ids

abbrev pub stream_ids : List Workstream → List String
stream_ids ws = map (λ (w : Workstream). w.id) ws

abbrev pub ids_of_items : List WorkItem → List String
ids_of_items is = map (λ (i : WorkItem). i.id) is

abbrev pub later_wins : ℕ → ℕ → Bool → Bool
later_wins a b rest = ltb b a || (a == b && rest)

-- The sort key of `select_workstreams`.
abbrev pub stream_first : Ages → (String → ℕ) → Workstream → Workstream → Bool
stream_first ages depth v w =
    later_wins (age_of ages v.id) (age_of ages w.id) (ltb (depth w.id) (depth v.id))

-- The sort key of `select_work_items`.
abbrev pub item_first : Ages → (String → ℕ) → WorkItem → WorkItem → Bool
item_first ages depth i j =
    later_wins (age_of ages i.id) (age_of ages j.id)
      (later_wins (depth i.id) (depth j.id) (ltb j.priority i.priority))

unfoldable pub select_workstreams :
    Bool
    → SchedulerLimits
    → Ages
    → TaskPlan
    → ℕ
    → Statuses
    → Bool
    → Result Error (List Workstream × Ages)
unfolding ready_workstreams update_wait_age
select_workstreams wide limits ages plan active_manager_count statuses stops =
    let requested =
      if wide
      then plan.requested_manager_count
      else min plan.requested_manager_count limits.max_parallel_managers in
    let waiting = ready_workstreams wide statuses plan in
    let depth = λ (id : String).
      if wide then 0 else critical_path_depth (map stream_node plan.workstreams) id in
    let selected =
      take (requested - active_manager_count) (sorted_by (stream_first ages depth) waiting) in
    if stops then ok ([], ages) else do
      validate_plan wide limits plan
      ok (selected, update_wait_age ages (stream_ids waiting) (stream_ids selected))

-- `worker_slots`; the differences stop at 0 in the code as well, by `max`.
unfoldable pub worker_slots : Bool → SchedulerLimits → Workstream → ℕ → ℕ → ℕ
unfolding worker_parallel_cap
worker_slots wide limits w active_for_manager active_global =
    if wide
    then w.requested_worker_count - active_for_manager
    else min (min w.requested_worker_count (worker_parallel_cap limits) - active_for_manager)
        (limits.max_parallel_workers - active_global)

-- `item.write_scopes`, as texts of code points
abbrev pub scopes_of : WorkItem → List PathText
scopes_of i = map codes i.write_scopes

-- The two conflict tests of the loop.
unfoldable pub clashes :
    (PathText → PathText) → List (List PathText) → List WorkItem → WorkItem → Bool
clashes fold occupied selected item =
    any (scopes_conflict fold (scopes_of item)) occupied
    || any (λ (other : WorkItem). scopes_conflict fold (scopes_of item) (scopes_of other)) selected

-- The loop over the ranked items. `stops n` is the answer of the callback in round `n`.
unfoldable pub fill_slots :
    Bool
    → (PathText → PathText)
    → ℕ
    → List (List PathText)
    → (ℕ → Bool)
    → ℕ
    → List WorkItem
    → List WorkItem
    → List WorkItem
unfolding clashes
fill_slots wide fold slots occupied stops n selected [] = selected
fill_slots wide fold slots occupied stops n selected (item ∷ rest) =
    let further =
      fill_slots wide fold slots occupied stops (suc n)
        (if not wide && clashes fold occupied selected item
          then selected
          else (selected ++ item ∷ []))
        rest in
    if stops n then [] else if leb slots (length selected) then selected else further

unfoldable pub select_work_items :
    Bool
    → (PathText → PathText)
    → SchedulerLimits
    → Ages
    → Workstream
    → ℕ
    → ℕ
    → Statuses
    → List (List PathText)
    → Bool
    → (ℕ → Bool)
    → List WorkItem × Ages
unfolding worker_slots ready_work_items fill_slots update_wait_age
select_work_items wide fold limits ages w active_for_manager active_global statuses occupied
      is_cancelled stops =
    let slots = worker_slots wide limits w active_for_manager active_global in
    let waiting = ready_work_items wide statuses w in
    let depth =
      λ (id : String). if wide then 0 else critical_path_depth (map item_node w.work_items) id in
    let selected =
      fill_slots wide fold slots occupied stops 0 [] (sorted_by (item_first ages depth) waiting) in
    if is_cancelled
    then ([], ages)
    else (selected, update_wait_age ages (ids_of_items waiting) (ids_of_items selected))
