-- ===== src/Scheduler/Admission/Accepted.antt =====
-- What an accepted plan satisfies.
use claude_router.Prelude.{
  >>=-eq-ok, All, Bool, List, Member, Result-cases, String, [], any, any-false-Member, ap, arith,
  err, false, has_repeats, inl, inr, is_in, length, ltb, map, not, ok, raise_if, refl, true, ℕ,
  ◌&&◌, ◌++◌, ◌==◌, ◌∷◌, ◌≡◌, ◌≤◌, nat_eq, string_eq, option_eq,
}
use claude_router.Models.Checks.{is_empty}
use claude_router.Models.{WorkItem, Workstream, TaskPlan}
use claude_router.Scheduler.Dag.{Node, validate_dag, ids}
use claude_router.Scheduler.Dag.Acyclic.{IsAcyclic, validate_dag_lem}
use claude_router.Scheduler.Limits.{SchedulerLimits, coders_per_manager, manager_cap}
use claude_router.Scheduler.Admission.{
  Error, scheduling_error, stream_node, item_node, item_ids, check_graph, check_stream, bad_graph,
  check_streams, validate_plan,
}

-- A workstream within the limits, with its dependency graph checked unless `wide`.
pub record IsAdmitted (wide : Bool) (limits : SchedulerLimits) (w : Workstream) : Type 0 where
  pub items_bounded : length w.work_items ≤ limits.max_work_items_per_stream
  pub scopes_declared : (i : WorkItem) → Member i w.work_items → is_empty i.write_scopes ≡ false
  pub worker_per_item :
      is_empty w.work_items ≡ false
      → (w.requested_worker_count ≡ length w.work_items)
        × (length w.work_items ≤ coders_per_manager limits)
  pub acyclic : wide ≡ false → IsAcyclic (map item_node w.work_items)

-- No item id of a stream stands in an earlier one.
abbrev pub AreTaskGlobal : List String → List Workstream → Type 0
AreTaskGlobal seen [] = Unit
AreTaskGlobal seen (w ∷ ws) =
    ((i : WorkItem) → Member i w.work_items → is_in i.id seen ≡ false)
    × AreTaskGlobal (item_ids w.work_items ++ seen) ws

raise_if-passed : (b : Bool) (e : Error) {u : Unit {0}} → raise_if b e ≡ ok u → b ≡ false
raise_if-passed b e h = ground arith

check_graph-passed :
    (wide : Bool) (nodes : List Node) {u : Unit {0}}
    → has_repeats (ids nodes) ≡ false
    → check_graph wide nodes ≡ ok u
    → wide ≡ false
    → IsAcyclic nodes
unfolding check_graph
check_graph-passed true nodes once h narrow = cc
check_graph-passed false nodes once h narrow = elim (Result-cases (validate_dag nodes)) [
  | inl (later, e) ↦ (validate_dag_lem nodes once).0.0 (later, e)
  | inr (raised, e) ↦ let bad : err (bad_graph raised) ≡ ok tt = rw (e, check_graph) at h in cc
]

ids-items : (items : List WorkItem) → ids (map item_node items) ≡ item_ids items
ids-items [] = refl
ids-items (i ∷ is) = ap (λ xs. i.id ∷ xs) (ids-items is)

ids-streams : (ws : List Workstream) → ids (map stream_node ws) ≡ map (λ (w : Workstream). w.id) ws
ids-streams [] = refl
ids-streams (w ∷ ws) = ap (λ xs. w.id ∷ xs) (ids-streams ws)

counted :
    (b : Bool) (n m k : ℕ)
    → b ≡ false
    → (not b && not (n == m)) ≡ false
    → (not b && ltb k n) ≡ false
    → (n ≡ m) × (m ≤ k)
counted b n m k h e f = ground arith

check_stream-IsAdmitted :
    (wide : Bool) (limits : SchedulerLimits) (seen : List String) (w : Workstream) {u : Unit {0}}
    → has_repeats (item_ids w.work_items) ≡ false
    → check_stream wide limits seen w ≡ ok u
    → IsAdmitted wide limits w × ((i : WorkItem) → Member i w.work_items → is_in i.id seen ≡ false)
unfolding check_stream
check_stream-IsAdmitted wide limits seen w once h =
    let (u1, a, h1) =
      >>=-eq-ok
        (raise_if (ltb limits.max_work_items_per_stream (length w.work_items)) scheduling_error) _
        h in
    let (u2, b, h2) =
      >>=-eq-ok (raise_if (any (λ (i : WorkItem). is_in i.id seen) w.work_items) scheduling_error) _
        h1 in
    let (u3, c, h3) =
      >>=-eq-ok
        (raise_if (any (λ (i : WorkItem). is_empty i.write_scopes) w.work_items) scheduling_error) _
        h2 in
    let (u4, d, h4) = >>=-eq-ok (check_graph wide (map item_node w.work_items)) _ h3 in
    let (u5, e, f) =
      >>=-eq-ok
        (raise_if
          (not (is_empty w.work_items) && not (w.requested_worker_count == length w.work_items))
          scheduling_error)
        _ h4 in
    let bounded = raise_if-passed _ _ a in
    let equal = raise_if-passed _ _ e in
    let capped = raise_if-passed _ _ f in
    (
      record {
        items_bounded = ground arith;
        scopes_declared = λ i m.
            any-false-Member (λ (x : WorkItem). is_empty x.write_scopes) m (raise_if-passed _ _ c);
        worker_per_item = λ some_item. counted _ _ _ _ some_item equal capped;
        acyclic =
            check_graph-passed wide (map item_node w.work_items) (rw (ids-items w.work_items) once)
              d;
      },
      λ i m. any-false-Member (λ (x : WorkItem). is_in x.id seen) m (raise_if-passed _ _ b),
    )

check_streams-IsAdmitted :
    (wide : Bool) (limits : SchedulerLimits) (seen : List String) (ws : List Workstream)
    → All (λ w. has_repeats (item_ids w.work_items) ≡ false) ws
    → check_streams wide limits seen ws ≡ ok tt
    → All (IsAdmitted wide limits) ws × AreTaskGlobal seen ws
unfolding check_streams
check_streams-IsAdmitted wide limits seen [] once h = (tt, tt)
check_streams-IsAdmitted wide limits seen (w ∷ ws) (once, rest) h =
    let (u, a, h1) = >>=-eq-ok (check_stream wide limits seen w) _ h in
    let (admitted, fresh) = check_stream-IsAdmitted wide limits seen w once a in
    let (more, global) =
      check_streams-IsAdmitted wide limits (item_ids w.work_items ++ seen) ws rest h1 in
    ((admitted, more), (fresh, global))

-- A plan whose ids are unique, as its records' own checks ensure, and that `validate_plan` accepts:
-- it has one Manager for each workstream and no more than the limits allow, its workstreams are
-- within the limits, with a scope for every work item and as many Coders as items, no work item id
-- stands in two workstreams, and unless the plan runs at full width the graph of its workstreams
-- and that of the items of each are acyclic.
pub accepted_plan :
    (wide : Bool) (limits : SchedulerLimits) (plan : TaskPlan)
    → has_repeats (map (λ (w : Workstream). w.id) plan.workstreams) ≡ false
    → All (λ w. has_repeats (item_ids w.work_items) ≡ false) plan.workstreams
    → validate_plan wide limits plan ≡ ok tt
    → (plan.requested_manager_count ≡ length plan.workstreams)
      × (length plan.workstreams ≤ limits.max_workstreams)
      × (length plan.workstreams ≤ manager_cap limits)
      × All (IsAdmitted wide limits) plan.workstreams
      × AreTaskGlobal [] plan.workstreams
      × (wide ≡ false → IsAcyclic (map stream_node plan.workstreams))
unfolding validate_plan
accepted_plan wide limits plan once items_once h =
    let (u1, a, h1) =
      >>=-eq-ok (raise_if (ltb limits.max_workstreams (length plan.workstreams)) scheduling_error) _
        h in
    let (u2, b, h2) =
      >>=-eq-ok (raise_if (ltb (manager_cap limits) (length plan.workstreams)) scheduling_error) _
        h1 in
    let (u3, c, h3) =
      >>=-eq-ok
        (raise_if (not (plan.requested_manager_count == length plan.workstreams)) scheduling_error)
        _ h2 in
    let (u4, d, h4) = >>=-eq-ok (check_graph wide (map stream_node plan.workstreams)) _ h3 in
    let (admitted, global) =
      check_streams-IsAdmitted wide limits [] plan.workstreams items_once h4 in
    let in_total = raise_if-passed _ _ a in
    let in_cap = raise_if-passed _ _ b in
    let equal = raise_if-passed _ _ c in
    (
      ground arith,
      ground arith,
      ground arith,
      admitted,
      global,
      check_graph-passed wide (map stream_node plan.workstreams)
          (rw (ids-streams plan.workstreams) once) d,
    )
