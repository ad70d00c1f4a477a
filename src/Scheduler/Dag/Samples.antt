-- ===== src/Scheduler/Dag/Samples.antt =====
-- A diamond and a loop.
use claude_router.Prelude.{List, String, [], err, has_repeats, is_in, ok, refl, ◌↔◌, ◌∷◌, ◌≡◌, ◌≢◌}
use claude_router.Scheduler.Dag.{
  Node, cycle, out_of_fuel, deps_of, has_unknown, visit_each, visit, validate_dag,
}
use claude_router.Scheduler.Dag.Acyclic.{IsAcyclic, validate_dag_lem}

abbrev diamond : List Node
diamond =
    record { id = "d"; dependencies = "b" ∷ "c" ∷ [] }
    ∷ record { id = "b"; dependencies = "a" ∷ [] }
    ∷ record { id = "c"; dependencies = "a" ∷ [] }
    ∷ record { id = "a"; dependencies = [] }
    ∷ []

diamond-accepted : validate_dag diamond ≡ ok ("d" ∷ "c" ∷ "b" ∷ "a" ∷ [])
unfolding validate_dag has_unknown visit visit_each deps_of is_in
diamond-accepted = refl

ring :
    validate_dag (
      record { id = "a"; dependencies = "b" ∷ [] }
      ∷ record { id = "b"; dependencies = "a" ∷ [] }
      ∷ [])
    ≡ err cycle
unfolding validate_dag has_unknown visit visit_each deps_of is_in
ring = refl

validate_dag_lem_example :
    (((later : List String) × (validate_dag diamond ≡ ok later)) ↔ IsAcyclic diamond)
    × (validate_dag diamond ≢ err out_of_fuel)
validate_dag_lem_example = validate_dag_lem diamond (unfold has_repeats is_in in refl)
