-- ===== src/Scheduler/Dag.antt =====
-- `_validate_dag` of orchestrator/scheduler.py: the depth-first search for a cycle.
pub mod Search
pub mod Ends
pub mod Acyclic
pub mod Samples
use claude_router.Prelude.{
  Bool, List, Result, String, [], any, err, if◌then◌else◌, is_in, length, not, ok, raise_if, suc,
  zero, ℕ, ◌==◌, ◌>>=◌, ◌>>◌, ◌∷◌, nat_eq, string_eq, option_eq,
}

-- What `_validate_dag` reads of a workstream or a work item.
pub record Node : Type 0 where
  pub id : String
  pub dependencies : List String

pub data Error : Type 0 where
  unknown_dependency : Error
  cycle : Error
  out_of_fuel : Error

abbrev pub ids : List Node → List String
ids [] = []
ids (n ∷ ns) = n.id ∷ ids ns

-- `{node.id: node for node in nodes}[id].dependencies`: the last node of that id.
unfoldable pub deps_of : List Node → String → List String
unfolding is_in
deps_of [] id = []
deps_of (n ∷ ns) id =
    let later = deps_of ns id in
    if is_in id (ids ns) then later else if n.id == id then n.dependencies else []

-- The first loop: every dependency is the id of a node.
unfoldable pub has_unknown : List Node → Bool
unfolding any is_in
has_unknown nodes = any (λ n. any (λ d. not (is_in d (ids nodes))) n.dependencies) nodes

-- A loop over ids that threads `visited`.
unfoldable pub visit_each :
    (String → List String → Result Error (List String))
    → List String
    → List String
    → Result Error (List String)
visit_each visit [] visited = ok visited
visit_each visit (d ∷ ds) visited = do later ← visit d visited; visit_each visit ds later

-- `visit(node_id, path)`. `visiting` is `path`; an exception leaves the whole search.
unfoldable pub visit :
    (String → List String) → ℕ → List String → String → List String → Result Error (List String)
unfolding visit_each is_in
visit deps zero visiting id visited = err out_of_fuel
visit deps (suc fuel) visiting id visited =
    let below = visit_each (visit deps fuel (id ∷ visiting)) (deps id) visited in
    if is_in id visiting
    then err cycle
    else if is_in id visited
    then ok visited
    else (below >>= λ later. ok (id ∷ later))

unfoldable pub validate_dag : List Node → Result Error (List String)
unfolding has_unknown visit visit_each deps_of
validate_dag nodes = do
  raise_if (has_unknown nodes) unknown_dependency
  visit_each (visit (deps_of nodes) (suc (length nodes)) []) (ids nodes) []
