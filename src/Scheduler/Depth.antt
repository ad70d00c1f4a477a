-- ===== src/Scheduler/Depth.antt =====
-- `_critical_path_depths` of orchestrator/scheduler.py. The memo table is left out: it stores what the
-- recursion computes.
pub mod Chains
use claude_router.Prelude.{
  List, String, [], if◌then◌else◌, length, max, suc, zero, ℕ, ◌++◌, ◌==◌, ◌∷◌, nat_eq, string_eq,
  option_eq,
}
use claude_router.Scheduler.Dag.{Node}

-- The ids that one node adds to `dependents[id]`.
unfoldable pub mentions : String → String → List String → List String
mentions id from [] = []
mentions id from (d ∷ ds) = let rest = mentions id from ds in if d == id then from ∷ rest else rest

-- `dependents[id]`
unfoldable pub dependents : List Node → String → List String
unfolding mentions
dependents [] id = []
dependents (n ∷ ns) id = mentions id n.id n.dependencies ++ dependents ns id

-- `max((f(child) for child in children), default=0)`
unfoldable pub max_over : (String → ℕ) → List String → ℕ
max_over f [] = 0
max_over f (c ∷ cs) = max (f c) (max_over f cs)

-- `depth(node_id)`, on fuel. Without fuel it answers 0: on an acyclic graph that is not reached, on a cyclic
-- one the source raises RecursionError instead.
unfoldable pub depth : (String → List String) → ℕ → String → ℕ
unfolding max_over
depth children zero id = 0
depth children (suc fuel) id = suc (max_over (depth children fuel) (children id))

unfoldable pub critical_path_depth : List Node → String → ℕ
unfolding depth dependents
critical_path_depth nodes id = depth (dependents nodes) (length nodes) id
