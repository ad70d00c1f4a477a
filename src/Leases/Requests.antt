-- ===== src/Leases/Requests.antt =====
-- The request of `reserve_many`, `_normalize_assignments` of orchestrator/sqlite_account_lease.py.
use claude_router.Prelude.{
  List, Option, Result, String, [], err, is_blank, is_in, map, none, ok, raise_if, some, ◌>>=◌,
  ◌>>◌, ◌∷◌,
}
use claude_router.Leases.{AccountCandidate}
use claude_router.Leases.Store.{Error, value_error}

-- AccountReservationAssignment, its metadata as a JSON text where it has any
pub record Assignment : Type 0 where
  pub agent_id : String
  pub candidates : List AccountCandidate
  pub metadata : Option String

-- The shapes of the argument `assignments`; a mapping of an agent to one candidate is to a pool of one.
pub data Assignments : Type 0 where
  by_agent : List (String × List AccountCandidate) → Assignments
  requests : List Assignment → Assignments
  agent_names : List String → Assignments

abbrev of_pool : String × List AccountCandidate → Assignment
of_pool p = record { agent_id = p.0; candidates = p.1; metadata = none }

abbrev own_pools : List Assignment → Option (List AccountCandidate) → Result Error (List Assignment)
own_pools normalized none = ok normalized
own_pools normalized (some shared) = err value_error

abbrev shared_pool : List String → Option (List AccountCandidate) → Result Error (List Assignment)
shared_pool [] shared = own_pools [] shared
shared_pool (name ∷ names) none = err value_error
shared_pool (name ∷ names) (some shared) =
    ok (map (λ (n : String). of_pool (n, shared)) (name ∷ names))

abbrev pub normalized_source :
    Assignments → Option (List AccountCandidate) → Result Error (List Assignment)
normalized_source (by_agent pools) shared = own_pools (map of_pool pools) shared
normalized_source (requests rs) shared = own_pools rs shared
normalized_source (agent_names names) shared = shared_pool names shared

abbrev pub source_of : Option Assignments → Option (List String) → Result Error Assignments
source_of none none = err value_error
source_of none (some names) = ok (agent_names names)
source_of (some a) none = ok a
source_of (some a) (some names) = err value_error

-- The last loop; `seen` has the agents so far.
unfoldable pub check_agents : List String → List Assignment → Result Error (Unit {0})
unfolding is_in is_blank
check_agents seen [] = ok tt
check_agents seen (a ∷ rest) = do
  raise_if (is_blank a.agent_id) value_error
  raise_if (is_in a.agent_id seen) value_error
  check_agents (a.agent_id ∷ seen) rest

-- `_normalize_assignments`
unfoldable pub normalize_assignments :
    Option Assignments
    → Option (List AccountCandidate)
    → Option (List String)
    → Result Error (List Assignment)
unfolding check_agents
normalize_assignments assignments shared agent_ids = do
  source ← source_of assignments agent_ids
  normalized ← normalized_source source shared
  check_agents [] normalized
  ok normalized

abbrev pub names_of : List Assignment → List String
names_of requested = map (λ (a : Assignment). a.agent_id) requested
