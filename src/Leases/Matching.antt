-- ===== src/Leases/Matching.antt =====
-- `_match_candidates` of orchestrator/sqlite_account_lease.py: a bipartite matching of agents to accounts
-- by augmenting paths.
pub mod Handover
pub mod Search
pub mod Complete
pub mod Correct
pub mod Names
pub mod Samples
use claude_router.Prelude.{
  Bool, List, Option, Result, String, [], dict_get, dict_set, err, if◌then◌else◌, length, ltb, map,
  none, ok, some, sorted_by, str_ltb, suc, zero, ℕ, ◌&&◌, ◌++◌, ◌==◌, ◌||◌, ◌∷◌, nat_eq, string_eq,
  option_eq,
}
use claude_router.Leases.{AccountCandidate, Key, candidate_key, same_key, has_key}

-- `owner_by_account` and `selected_by_agent`. The first is only read at a key, so it is a function.
pub record Matching : Type 0 where
  pub owner : Key → Option String
  pub selected : List (String × AccountCandidate)

abbrev pub unmatched : Matching
unmatched = record { owner = λ k. none; selected = [] }

-- What `augment` returns: the new matching, or all the keys that it has seen in vain.
pub data Outcome : Type 0 where
  augmented : Matching → Outcome
  in_vain : List Key → Outcome
  no_fuel : Outcome

-- `owner_by_account[key] = agent_id; selected_by_agent[agent_id] = candidate`
abbrev pub assign : String → AccountCandidate → Matching → Matching
assign agent c m = record {
  owner = λ k. if same_key (candidate_key c) k then some agent else m.owner k;
  selected = dict_set agent c m.selected;
}

-- What follows on the recursive call for the account's owner; `next` is the rest of the loop.
abbrev pub after_prior : String → AccountCandidate → (List Key → Outcome) → Outcome → Outcome
after_prior agent c next (augmented m) = augmented (assign agent c m)
after_prior agent c next (in_vain seen) = next seen
after_prior agent c next no_fuel = no_fuel

-- The loop of `augment` over the candidates; `augment` is the recursive call.
unfoldable pub try_each :
    (String → List Key → Matching → Outcome)
    → String
    → List AccountCandidate
    → List Key
    → Matching
    → Outcome
unfolding has_key dict_set
try_each augment agent [] seen m = in_vain seen
try_each augment agent (c ∷ cs) seen m =
    let key = candidate_key c in
    let skip = try_each augment agent cs seen m in
    let move_on = λ (prior : String).
      after_prior agent c (λ seen'. try_each augment agent cs seen' m)
        (augment prior (key ∷ seen) m) in
    if has_key key seen
    then skip
    else elim (m.owner key) [ none ↦ augmented (assign agent c m) | some prior ↦ move_on prior ]

unfoldable pub augment :
    (String → List AccountCandidate) → ℕ → String → List Key → Matching → Outcome
unfolding try_each
augment pool zero agent seen m = no_fuel
augment pool (suc fuel) agent seen m = try_each (augment pool fuel) agent (pool agent) seen m

abbrev pub Pools : Type 0
Pools = List (String × List AccountCandidate)

-- `pools[agent_id]`
unfoldable pub pool_of : Pools → String → List AccountCandidate
unfolding dict_get
pool_of pools agent = elim (dict_get agent pools) [ none ↦ [] | some pool ↦ pool ]

abbrev pub agents : Pools → List String
agents pools = map (λ (p : String × List AccountCandidate). p.0) pools

-- All the keys of the pools, which bound the depth of the search.
abbrev pub pool_keys : Pools → List Key
pool_keys [] = []
pool_keys ((agent, pool) ∷ rest) = map candidate_key pool ++ pool_keys rest

-- The sort key `(len(pools[value]), value)`.
abbrev pub fewer_first : Pools → String → String → Bool
fewer_first pools a b =
    let m = length (pool_of pools a) in
    let n = length (pool_of pools b) in ltb m n || (m == n && str_ltb a b)

pub data Error : Type 0 where
  out_of_fuel : Error

abbrev pub MatchResult : Type 0
MatchResult = Result Error (Option (List (String × AccountCandidate)))

-- `if not augment(agent_id, set()): return None`; `next` is the rest of the loop.
abbrev pub unless_in_vain : (Matching → MatchResult) → Outcome → MatchResult
unless_in_vain next (augmented m) = next m
unless_in_vain next (in_vain seen) = ok none
unless_in_vain next no_fuel = err out_of_fuel

-- The last loop.
unfoldable pub match_each :
    (String → List AccountCandidate) → ℕ → List String → Matching → MatchResult
match_each pool fuel [] m = ok (some m.selected)
match_each pool fuel (agent ∷ rest) m =
    unless_in_vain (λ m'. match_each pool fuel rest m') (augment pool fuel agent [] m)

-- `_match_candidates`, with fuel for a path through every account.
unfoldable pub match_candidates : Pools → MatchResult
match_candidates pools =
    match_each (pool_of pools) (suc (length (pool_keys pools)))
      (sorted_by (fewer_first pools) (agents pools)) unmatched
