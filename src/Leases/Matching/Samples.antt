-- ===== src/Leases/Matching/Samples.antt =====
-- Two agents that both ask for the same account first: a test and the witness.
use claude_router.Prelude.{
  List, String, [], any, false, has_repeats, is_in, none, ok, refl, some, sorted_by, str_ltb, true,
  ◌∷◌, ◌≡◌, ◌⊎◌,
}
use claude_router.Leases.{AccountCandidate}
use claude_router.Leases.Matching.{Pools, match_candidates, match_each, augment, pool_of}
use claude_router.Leases.Matching.Complete.{Choice}
use claude_router.Leases.Matching.Correct.{IsMatching, match_candidates_lem}

abbrev pub account : String → AccountCandidate
account id = record {
  account_id = id;
  provider = "web";
  active_requests = 0;
  cooldown_until = none;
  metadata = record {
    health_state = none;
    state = none;
    disabled = false;
    quarantined = false;
    assignment = none;
    task_id = none;
    reservation_generation = none;
    task_reservation = false;
    text = "{}";
  };
  health_state = none;
  enabled = true;
}

-- "b" gets "x", and "a" moves from "x" to "y".
abbrev two_pools : Pools
two_pools = ("a", account "x" ∷ account "y" ∷ []) ∷ ("b", account "x" ∷ account "z" ∷ []) ∷ []

second_moves_first :
    match_candidates two_pools ≡ ok (some (("a", account "y") ∷ ("b", account "x") ∷ []))
unfolding match_candidates match_each sorted_by pool_of str_ltb augment
second_moves_first = refl

match_candidates_lem_example :
    ((selected : List (String × AccountCandidate)) × (match_candidates two_pools
        ≡ ok (some selected))
      × IsMatching two_pools selected)
    ⊎ ((match_candidates two_pools ≡ ok none) × ¬ Choice two_pools)
match_candidates_lem_example = match_candidates_lem two_pools (unfold has_repeats is_in any in refl)
