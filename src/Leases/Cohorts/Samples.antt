-- ===== src/Leases/Cohorts/Samples.antt =====
-- A cohort of two agents, one of which holds the account "x": tests and the witness.
use claude_router.Prelude.{
  List, Option, Result, String, [], map, none, ok, refl, some, str_ltb, ◌∷◌, ◌≡◌,
}
use claude_router.Leases.Requests.{Assignment, agent_names}
use claude_router.Leases.Matching.{pool_of, match_candidates, match_each, augment}
use claude_router.Leases.Store.{
  Error, Store, ReservationRow, expire_owned, occupied_accounts, eligible_candidates,
}
use claude_router.Leases.Store.Samples.{as_it_is, pool, x_reserved}
use claude_router.Leases.Cohorts.{reserve_many, commit_cohort}

abbrev cohort : List Assignment
cohort =
    record { agent_id = "a"; candidates = pool; metadata = none }
    ∷ record { agent_id = "b"; candidates = pool; metadata = none }
    ∷ []

accounts_of : Result Error (Store × Option (List ReservationRow)) → List String
accounts_of (ok (s, some rows)) = map (λ (r : ReservationRow). r.account_id) rows
accounts_of _ = []

-- The agent "a" keeps "x" and "b" has "y".
one_each :
    accounts_of (
      reserve_many as_it_is as_it_is "t"
        (some (agent_names ("a" ∷ "b" ∷ [])))
        (some pool)
        (some 200)
        none
        none
        none
        50
        x_reserved)
    ≡ "x" ∷ "y" ∷ []
unfolding reserve_many accounts_of eligible_candidates expire_owned occupied_accounts
    match_candidates match_each augment str_ltb commit_cohort pool_of
one_each = refl
