-- ===== src/Leases/Cohorts/Whole.antt =====
-- The results of `reserve_many`: its pools, and the two ends of its transaction.
use claude_router.Prelude.{List, String, [], ok, select, ℕ, ◌≡◌, nat_eq, string_eq, option_eq}
use claude_router.Leases.Requests.{Assignment, names_of}
use claude_router.Leases.Matching.Complete.{Choice}
use claude_router.Leases.Matching.{Pools}
use claude_router.Leases.Store.{Store, occupied_accounts}
use claude_router.Leases.Cohorts.{hold_each, is_requested, pools_for}

-- What `reserve_many` promises: the whole cohort, or the tables as the expiry leaves them.
pub record IsRefused (lower : String → String) (requested : List Assignment) (now : ℕ)
    (task_id : String) (swept : Store) : Type 0 where
  pub pools : Pools
  pub vacant :
      pools_for lower swept.health
        (occupied_accounts swept)
        now
        (hold_each (select (is_requested task_id (names_of requested)) swept.reservations) [])
        requested
      ≡ ok pools
  pub none_fits : ¬ Choice pools
