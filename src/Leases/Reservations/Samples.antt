-- ===== src/Leases/Reservations/Samples.antt =====
-- The reservation of the account "x": tests and the witness.
use claude_router.Prelude.{[], after, none, refl, select, still, ◌≡◌}
use claude_router.Leases.Store.Holders.{Exclusive}
use claude_router.Leases.Matching.Samples.{account}
use claude_router.Leases.Store.{insert_lease, new_lease, expire_owned, occupied_accounts}
use claude_router.Leases.Store.Samples.{pool, y_is_leased, as_it_is, x_reserved}
use claude_router.Leases.Reservations.{activate}
use claude_router.Leases.Owners.{acquires, accounts_stay_Exclusive}

-- A stale generation does not activate the reservation; the current one does.
stale_generation : (activate "t" "a" 2 50 x_reserved).1 ≡ none
unfolding activate expire_owned
stale_generation = refl

accounts_stay_Exclusive_example :
    Exclusive (insert_lease (new_lease "l1" (account "y") "b" 50 30) x_reserved)
accounts_stay_Exclusive_example =
    accounts_stay_Exclusive as_it_is (after still (acquires "l1" pool "b" 30 [] 50 y_is_leased))
      (unfold occupied_accounts select in ((λ m. elim m [ ]), tt))
