-- ===== src/Leases/Store/Samples.antt =====
-- Two accounts, one of them reserved: tests and witnesses.
use claude_router.Prelude.{
  List, Member, String, [], false, find, here, is_blank, none, ok, refl, some, str_ltb, there, true,
  ◌∷◌, ◌≡◌, ◌≤◌, ◌⊎◌,
}
use claude_router.Leases.{AccountCandidate}
use claude_router.Leases.Matching.Samples.{account}
use claude_router.Leases.Store.{
  Store, reserved, expire_owned, occupied_accounts, is_free, new_lease, insert_lease, acquire,
  eligible_candidates,
}
use claude_router.Leases.Store.Ranking.{IsFit, IsNamed}
use claude_router.Leases.Store.Acquire.{acquire_lem}

abbrev pub as_it_is : String → String
as_it_is s = s

abbrev pub x_reserved : Store
x_reserved = record {
  leases = [];
  reservations =
      record {
        reservation_id = "r1";
        task_id = "t";
        agent_id = "a";
        account_id = "x";
        provider = "web";
        generation = 1;
        state = reserved;
        reserved_at = 10;
        expires_at = 100;
        activated_at = none;
        released_at = none;
        release_reason = none;
        replaced_by_reservation_id = none;
        metadata = (account "x").metadata;
      }
      ∷ [];
  health = [];
}

abbrev pub pool : List AccountCandidate
pool = account "x" ∷ account "y" ∷ []

pub pool-IsNamed : (c : AccountCandidate) → Member c pool → IsNamed as_it_is [] [] 50 c
unfolding is_blank
pool-IsNamed c here = refl
pool-IsNamed c (there here) = refl
pool-IsNamed c (there (there m)) = elim m [ ]

pub y_is_leased :
    acquire as_it_is "l1" pool "b" 30 [] 50 x_reserved
    ≡ ok (
      insert_lease (new_lease "l1" (account "y") "b" 50 30) x_reserved,
      some (new_lease "l1" (account "y") "b" 50 30),
    )
unfolding acquire eligible_candidates find expire_owned str_ltb occupied_accounts
y_is_leased = refl

acquire_lem_example :
    let swept = expire_owned 50 x_reserved in
    let free = is_free [] (occupied_accounts swept) in
    let result = acquire as_it_is "l1" pool "b" 30 [] 50 x_reserved in
    ((c : AccountCandidate) × (result
        ≡ ok (insert_lease (new_lease "l1" c "b" 50 30) swept, some (new_lease "l1" c "b" 50 30)))
      × Member c pool
      × IsFit as_it_is [] [] 50 c
      × (free c ≡ true)
      × ((d : AccountCandidate)
          → Member d pool
          → IsFit as_it_is [] [] 50 d
          → free d ≡ true
          → c.active_requests ≤ d.active_requests))
    ⊎ ((result ≡ ok (swept, none))
        × ((d : AccountCandidate) → Member d pool → IsFit as_it_is [] [] 50 d → free d ≡ false))
acquire_lem_example = acquire_lem as_it_is "l1" pool "b" 30 [] 50 x_reserved refl pool-IsNamed
