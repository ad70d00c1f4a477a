-- ===== src/Leases/Adapters/Exclusion.antt =====
-- The owners of the accounts, through the methods of Adapters.
use claude_router.Prelude.{
  >>=-eq-ok, Bool, Bool-cases, List, Option, Result, String, false, if◌then◌else◌, inl, inr, is_in,
  map, none, not, ok, ok-injective, select, some, subst, true, ℕ, ◌++◌, ◌≡◌,
}
use claude_router.Leases.Reservations.Exclusion.{activate-Exclusive}
use claude_router.Leases.{AccountCandidate}
use claude_router.Leases.Store.{Error, Store, ReservationRow, AccountLease}
use claude_router.Leases.Store.Holders.{Exclusive}
use claude_router.Leases.Reservations.{activate, get_reservation}
use claude_router.Leases.Replacement.{failed_reservation, replace}
use claude_router.Leases.Adapters.{
  leased, on_reservation, is_usable, activate_usable, consume_reserved_account, replace_fenced,
  is_fenced, failure_event, replace_account_atomically,
}
use claude_router.Leases.Replacement.Exclusion.{replace-Exclusive}

leased-Exclusive : (x : Store × Option ReservationRow) → Exclusive x.0 → Exclusive (leased x).0
leased-Exclusive (s, none) e = e
leased-Exclusive (s, some r) e = e

on_reservation-Exclusive :
    (s : Store) (f : ReservationRow → Store × Option AccountLease) (row : Option ReservationRow)
    → Exclusive s
    → ((r : ReservationRow) → Exclusive (f r).0)
    → Exclusive (on_reservation (s, none) f row).0
on_reservation-Exclusive s f none e g = e
on_reservation-Exclusive s f (some r) e g = g r

either_leased-Exclusive :
    (b : Bool) (s : Store) (x : Store × Option ReservationRow)
    → Exclusive s
    → Exclusive x.0
    → Exclusive (if b then leased x else (s, none)).0
either_leased-Exclusive true s x e g = leased-Exclusive x g
either_leased-Exclusive false s x e g = e

activate_usable-Exclusive :
    (task_id agent_id : String) (provider : Option String) (allowed_ids excluded : List String)
    (now : ℕ) (s : Store) (r : ReservationRow)
    → Exclusive s
    → Exclusive (activate_usable task_id agent_id provider allowed_ids excluded now s r).0
unfolding activate_usable
activate_usable-Exclusive task_id agent_id provider allowed_ids excluded now s r e =
    either_leased-Exclusive (is_usable provider allowed_ids excluded r) s
      (activate task_id agent_id r.generation now s) e
      (activate-Exclusive task_id agent_id r.generation now s e)

pub consume-Exclusive :
    (task_id agent_id : String) (provider : Option String) (cs : List AccountCandidate)
    (ids excluded : List String) (now : ℕ) (s : Store)
    → Exclusive s
    → Exclusive (consume_reserved_account task_id agent_id provider cs ids excluded now s).0
unfolding consume_reserved_account
consume-Exclusive task_id agent_id provider cs ids excluded now s e =
    let allowed_ids = ids ++ map (λ (c : AccountCandidate). c.account_id) cs in
    on_reservation-Exclusive s
      (activate_usable task_id agent_id provider allowed_ids excluded now s)
      (get_reservation task_id agent_id now s) e
      (λ r. activate_usable-Exclusive task_id agent_id provider allowed_ids excluded now s r e)

replace_fenced-Exclusive :
    (lower : String → String) (fresh task_id agent_id current_account_id : String)
    (cs : List AccountCandidate) (reason : String) (current_lease : Option AccountLease)
    (excluded : List String) (lease_ttl_seconds : Option ℕ) (now : ℕ) (s : Store)
    (r : ReservationRow) {result : Store × Option AccountLease}
    → Exclusive s
    → replace_fenced lower fresh task_id agent_id current_account_id cs reason current_lease
        excluded lease_ttl_seconds now s r
      ≡ ok result
    → Exclusive result.0
unfolding replace_fenced
replace_fenced-Exclusive lower fresh task_id agent_id current_account_id cs reason current_lease
      excluded lease_ttl_seconds now s r e h =
    elim (Bool-cases (is_fenced current_account_id current_lease r)) [
      | inl f ↦
          let eligible = select (λ (c : AccountCandidate). not (is_in c.account_id excluded)) cs in
          let transition = some (failure_event (lower reason) lease_ttl_seconds now r) in
          let (moved, p, h1) =
            >>=-eq-ok
              (replace lower fresh task_id agent_id (failed_reservation r) eligible none none
                transition none lease_ttl_seconds now s)
              _ (rw f at h) in
          subst (λ (y : Store × Option AccountLease). Exclusive y.0) (ok-injective h1)
            (leased-Exclusive moved (
              replace-Exclusive lower fresh task_id agent_id (failed_reservation r) eligible none
                none transition none lease_ttl_seconds now s e p))
      | inr f ↦
          subst (λ (y : Store × Option AccountLease). Exclusive y.0) (ok-injective (rw f at h)) e
    ]

fenced_reservation-Exclusive :
    (s : Store) (f : ReservationRow → Result Error (Store × Option AccountLease))
    (row : Option ReservationRow) {result : Store × Option AccountLease}
    → Exclusive s
    → ((r : ReservationRow) → f r ≡ ok result → Exclusive result.0)
    → on_reservation (ok (s, none)) f row ≡ ok result
    → Exclusive result.0
fenced_reservation-Exclusive s f none e g h =
    subst (λ (y : Store × Option AccountLease). Exclusive y.0) (ok-injective h) e
fenced_reservation-Exclusive s f (some r) e g h = g r h

pub replace_atomically-Exclusive :
    (lower : String → String) (fresh task_id agent_id current_account_id : String)
    (cs : List AccountCandidate) (reason : String) (current_lease : Option AccountLease)
    (excluded : List String) (lease_ttl_seconds : Option ℕ) (now : ℕ) (s : Store)
    {result : Store × Option AccountLease}
    → Exclusive s
    → replace_account_atomically lower fresh task_id agent_id current_account_id cs reason
        current_lease excluded lease_ttl_seconds now s
      ≡ ok result
    → Exclusive result.0
unfolding replace_account_atomically
replace_atomically-Exclusive lower fresh task_id agent_id current_account_id cs reason current_lease
      excluded lease_ttl_seconds now s e h =
    fenced_reservation-Exclusive s
      (replace_fenced lower fresh task_id agent_id current_account_id cs reason current_lease
        excluded lease_ttl_seconds now s)
      (get_reservation task_id agent_id now s) e
      (λ r k.
        replace_fenced-Exclusive lower fresh task_id agent_id current_account_id cs reason
          current_lease excluded lease_ttl_seconds now s r e k)
      h
