-- ===== src/Leases/Replacement.antt =====
-- `renew`, `replace` and `record_health_transition` of
-- orchestrator/sqlite_account_lease.py, each in one transaction where the code has one.
pub mod Exclusion
use claude_router.Prelude.{
  Bool, List, Option, Result, String, [], count, err, false, find, if◌then◌else◌, is_blank, ltb,
  none, not, ok, raise_if, select, some, true, update_where, ℕ, ◌&&◌, ◌++◌, ◌+◌, ◌==◌, ◌>>=◌, ◌>>◌,
  ◌||◌, ◌∷◌, nat_eq, string_eq, option_eq,
}
use claude_router.Leases.{AccountCandidate, Key, same_key}
use claude_router.Leases.Store.{
  Store, LeaseRow, ReservationRow, AccountLease, Error, value_error, expire_owned, is_owned, no_row,
  HealthEvent, eligible_candidates, occupied_accounts, reservation_key,
}
use claude_router.Leases.Reservations.{
  is_reservation_of, is_row_of, set_expiry, owned_by, resolve_ttl, set_released,
}
use claude_router.Leases.Cohorts.{row_or, insert_reservation, is_held_row, is_vacant}

-- `_lease_for_reservation`
unfoldable pub lease_for_reservation : ReservationRow → AccountLease
lease_for_reservation r = record {
  lease_id = r.reservation_id;
  account_id = r.account_id;
  provider = r.provider;
  owner_id = r.agent_id;
  acquired_at = r.reserved_at;
  expires_at = r.expires_at;
  metadata = record r.metadata {
    task_id = some r.task_id;
    reservation_generation = some r.generation;
    task_reservation = true;
  };
}

-- `provider is not None and reservation.provider != provider`, and the like
abbrev pub differs_from : Option String → String → Bool
differs_from none s = false
differs_from (some t) s = not (s == t)

-- The reservation that the lease stands for, while it is held and has not run out.
abbrev pub is_renewable : AccountLease → ℕ → ReservationRow → Bool
is_renewable l now r = is_reservation_of l r && (is_owned r.state && ltb now r.expires_at)

abbrev pub is_live_row : AccountLease → ℕ → LeaseRow → Bool
is_live_row l now r = is_row_of l r && ltb now r.expires_at

abbrev pub set_lease_expiry : ℕ → LeaseRow → LeaseRow
set_lease_expiry expires_at r = record r { expires_at = expires_at }

abbrev pub generation_agrees : Option ℕ → ℕ → Bool
generation_agrees none g = true
generation_agrees (some expected) g = expected == g

abbrev pub with_id : String → ReservationRow → Bool
with_id id r = r.reservation_id == id

-- The branch of `renew` for a reservation.
unfoldable pub renew_reservation :
    AccountLease → ℕ → ReservationRow → Store → Result Error (Store × Option AccountLease)
unfolding update_where find lease_for_reservation
renew_reservation lease expires_at r s =
    let renewed = record s {
      reservations = update_where (with_id lease.lease_id) (set_expiry expires_at) s.reservations;
    } in
    if generation_agrees lease.metadata.reservation_generation r.generation
    then (row_or no_row (find (with_id lease.lease_id) renewed.reservations) >>= λ row.
        ok (renewed, some (lease_for_reservation row)))
    else ok (s, none)

-- The branch of `renew` for a transport lease.
unfoldable pub renew_lease : AccountLease → ℕ → ℕ → Store → Store × Option AccountLease
unfolding update_where count
renew_lease lease expires_at now s =
    let renewed = record s {
      leases = update_where (is_live_row lease now) (set_lease_expiry expires_at) s.leases;
    } in
    if count (is_live_row lease now) s.leases == 1
    then (renewed, some (record lease { expires_at = expires_at }))
    else (renewed, none)

-- `renew`. The two branches are two transactions; nothing runs between them here.
unfoldable pub renew : AccountLease → ℕ → ℕ → Store → Result Error (Store × Option AccountLease)
unfolding expire_owned find renew_reservation renew_lease
renew lease lease_ttl_seconds now s =
    let swept = expire_owned now s in
    let expires_at = now + lease_ttl_seconds in
    do
      raise_if (ltb lease_ttl_seconds 1) value_error
      elim (find (is_renewable lease now) swept.reservations) [
        | none ↦ ok (renew_lease lease expires_at now swept)
        | some r ↦ renew_reservation lease expires_at r swept
      ]

-- `failed_account`: the id alone, or with the provider, or the reservation
pub data FailedAccount : Type 0 where
  account_name : String → FailedAccount
  failed_candidate : AccountCandidate → FailedAccount
  failed_reservation : ReservationRow → FailedAccount

abbrev pub failed_id : FailedAccount → String
failed_id (account_name id) = id
failed_id (failed_candidate c) = c.account_id
failed_id (failed_reservation r) = r.account_id

abbrev pub failed_provider : FailedAccount → Option String
failed_provider (account_name id) = none
failed_provider (failed_candidate c) = some c.provider
failed_provider (failed_reservation r) = some r.provider

abbrev pub expected_of : FailedAccount → Option ℕ → Option ℕ
expected_of (failed_reservation r) none = some r.generation
expected_of _ expected = expected

abbrev pub is_other_reservation : FailedAccount → Option ℕ → ReservationRow → Bool
is_other_reservation failed expected old =
    not (old.account_id == failed_id failed)
    || differs_from (failed_provider failed) old.provider
    || not (generation_agrees (expected_of failed expected) old.generation)

-- `_insert_health_transition`, after the test that it is about the failed reservation
abbrev pub note_health : Option HealthEvent → ReservationRow → Store → Result Error Store
note_health none old s = ok s
note_health (some t) old s =
    if not (t.account_id == old.account_id) || not (t.provider == old.provider)
    then err value_error
    else ok (record s { health = s.health ++ t ∷ [] })

-- `occupied.discard(failed_key)`
abbrev pub without_key : Key → List Key → List Key
without_key key keys = select (λ k. not (same_key k key)) keys

abbrev pub set_replaced_by : String → ReservationRow → ReservationRow
set_replaced_by id r = record r { replaced_by_reservation_id = some id }

abbrev pub retire : ℕ → ReservationRow → Store → Store
retire now old s = record s {
  reservations =
      update_where (is_held_row old.reservation_id) (set_released now "failed_account")
        s.reservations;
}

abbrev pub link : String → String → Store → Store
link old_id new_id s = record s {
  reservations = update_where (with_id old_id) (set_replaced_by new_id) s.reservations;
}

abbrev pub end_of : Option ℕ → ℕ → ReservationRow → ℕ
end_of none now old = old.expires_at
end_of (some duration) now old = now + duration

-- What `replace` does once the candidates are ranked; `s` has the old reservation retired.
unfoldable pub move_to :
    String
    → ReservationRow
    → Option ℕ
    → ℕ
    → List AccountCandidate
    → Store
    → Store × Option ReservationRow
unfolding insert_reservation update_where
move_to fresh old duration now [] s = (s, none)
move_to fresh old duration now (c ∷ cs) s =
    let (t, row) =
      insert_reservation fresh old.task_id old.agent_id c none now (end_of duration now old) s in
    (link old.reservation_id row.reservation_id t, some row)

-- The branch of `replace` where `old` is the failed reservation.
unfoldable pub replace_old :
    (String → String)
    → String
    → ReservationRow
    → List AccountCandidate
    → Option ℕ
    → Option HealthEvent
    → ℕ
    → Store
    → Result Error (Store × Option ReservationRow)
unfolding occupied_accounts eligible_candidates select update_where move_to
replace_old lower fresh old candidates duration health_transition now s = do
  noted ← note_health health_transition old s
  ranked ← eligible_candidates lower noted.health (reservation_key old ∷ []) now candidates
  ok (
      move_to fresh old duration now
        (select (is_vacant (without_key (reservation_key old) (occupied_accounts noted))) ranked)
        (retire now old noted))

-- `replace`
unfoldable pub replace :
    (String → String)
    → String
    → String
    → String
    → FailedAccount
    → List AccountCandidate
    → Option ℕ
    → Option ℕ
    → Option HealthEvent
    → Option ℕ
    → Option ℕ
    → ℕ
    → Store
    → Result Error (Store × Option ReservationRow)
unfolding resolve_ttl expire_owned find replace_old is_blank
replace lower fresh task_id agent_id failed candidates ttl expected_generation health_transition
      ttl_seconds lease_ttl_seconds now s =
    let swept = expire_owned now s in
    do
      duration ← resolve_ttl ttl ttl_seconds lease_ttl_seconds false
      raise_if (is_blank (failed_id failed)) value_error
      elim (find (owned_by task_id agent_id) swept.reservations) [
        | none ↦ ok (swept, none)
        | some old ↦
            if is_other_reservation failed expected_generation old
            then ok (swept, none)
            else replace_old lower fresh old candidates duration health_transition now swept
      ]

-- `record_health_transition`
unfoldable pub record_health_transition : HealthEvent → Store → Store
record_health_transition t s = record s { health = s.health ++ t ∷ [] }
