-- ===== src/Leases/Reservations.antt =====
-- The reservations of SQLiteAccountLeaseStore: `get_reservation`, `activate`, `renew_task`, `release_agent`, `release_task`, and
-- `release` of a transport lease. Each runs in one transaction.
pub mod Exclusion
mod Samples
use claude_router.Prelude.{
  Bool, List, Option, Result, String, [], all, any, count, dict_get, err, false, find,
  if◌then◌else◌, is_blank, ltb, map, none, not, ok, raise_if, select, some, sorted_by, str_ltb,
  true, update_where, ℕ, ◌&&◌, ◌++◌, ◌+◌, ◌==◌, ◌>>=◌, ◌>>◌, ◌||◌, ◌∷◌, nat_eq, string_eq,
  option_eq,
}
use claude_router.Leases.Store.{
  Store, LeaseRow, ReservationRow, AccountLease, Error, value_error, active, released, expire_owned,
  is_owned, is_open,
}

-- task_id = ? AND agent_id = ? AND state IN ('reserved', 'active')
abbrev pub owned_by : String → String → ReservationRow → Bool
owned_by task_id agent_id r = r.task_id == task_id && r.agent_id == agent_id && is_owned r.state

-- `get_reservation`; the partial unique index leaves at most one such row.
unfoldable pub get_reservation : String → String → ℕ → Store → Option ReservationRow
unfolding find
get_reservation task_id agent_id now s =
    find (λ (r : ReservationRow). owned_by task_id agent_id r && ltb now r.expires_at)
      s.reservations

abbrev pub or_now : Option ℕ → ℕ → ℕ
or_now none now = now
or_now (some t) now = t

abbrev pub set_active : ℕ → ReservationRow → ReservationRow
set_active now r = record r { state = active; activated_at = some (or_now r.activated_at now) }

abbrev pub of_generation : String → String → ℕ → ReservationRow → Bool
of_generation task_id agent_id generation r =
    r.task_id == task_id && r.agent_id == agent_id && r.generation == generation

-- The WHERE clause of `activate`.
abbrev pub is_activatable : String → String → ℕ → ℕ → ReservationRow → Bool
is_activatable task_id agent_id generation now r =
    of_generation task_id agent_id generation r && (is_owned r.state && ltb now r.expires_at)

-- `activate`
unfoldable pub activate : String → String → ℕ → ℕ → Store → Store × Option ReservationRow
unfolding expire_owned update_where count find
activate task_id agent_id generation now s =
    let swept = expire_owned now s in
    let current = is_activatable task_id agent_id generation now in
    let rows = update_where current (set_active now) swept.reservations in
    let changed = record swept { reservations = rows } in
    if count current swept.reservations == 1
    then (changed, find (of_generation task_id agent_id generation) rows)
    else (changed, none)

abbrev pub set_released : ℕ → String → ReservationRow → ReservationRow
set_released now reason r = record r {
  state = released;
  released_at = some now;
  release_reason = some reason;
}

-- `AND generation = ?`, when one is given
abbrev pub generation_is : Option ℕ → ℕ → Bool
generation_is none g = true
generation_is (some expected) g = g == expected

-- `release_agent`
unfoldable pub release_agent :
    String → String → Option ℕ → String → ℕ → Store → Result Error (Store × Bool)
unfolding expire_owned update_where count is_blank
release_agent task_id agent_id generation reason now s =
    let swept = expire_owned now s in
    let mine = λ (r : ReservationRow).
      owned_by task_id agent_id r && generation_is generation r.generation in
    do
      raise_if (is_blank reason) value_error
      ok (
        record swept {
          reservations = update_where mine (set_released now reason) swept.reservations;
        },
        count mine swept.reservations == 1,
      )

-- `release_task`
unfoldable pub release_task : String → String → ℕ → Store → Result Error (Store × ℕ)
unfolding expire_owned update_where count is_blank
release_task task_id reason now s =
    let swept = expire_owned now s in
    let mine = λ (r : ReservationRow). r.task_id == task_id && is_owned r.state in
    do
      raise_if (is_blank reason) value_error
      ok (
        record swept {
          reservations = update_where mine (set_released now reason) swept.reservations;
        },
        count mine swept.reservations,
      )

abbrev pub is_reservation_of : AccountLease → ReservationRow → Bool
is_reservation_of l r =
    r.reservation_id == l.lease_id
    && r.account_id == l.account_id
    && r.provider == l.provider
    && r.agent_id == l.owner_id

abbrev pub is_row_of : AccountLease → LeaseRow → Bool
is_row_of l r =
    r.lease_id == l.lease_id
    && r.account_id == l.account_id
    && r.provider == l.provider
    && r.owner_id == l.owner_id
    && is_open r.released_at

abbrev pub set_closed : ℕ → String → LeaseRow → LeaseRow
set_closed now outcome r = record r { released_at = some now; outcome = some outcome }

-- `release`: a lease that stands for a reservation is left alone.
unfoldable pub release : AccountLease → String → ℕ → Store → Store
unfolding update_where any
release lease outcome now s =
    if any (is_reservation_of lease) s.reservations
    then s
    else (record s { leases = update_where (is_row_of lease) (set_closed now outcome) s.leases })

abbrev present : Option ℕ → List ℕ
present none = []
present (some n) = n ∷ []

-- The checks of `_resolve_ttl` on the values that are given.
abbrev agreed_ttl : List ℕ → Bool → Result Error (Option ℕ)
agreed_ttl [] required = if required then err value_error else ok none
agreed_ttl (value ∷ rest) required = do
  raise_if (any (λ v. ltb v 1) (value ∷ rest)) value_error
  raise_if (any (λ v. not (v == value)) rest) value_error
  ok (some value)

-- `_resolve_ttl`
unfoldable pub resolve_ttl : Option ℕ → Option ℕ → Option ℕ → Bool → Result Error (Option ℕ)
unfolding any
resolve_ttl ttl ttl_seconds lease_ttl_seconds required =
    agreed_ttl (present ttl ++ (present ttl_seconds ++ present lease_ttl_seconds)) required

abbrev pub held_for_task : String → ReservationRow → Bool
held_for_task task_id r = r.task_id == task_id && is_owned r.state

-- ORDER BY agent_id
abbrev agent_first : ReservationRow → ReservationRow → Bool
agent_first r q = str_ltb r.agent_id q.agent_id

abbrev pub generations : List ReservationRow → List (String × ℕ)
generations rows = map (λ (r : ReservationRow). (r.agent_id, r.generation)) rows

-- `expected == generations`, for dicts
abbrev same_dict : List (String × ℕ) → List (String × ℕ) → Bool
same_dict a b = all (λ e. dict_get e.0 b == some e.1) a && all (λ e. dict_get e.0 a == some e.1) b

abbrev as_expected : Option (List (String × ℕ)) → List (String × ℕ) → Bool
as_expected none found = true
as_expected (some expected) found = same_dict expected found

abbrev pub set_expiry : ℕ → ReservationRow → ReservationRow
set_expiry expires_at r = record r { expires_at = expires_at }

abbrev is_none_held : List ReservationRow → Bool
is_none_held [] = true
is_none_held (r ∷ rs) = false

-- The transaction of `renew_task`.
unfoldable pub extend_task :
    String → ℕ → Option (List (String × ℕ)) → ℕ → Store → Store × Option (List ReservationRow)
unfolding expire_owned update_where select sorted_by all dict_get
extend_task task_id duration expected now s =
    let swept = expire_owned now s in
    let held = sorted_by agent_first (select (held_for_task task_id) swept.reservations) in
    let rows =
      update_where (held_for_task task_id) (set_expiry (now + duration)) swept.reservations in
    if is_none_held held || not (as_expected expected (generations held)) then (swept, none) else (
      record swept { reservations = rows },
      some (sorted_by agent_first (select (held_for_task task_id) rows)),
    )

-- The `assert` that a required term is there.
abbrev pub with_term : {A : Type 0} → Option ℕ → (ℕ → A) → Result Error A
with_term none use_term = err value_error
with_term (some duration) use_term = ok (use_term duration)

-- `renew_task`
unfoldable pub renew_task :
    String
    → Option ℕ
    → Option ℕ
    → Option ℕ
    → Option (List (String × ℕ))
    → ℕ
    → Store
    → Result Error (Store × Option (List ReservationRow))
unfolding resolve_ttl extend_task
renew_task task_id ttl ttl_seconds lease_ttl_seconds expected now s = do
  term ← resolve_ttl ttl ttl_seconds lease_ttl_seconds true
  with_term term (λ duration. extend_task task_id duration expected now s)
