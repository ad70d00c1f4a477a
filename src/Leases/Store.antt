-- ===== src/Leases/Store.antt =====
-- SQLiteAccountLeaseStore of orchestrator/sqlite_account_lease.py: the tables, the ranking of candidates, and
-- `acquire`. A method runs in one immediate transaction: when it raises, the tables stay as they were.
-- `lower` is Python's `str.lower`; instants are whole ticks.
pub mod Ranking
pub mod Acquire
pub mod Holders
pub mod Samples
use claude_router.Prelude.{
  Bool, List, Option, Result, String, [], err, false, find, if◌then◌else◌, is_blank, is_in, leb,
  ltb, map, none, not, ok, raise_if, select, some, sorted_by, str_ltb, true, update_where, ℕ, ◌&&◌,
  ◌++◌, ◌+◌, ◌==◌, ◌>>=◌, ◌>>◌, ◌||◌, ◌∷◌, nat_eq, string_eq, option_eq,
}
use claude_router.Leases.{Metadata, AccountCandidate, Key, same_key, candidate_key, has_key}

pub record LeaseRow : Type 0 where
  pub lease_id : String
  pub account_id : String
  pub provider : String
  pub owner_id : String
  pub acquired_at : ℕ
  pub expires_at : ℕ
  pub released_at : Option ℕ
  pub outcome : Option String

pub data ReservationState : Type 0 where
  reserved active released : ReservationState

pub record ReservationRow : Type 0 where
  pub reservation_id : String
  pub task_id : String
  pub agent_id : String
  pub account_id : String
  pub provider : String
  pub generation : ℕ
  pub state : ReservationState
  pub reserved_at : ℕ
  pub expires_at : ℕ
  pub activated_at : Option ℕ
  pub released_at : Option ℕ
  pub release_reason : Option String
  pub replaced_by_reservation_id : Option String
  pub metadata : Metadata

-- What the store reads of a health event. The rows are in the order of their ids.
pub record HealthEvent : Type 0 where
  pub account_id : String
  pub provider : String
  pub state : String
  pub occurred_at : ℕ
  pub cooldown_until : Option ℕ

pub record Store : Type 0 where
  pub leases : List LeaseRow
  pub reservations : List ReservationRow
  pub health : List HealthEvent

pub data Error : Type 0 where
  value_error : Error
  key_error : Error
  no_row : Error  -- a row that was just written is not there
  search_failed : Error

-- state IN ('reserved', 'active')
abbrev pub is_owned : ReservationState → Bool
is_owned released = false
is_owned _ = true

abbrev pub is_open : Option ℕ → Bool
is_open none = true
is_open (some t) = false

abbrev or_else : Option String → String → String
or_else none s = s
or_else (some t) s = t

abbrev pub expired_lease : ℕ → LeaseRow → Bool
expired_lease now r = is_open r.released_at && leb r.expires_at now

abbrev pub expired_reservation : ℕ → ReservationRow → Bool
expired_reservation now r = is_owned r.state && leb r.expires_at now

abbrev pub set_lease_expired : ℕ → LeaseRow → LeaseRow
set_lease_expired now r = record r { released_at = some now; outcome = some "expired" }

abbrev pub set_reservation_expired : ℕ → ReservationRow → ReservationRow
set_reservation_expired now r = record r {
  state = released;
  released_at = some now;
  release_reason = some (or_else r.release_reason "expired");
}

-- `_expire_owned`
unfoldable pub expire_owned : ℕ → Store → Store
unfolding update_where
expire_owned now s = record s {
  leases = update_where (expired_lease now) (set_lease_expired now) s.leases;
  reservations =
      update_where (expired_reservation now) (set_reservation_expired now) s.reservations;
}

abbrev pub lease_key : LeaseRow → Key
lease_key r = (r.provider, r.account_id)

abbrev pub reservation_key : ReservationRow → Key
reservation_key r = (r.provider, r.account_id)

-- `_occupied_accounts`
unfoldable pub occupied_accounts : Store → List Key
unfolding select
occupied_accounts s =
    map lease_key (select (λ (r : LeaseRow). is_open r.released_at) s.leases)
    ++ map reservation_key (select (λ (r : ReservationRow). is_owned r.state) s.reservations)

-- `a or b` on texts, where the empty text is false
abbrev or_text : Option String → String → String
or_text none s = s
or_text (some t) s = if t == "" then s else t

-- `_BLOCKED_HEALTH_STATES`
unfoldable pub is_blocked : String → Bool
unfolding is_in
is_blocked state = is_in state ("disabled" ∷ "invalid" ∷ "quarantined" ∷ "revoked" ∷ [])

-- A time that is None or not after `now`.
abbrev pub is_past : Option ℕ → ℕ → Bool
is_past none now = true
is_past (some t) now = leb t now

-- `_candidate_locally_eligible`
unfoldable pub candidate_locally_eligible :
    (String → String) → AccountCandidate → ℕ → Result Error Bool
unfolding is_blocked is_blank
candidate_locally_eligible lower c now =
    let metadata_state = lower (or_text c.metadata.health_state (or_text c.metadata.state "")) in
    let state = lower (or_text c.health_state metadata_state) in
    let disabled = not c.enabled || c.metadata.disabled || c.metadata.quarantined in
    if is_blank c.account_id || is_blank c.provider
    then err value_error
    else ok (not disabled && not (is_blocked state) && is_past c.cooldown_until now)

abbrev later_of : HealthEvent → Option HealthEvent → Option HealthEvent
later_of e none = some e
later_of e (some f) = if leb e.occurred_at f.occurred_at then some f else some e

-- `_current_health`: ORDER BY occurred_at DESC, id DESC LIMIT 1
unfoldable pub current_health : List HealthEvent → Key → Option HealthEvent
current_health [] key = none
current_health (e ∷ es) key =
    let rest = current_health es key in
    if same_key (e.provider, e.account_id) key then later_of e rest else rest

-- The tests on the health row in `_eligible_candidates`.
unfoldable pub is_healthy : (String → String) → ℕ → Option HealthEvent → Bool
unfolding is_blocked
is_healthy lower now none = true
is_healthy lower now (some e) =
    let state = lower e.state in
    not (is_blocked state)
    && is_past e.cooldown_until now
    && not (state == "cooldown" && is_open e.cooldown_until)

-- `(candidate.active_requests, candidate.account_id) < (incumbent.active_requests, incumbent.account_id)`
abbrev pub less_busy : AccountCandidate → AccountCandidate → Bool
less_busy c d =
    ltb c.active_requests d.active_requests
    || (c.active_requests == d.active_requests && str_ltb c.account_id d.account_id)

-- `unique[key] = candidate`, unless the incumbent comes first
unfoldable pub note : AccountCandidate → List AccountCandidate → List AccountCandidate
note c [] = c ∷ []
note c (d ∷ ds) =
    let rest = note c ds in
    if same_key (candidate_key d) (candidate_key c)
    then (if less_busy c d then c ∷ ds else d ∷ ds)
    else d ∷ rest

-- The loop of `_eligible_candidates`.
unfoldable pub collect :
    (String → String)
    → List HealthEvent
    → List Key
    → ℕ
    → List AccountCandidate
    → List AccountCandidate
    → Result Error (List AccountCandidate)
unfolding note is_healthy current_health candidate_locally_eligible has_key
collect lower health excluded now [] unique = ok unique
collect lower health excluded now (c ∷ cs) unique =
    let healthy = is_healthy lower now (current_health health (candidate_key c)) in
    let rest = collect lower health excluded now cs in
    if has_key (candidate_key c) excluded
    then rest unique
    else (candidate_locally_eligible lower c now >>= λ eligible.
        rest (if eligible && healthy then note c unique else unique))

-- The sort key `(active_requests, provider, account_id)`.
abbrev pub ranks_before : AccountCandidate → AccountCandidate → Bool
ranks_before c d =
    ltb c.active_requests d.active_requests
    || (c.active_requests == d.active_requests
        && (str_ltb c.provider d.provider
            || (c.provider == d.provider && str_ltb c.account_id d.account_id)))

-- `_eligible_candidates`
unfoldable pub eligible_candidates :
    (String → String)
    → List HealthEvent
    → List Key
    → ℕ
    → List AccountCandidate
    → Result Error (List AccountCandidate)
unfolding collect sorted_by
eligible_candidates lower health excluded now candidates = do
  unique ← collect lower health excluded now candidates []
  ok (sorted_by ranks_before unique)

pub record AccountLease : Type 0 where
  pub lease_id : String
  pub account_id : String
  pub provider : String
  pub owner_id : String
  pub acquired_at : ℕ
  pub expires_at : ℕ
  pub metadata : Metadata

abbrev pub new_lease : String → AccountCandidate → String → ℕ → ℕ → AccountLease
new_lease lease_id c owner_id now ttl = record {
  lease_id = lease_id;
  account_id = c.account_id;
  provider = c.provider;
  owner_id = owner_id;
  acquired_at = now;
  expires_at = now + ttl;
  metadata = c.metadata;
}

abbrev pub lease_row : AccountLease → LeaseRow
lease_row l = record {
  lease_id = l.lease_id;
  account_id = l.account_id;
  provider = l.provider;
  owner_id = l.owner_id;
  acquired_at = l.acquired_at;
  expires_at = l.expires_at;
  released_at = none;
  outcome = none;
}

-- INSERT INTO llm_account_leases
abbrev pub insert_lease : AccountLease → Store → Store
insert_lease l s = record s { leases = s.leases ++ lease_row l ∷ [] }

abbrev pub is_free : List String → List Key → AccountCandidate → Bool
is_free excluded occupied c =
    not (is_in c.account_id excluded) && not (has_key (candidate_key c) occupied)

abbrev pub grant :
    String → String → ℕ → ℕ → Store → Option AccountCandidate → Store × Option AccountLease
grant lease_id owner_id now ttl s none = (s, none)
grant lease_id owner_id now ttl s (some c) =
    let lease = new_lease lease_id c owner_id now ttl in (insert_lease lease s, some lease)

-- `acquire`. `lease_id` is the fresh identifier.
unfoldable pub acquire :
    (String → String)
    → String
    → List AccountCandidate
    → String
    → ℕ
    → List String
    → ℕ
    → Store
    → Result Error (Store × Option AccountLease)
acquire lower lease_id candidates owner_id lease_ttl_seconds excluded now s =
    let swept = expire_owned now s in
    do
      raise_if (ltb lease_ttl_seconds 1) value_error
      ranked ← eligible_candidates lower swept.health [] now candidates
      ok (
          grant lease_id owner_id now lease_ttl_seconds swept
            (find (is_free excluded (occupied_accounts swept)) ranked))
