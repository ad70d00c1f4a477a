-- ===== src/Leases/Cohorts.antt =====
-- `reserve_many` of orchestrator/sqlite_account_lease.py, which reserves accounts for the agents of a cohort. The
-- identifiers that `uuid4` draws are a function of the agent.
pub mod Vacancy
pub mod Holding
pub mod Entry
pub mod Commit
pub mod Whole
mod Samples
pub mod Exclusion
use claude_router.Prelude.{
  Bool, List, Option, Result, String, [], dict_get, dict_set, err, false, find, if◌then◌else◌,
  is_blank, is_in, leb, max, none, not, ok, raise_if, select, some, true, update_where, ℕ, ◌&&◌,
  ◌++◌, ◌+◌, ◌==◌, ◌>>=◌, ◌>>◌, ◌∷◌, nat_eq, string_eq, option_eq,
}
use claude_router.Leases.Reservations.{resolve_ttl, set_expiry, with_term}
use claude_router.Leases.Requests.{Assignment, Assignments, names_of, normalize_assignments}
use claude_router.Leases.Matching.{Pools, match_candidates, MatchResult}
use claude_router.Leases.{AccountCandidate, Metadata, Key, candidate_key, has_key}
use claude_router.Leases.Store.{
  Store, ReservationRow, Error, value_error, reserved, HealthEvent, eligible_candidates,
  expire_owned, is_owned, key_error, no_row, occupied_accounts, search_failed,
}

-- MAX(generation) of the agent's reservations, or 0
unfoldable pub last_generation : String → String → List ReservationRow → ℕ
last_generation task_id agent_id [] = 0
last_generation task_id agent_id (r ∷ rows) =
    let rest = last_generation task_id agent_id rows in
    if r.task_id == task_id && r.agent_id == agent_id then max r.generation rest else rest

-- `if assignment_metadata: metadata["assignment"] = …`
abbrev pub noted_assignment : Option String → Metadata → Metadata
noted_assignment none m = m
noted_assignment (some a) m = record m { assignment = some a }

abbrev pub new_reservation :
    String → String → String → ℕ → AccountCandidate → Option String → ℕ → ℕ → ReservationRow
new_reservation id task_id agent_id generation c assignment reserved_at expires_at = record {
  reservation_id = id;
  task_id = task_id;
  agent_id = agent_id;
  account_id = c.account_id;
  provider = c.provider;
  generation = generation;
  state = reserved;
  reserved_at = reserved_at;
  expires_at = expires_at;
  activated_at = none;
  released_at = none;
  release_reason = none;
  replaced_by_reservation_id = none;
  metadata = noted_assignment assignment c.metadata;
}

abbrev pub add_reservation : ReservationRow → Store → Store
add_reservation r s = record s { reservations = s.reservations ++ r ∷ [] }

abbrev pub Held : Type 0
Held = List (String × ReservationRow)

-- `_insert_reservation`
unfoldable pub insert_reservation :
    String
    → String
    → String
    → AccountCandidate
    → Option String
    → ℕ
    → ℕ
    → Store
    → Store × ReservationRow
unfolding last_generation
insert_reservation id task_id agent_id c assignment reserved_at expires_at s =
    let generation = last_generation task_id agent_id s.reservations + 1 in
    let row = new_reservation id task_id agent_id generation c assignment reserved_at expires_at in
    (add_reservation row s, row)

-- `current_by_agent`: the rows of the task that the requested agents hold
unfoldable pub hold_each : List ReservationRow → Held → Held
unfolding dict_set
hold_each [] held = held
hold_each (r ∷ rows) held = hold_each rows (dict_set r.agent_id r held)

abbrev pub is_requested : String → List String → ReservationRow → Bool
is_requested task_id names r = r.task_id == task_id && (is_in r.agent_id names && is_owned r.state)

abbrev pub is_vacant : List Key → AccountCandidate → Bool
is_vacant occupied c = not (has_key (candidate_key c) occupied)

abbrev pub is_some : Option ReservationRow → Bool
is_some none = false
is_some (some r) = true

abbrev pub is_held : Held → String → Bool
is_held held agent_id = is_some (dict_get agent_id held)

-- The loop that fills `pools`, with the eligible accounts that are not occupied.
unfoldable pub pools_for :
    (String → String)
    → List HealthEvent
    → List Key
    → ℕ
    → Held
    → List Assignment
    → Result Error Pools
unfolding eligible_candidates select dict_get
pools_for lower health occupied now held [] = ok []
pools_for lower health occupied now held (a ∷ rest) =
    let others = pools_for lower health occupied now held rest in
    if is_held held a.agent_id then others else (do
      ranked ← eligible_candidates lower health [] now a.candidates
      pools ← others
      ok ((a.agent_id, select (is_vacant occupied) ranked) ∷ pools))

-- `metadata_by_agent[agent_id]`
unfoldable pub assignment_of : String → List Assignment → Option String
assignment_of agent_id [] = none
assignment_of agent_id (a ∷ rest) =
    let later = assignment_of agent_id rest in if a.agent_id == agent_id then a.metadata else later

-- The loop that inserts the selection.
unfoldable pub insert_each :
    (String → String)
    → String
    → List Assignment
    → ℕ
    → ℕ
    → List (String × AccountCandidate)
    → Store
    → Held
    → Store × Held
unfolding insert_reservation assignment_of dict_set
insert_each fresh task_id requested now expires_at [] s held = (s, held)
insert_each fresh task_id requested now expires_at ((agent_id, c) ∷ rest) s held =
    let (t, row) =
      insert_reservation (fresh agent_id) task_id agent_id c (assignment_of agent_id requested) now
        expires_at s in
    insert_each fresh task_id requested now expires_at rest t (dict_set agent_id row held)

-- reservation_id = ? AND state IN ('reserved', 'active')
abbrev pub is_held_row : String → ReservationRow → Bool
is_held_row id r = r.reservation_id == id && is_owned r.state

abbrev pub row_or : Error → Option ReservationRow → Result Error ReservationRow
row_or e none = err e
row_or e (some r) = ok r

abbrev pub extend_row : ℕ → String → Store → Store
extend_row expires_at id s = record s {
  reservations = update_where (is_held_row id) (set_expiry expires_at) s.reservations;
}

-- The loop that extends the reservations that would end earlier.
unfoldable pub extend_each :
    ℕ → List (String × ReservationRow) → Store → Held → Result Error (Store × Held)
unfolding update_where find dict_set
extend_each expires_at [] s held = ok (s, held)
extend_each expires_at ((agent_id, r) ∷ rest) s held =
    let go_on = extend_each expires_at rest in
    let extended = extend_row expires_at r.reservation_id s in
    if leb expires_at r.expires_at
    then go_on s held
    else (row_or no_row (
          find (λ (q : ReservationRow). q.reservation_id == r.reservation_id) extended.reservations)
        >>= λ row. go_on extended (dict_set agent_id row held))

-- `tuple(reservations[agent_id] for agent_id in requested_order)`
unfoldable pub gather : Held → List String → Result Error (List ReservationRow)
unfolding dict_get
gather held [] = ok []
gather held (name ∷ names) = do
  row ← row_or key_error (dict_get name held)
  rows ← gather held names
  ok (row ∷ rows)

abbrev pub Cohort : Type 0
Cohort = Result Error (Store × Option (List ReservationRow))

-- What follows on a matching.
unfoldable pub commit_cohort :
    (String → String)
    → String
    → List Assignment
    → ℕ
    → ℕ
    → Store
    → Held
    → List (String × AccountCandidate)
    → Cohort
unfolding insert_each extend_each gather
commit_cohort fresh task_id requested now expires_at s current selected = do
  let (inserted, held) = insert_each fresh task_id requested now expires_at selected s current
  (extended, rows) ← extend_each expires_at held inserted held
  cohort ← gather rows (names_of requested)
  ok (extended, some cohort)

abbrev pub on_matching : Store → (List (String × AccountCandidate) → Cohort) → MatchResult → Cohort
on_matching swept commit (err e) = err search_failed
on_matching swept commit (ok none) = ok (swept, none)
on_matching swept commit (ok (some selected)) = commit selected

-- The transaction of `reserve_many`.
unfoldable pub reserve_cohort :
    (String → String) → (String → String) → String → List Assignment → ℕ → ℕ → Store → Cohort
unfolding expire_owned occupied_accounts pools_for hold_each select
reserve_cohort lower fresh task_id requested duration now s =
    let swept = expire_owned now s in
    let current =
      hold_each (select (is_requested task_id (names_of requested)) swept.reservations) [] in
    do
      pools ← pools_for lower swept.health (occupied_accounts swept) now current requested
      on_matching swept (commit_cohort fresh task_id requested now (now + duration) swept current)
          (match_candidates pools)

-- `reserve_many`
unfoldable pub reserve_many :
    (String → String)
    → (String → String)
    → String
    → Option Assignments
    → Option (List AccountCandidate)
    → Option ℕ
    → Option (List String)
    → Option ℕ
    → Option ℕ
    → ℕ
    → Store
    → Cohort
unfolding resolve_ttl normalize_assignments reserve_cohort is_blank
reserve_many lower fresh task_id assignments shared ttl agent_ids ttl_seconds lease_ttl_seconds now
      s =
    do
      raise_if (is_blank task_id) value_error
      term ← resolve_ttl ttl ttl_seconds lease_ttl_seconds true
      requested ← normalize_assignments assignments shared agent_ids
      cohort ←
          with_term term (λ duration. reserve_cohort lower fresh task_id requested duration now s)
      cohort
