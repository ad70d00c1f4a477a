-- ===== src/Leases/Adapters.antt =====
-- `consume_reserved_account` and `replace_account_atomically` of orchestrator/sqlite_account_lease.py: what the
-- model client calls. Each reads the agent's reservation and then calls a method of the store.
pub mod Exclusion
use claude_router.Prelude.{
  Bool, List, Option, Result, String, [], any, contains, false, has_codes, if◌then◌else◌, is_in,
  map, none, not, ok, select, some, true, ℕ, ◌&&◌, ◌++◌, ◌+◌, ◌==◌, ◌>>=◌, ◌||◌, ◌∷◌, nat_eq,
  string_eq, option_eq,
}
use claude_router.Leases.{AccountCandidate}
use claude_router.Leases.Store.{Store, ReservationRow, AccountLease, Error, HealthEvent}
use claude_router.Leases.Reservations.{get_reservation, activate}
use claude_router.Leases.Replacement.{
  lease_for_reservation, differs_from, generation_agrees, failed_reservation, replace,
}

abbrev pub is_nonempty : List String → Bool
is_nonempty [] = false
is_nonempty (x ∷ xs) = true

-- The test of `consume_reserved_account`.
unfoldable pub is_usable : Option String → List String → List String → ReservationRow → Bool
unfolding is_in
is_usable provider allowed_ids excluded r = not (
    differs_from provider r.provider
    || (is_nonempty allowed_ids && not (is_in r.account_id allowed_ids))
    || is_in r.account_id excluded)

abbrev pub leased : Store × Option ReservationRow → Store × Option AccountLease
leased (s, none) = (s, none)
leased (s, some r) = (s, some (lease_for_reservation r))

abbrev pub on_reservation : {A : Type 0} → A → (ReservationRow → A) → Option ReservationRow → A
on_reservation none_is f none = none_is
on_reservation none_is f (some r) = f r

-- The end of `consume_reserved_account`, on the reservation of the agent
unfoldable pub activate_usable :
    String
    → String
    → Option String
    → List String
    → List String
    → ℕ
    → Store
    → ReservationRow
    → Store × Option AccountLease
unfolding activate is_usable
activate_usable task_id agent_id provider allowed_ids excluded now s r =
    if is_usable provider allowed_ids excluded r
    then leased (activate task_id agent_id r.generation now s)
    else (s, none)

-- `consume_reserved_account`
unfoldable pub consume_reserved_account :
    String
    → String
    → Option String
    → List AccountCandidate
    → List String
    → List String
    → ℕ
    → Store
    → Store × Option AccountLease
consume_reserved_account task_id agent_id provider candidates candidate_account_ids excluded now s =
    let allowed_ids =
      candidate_account_ids ++ map (λ (c : AccountCandidate). c.account_id) candidates in
    on_reservation (s, none) (activate_usable task_id agent_id provider allowed_ids excluded now s)
      (get_reservation task_id agent_id now s)

-- `reservation is None or …`, and the test of the lease's generation
abbrev pub is_fenced : String → Option AccountLease → ReservationRow → Bool
is_fenced current_account_id none r = r.account_id == current_account_id
is_fenced current_account_id (some lease) r =
    r.account_id == current_account_id
    && generation_agrees lease.metadata.reservation_generation r.generation

-- `float(lease_ttl_seconds or 60.0)`
abbrev pub cooldown_of : Option ℕ → ℕ
cooldown_of none = 60
cooldown_of (some n) = if n == 0 then 60 else n

abbrev pub has_any : List String → String → Bool
has_any tokens s = any (λ (token : String). contains token s) tokens

-- The `transition` of `replace_account_atomically`; `reason` is lower case.
unfoldable pub failure_event : String → Option ℕ → ℕ → ReservationRow → HealthEvent
unfolding has_codes
failure_event reason lease_ttl_seconds now r =
    let outcome : String × Option ℕ =
      if has_any ("auth" ∷ "invalid" ∷ "permission" ∷ "disabled" ∷ []) reason
      then (if contains "disabled" reason then "disabled" else "quarantined", none)
      else if contains "rate" reason || contains "429" reason
      then ("cooldown", some (now + cooldown_of lease_ttl_seconds))
      else ("degraded", none) in
    record {
      account_id = r.account_id;
      provider = r.provider;
      state = outcome.0;
      occurred_at = now;
      cooldown_until = outcome.1;
    }

abbrev pub with_lease : Store × Option ReservationRow → Result Error (Store × Option AccountLease)
with_lease x = ok (leased x)

-- The end of `replace_account_atomically`, on the reservation of the agent
unfoldable pub replace_fenced :
    (String → String)
    → String
    → String
    → String
    → String
    → List AccountCandidate
    → String
    → Option AccountLease
    → List String
    → Option ℕ
    → ℕ
    → Store
    → ReservationRow
    → Result Error (Store × Option AccountLease)
unfolding replace failure_event select
replace_fenced lower fresh task_id agent_id current_account_id candidates reason current_lease
      excluded lease_ttl_seconds now s r =
    let eligible =
      select (λ (c : AccountCandidate). not (is_in c.account_id excluded)) candidates in
    let transition = failure_event (lower reason) lease_ttl_seconds now r in
    if is_fenced current_account_id current_lease r
    then (replace lower fresh task_id agent_id (failed_reservation r) eligible none none
          (some transition) none lease_ttl_seconds now s
        >>= with_lease)
    else ok (s, none)

-- `replace_account_atomically`
unfoldable pub replace_account_atomically :
    (String → String)
    → String
    → String
    → String
    → String
    → List AccountCandidate
    → String
    → Option AccountLease
    → List String
    → Option ℕ
    → ℕ
    → Store
    → Result Error (Store × Option AccountLease)
unfolding replace_fenced get_reservation
replace_account_atomically lower fresh task_id agent_id current_account_id candidates reason
      current_lease excluded lease_ttl_seconds now s =
    on_reservation (ok (s, none))
      (replace_fenced lower fresh task_id agent_id current_account_id candidates reason
        current_lease excluded lease_ttl_seconds now s)
      (get_reservation task_id agent_id now s)
