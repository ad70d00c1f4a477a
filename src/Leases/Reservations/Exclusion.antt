-- ===== src/Leases/Reservations/Exclusion.antt =====
-- The owners of the accounts, through `acquire`, `activate`, `renew_task` and the releases.
use claude_router.Prelude.{
  >>=-eq-ok, Bool, Bool-cases, List, Option, String, [], and-true, any, false, if◌then◌else◌, inl,
  inr, is_blank, ltb, none, ok, ok-injective, raise_if, refl, some, subst, true, update_where, ℕ,
  ◌+◌, ◌≡◌,
}
use claude_router.Leases.{AccountCandidate}
use claude_router.Leases.Store.{
  Store, ReservationRow, AccountLease, expire_owned, acquire, eligible_candidates, value_error,
}
use claude_router.Leases.Store.Holders.{
  Exclusive, reservations-Exclusive, leases-Exclusive, expire_owned-Exclusive, grant-Exclusive,
}
use claude_router.Leases.Reservations.{
  extend_task, resolve_ttl, with_term, renew_task, held_for_task, set_expiry, is_activatable,
  is_reservation_of, activate, release_agent, release_task, release, is_row_of, set_closed,
  set_released, set_active,
}

pub acquire-Exclusive :
    (lower : String → String) (lease_id : String) (cs : List AccountCandidate) (owner_id : String)
    (ttl : ℕ) (excluded : List String) (now : ℕ) (s : Store) {result : Store × Option AccountLease}
    → Exclusive s
    → acquire lower lease_id cs owner_id ttl excluded now s ≡ ok result
    → Exclusive result.0
unfolding acquire
acquire-Exclusive lower lease_id cs owner_id ttl excluded now s {result} e h =
    let swept = expire_owned now s in
    let (u, p, h1) = >>=-eq-ok (raise_if (ltb ttl 1) value_error) _ h in
    let (ranked, r, h2) = >>=-eq-ok (eligible_candidates lower swept.health [] now cs) _ h1 in
    subst (λ (x : Store × Option AccountLease). Exclusive x.0) (ok-injective h2)
      (grant-Exclusive lease_id owner_id now ttl excluded swept ranked
        (expire_owned-Exclusive now s e))

either-Exclusive :
    {A : Type 0} (b : Bool) (x y : Store × A)
    → Exclusive x.0
    → Exclusive y.0
    → Exclusive (if b then x else y).0
either-Exclusive true x y e f = e
either-Exclusive false x y e f = f

pub activate-Exclusive :
    (task_id agent_id : String) (generation now : ℕ) (s : Store)
    → Exclusive s
    → Exclusive (activate task_id agent_id generation now s).0
unfolding activate
activate-Exclusive task_id agent_id generation now s e =
    let current = is_activatable task_id agent_id generation now in
    let swept = expire_owned now s in
    let kept_apart : Exclusive
        (record swept { reservations = update_where current (set_active now) swept.reservations }) =
      reservations-Exclusive current (set_active now) swept
        (λ r p o. ((and-true _ _ (and-true _ _ p).1).0, refl)) (expire_owned-Exclusive now s e) in
    either-Exclusive _ _ _ kept_apart kept_apart

pub release_agent-Exclusive :
    (task_id agent_id : String) (generation : Option ℕ) (reason : String) (now : ℕ) (s : Store)
    {result : Store × Bool}
    → Exclusive s
    → release_agent task_id agent_id generation reason now s ≡ ok result
    → Exclusive result.0
unfolding release_agent
release_agent-Exclusive task_id agent_id generation reason now s {result} e h =
    let (u, p, h1) = >>=-eq-ok (raise_if (is_blank reason) value_error) _ h in
    subst (λ (x : Store × Bool). Exclusive x.0) (ok-injective h1)
      (reservations-Exclusive _ (set_released now reason) (expire_owned now s) (λ r p o. cc)
        (expire_owned-Exclusive now s e))

pub release_task-Exclusive :
    (task_id reason : String) (now : ℕ) (s : Store) {result : Store × ℕ}
    → Exclusive s
    → release_task task_id reason now s ≡ ok result
    → Exclusive result.0
unfolding release_task
release_task-Exclusive task_id reason now s {result} e h =
    let (u, p, h1) = >>=-eq-ok (raise_if (is_blank reason) value_error) _ h in
    subst (λ (x : Store × ℕ). Exclusive x.0) (ok-injective h1)
      (reservations-Exclusive _ (set_released now reason) (expire_owned now s) (λ r p o. cc)
        (expire_owned-Exclusive now s e))

pub release-Exclusive :
    (lease : AccountLease) (outcome : String) (now : ℕ) (s : Store)
    → Exclusive s
    → Exclusive (release lease outcome now s)
unfolding release
release-Exclusive lease outcome now s e =
    elim (Bool-cases (any (is_reservation_of lease) s.reservations)) [
      | inl h ↦ rw h e
      | inr h ↦ rw h (leases-Exclusive (is_row_of lease) (set_closed now outcome) s (λ r p o. cc) e)
    ]

extend_task-Exclusive :
    (task_id : String) (duration : ℕ) (expected : Option (List (String × ℕ))) (now : ℕ) (s : Store)
    → Exclusive s
    → Exclusive (extend_task task_id duration expected now s).0
unfolding extend_task
extend_task-Exclusive task_id duration expected now s e =
    let swept = expire_owned-Exclusive now s e in
    let renewed =
      reservations-Exclusive (held_for_task task_id) (set_expiry (now + duration))
        (expire_owned now s) (λ r p o. (o, refl)) swept in
    either-Exclusive _ _ _ swept renewed

with_term-Exclusive :
    {A : Type 0} (term : Option ℕ) (f : ℕ → Store × A) {result : Store × A}
    → ((duration : ℕ) → Exclusive (f duration).0)
    → with_term term f ≡ ok result
    → Exclusive result.0
with_term-Exclusive none f e h = cc
with_term-Exclusive {A} (some duration) f e h =
    subst (λ (x : Store × A). Exclusive x.0) (ok-injective h) (e duration)

pub renew_task-Exclusive :
    (task_id : String) (ttl ttl_seconds lease_ttl_seconds : Option ℕ)
    (expected : Option (List (String × ℕ))) (now : ℕ) (s : Store)
    {result : Store × Option (List ReservationRow)}
    → Exclusive s
    → renew_task task_id ttl ttl_seconds lease_ttl_seconds expected now s ≡ ok result
    → Exclusive result.0
unfolding renew_task
renew_task-Exclusive task_id ttl ttl_seconds lease_ttl_seconds expected now s e h =
    let (term, r, h1) = >>=-eq-ok (resolve_ttl ttl ttl_seconds lease_ttl_seconds true) _ h in
    with_term-Exclusive term _ (λ duration. extend_task-Exclusive task_id duration expected now s e)
      h1
