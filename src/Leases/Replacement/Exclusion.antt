-- ===== src/Leases/Replacement/Exclusion.antt =====
-- The owners of the accounts, through `renew` and `replace`.
use claude_router.Prelude.{
  >>=-eq-ok, Bool, Bool-cases, List, Member, Member-select, Member-sorted_by, Option, Option-cases,
  String, Sublist, Sublist-Distinct, Sublist-Member, [], arith, count, false, find, here,
  if◌then◌else◌, inl, inr, is_blank, ltb, none, not, ok, ok-injective, raise_if, refl, select,
  select-Member, some, subst, sym, true, update_where, ℕ, ◌+◌, ◌==◌, ◌||◌, ◌∷◌, ◌≡◌, nat_eq,
  string_eq, option_eq,
}
use claude_router.Leases.Cohorts.Exclusion.{add_reservation-Exclusive}
use claude_router.Leases.{
  same_key→≡, has_key_self, AccountCandidate, Key, candidate_key, has_key, has_key-absent, same_key,
}
use claude_router.Leases.Store.{
  Store, HealthEvent, ReservationRow, AccountLease, value_error, no_row, expire_owned, note,
  collect, eligible_candidates, ranks_before, candidate_locally_eligible, occupied_accounts,
  reservation_key,
}
use claude_router.Leases.Store.Ranking.{note-Member}
use claude_router.Leases.Store.Holders.{
  Exclusive, reservations-Exclusive, leases-Exclusive, expire_owned-Exclusive, reservations-Sublist,
}
use claude_router.Leases.Reservations.{set_expiry, owned_by, resolve_ttl, set_released}
use claude_router.Leases.Cohorts.{row_or, insert_reservation, is_held_row, is_vacant}
use claude_router.Leases.Replacement.{
  renew, renew_reservation, renew_lease, is_renewable, is_live_row, set_lease_expiry, with_id,
  generation_agrees, FailedAccount, failed_id, is_other_reservation, link, move_to, note_health,
  replace, replace_old, retire, set_replaced_by, without_key,
}

renew_reservation-Exclusive :
    (lease : AccountLease) (expires_at : ℕ) (r : ReservationRow) (s : Store)
    {result : Store × Option AccountLease}
    → Exclusive s
    → renew_reservation lease expires_at r s ≡ ok result
    → Exclusive result.0
unfolding renew_reservation
renew_reservation-Exclusive lease expires_at r s e h =
    elim (Bool-cases (generation_agrees lease.metadata.reservation_generation r.generation)) [
      | inl g ↦
          let renewed = record s {
            reservations =
                update_where (with_id lease.lease_id) (set_expiry expires_at) s.reservations;
          } in
          let (row, f, h1) =
            >>=-eq-ok (row_or no_row (find (with_id lease.lease_id) renewed.reservations)) _
              (rw g at h) in
          subst (λ (y : Store × Option AccountLease). Exclusive y.0) (ok-injective h1)
            (reservations-Exclusive (with_id lease.lease_id) (set_expiry expires_at) s
              (λ q p o. (o, refl)) e)
      | inr g ↦
          subst (λ (y : Store × Option AccountLease). Exclusive y.0) (ok-injective (rw g at h)) e
    ]

renew_lease-Exclusive :
    (lease : AccountLease) (expires_at now : ℕ) (s : Store)
    → Exclusive s
    → Exclusive (renew_lease lease expires_at now s).0
unfolding renew_lease
renew_lease-Exclusive lease expires_at now s e =
    let renewed =
      leases-Exclusive (is_live_row lease now) (set_lease_expiry expires_at) s (λ q p o. (o, refl))
        e in
    elim (Bool-cases (count (is_live_row lease now) s.leases == 1)) [
      | inl g ↦ rw g renewed
      | inr g ↦ rw g renewed
    ]

pub renew-Exclusive :
    (lease : AccountLease) (ttl now : ℕ) (s : Store) {result : Store × Option AccountLease}
    → Exclusive s
    → renew lease ttl now s ≡ ok result
    → Exclusive result.0
unfolding renew
renew-Exclusive lease ttl now s e h =
    let swept = expire_owned now s in
    let e' = expire_owned-Exclusive now s e in
    let (u, p, h1) = >>=-eq-ok (raise_if (ltb ttl 1) value_error) _ h in
    elim (Option-cases (find (is_renewable lease now) swept.reservations)) [
      | inl n ↦
          subst (λ (y : Store × Option AccountLease). Exclusive y.0) (ok-injective (rw n at h1))
            (renew_lease-Exclusive lease (now + ttl) now swept e')
      | inr (r, f) ↦ renew_reservation-Exclusive lease (now + ttl) r swept e' (rw f at h1)
    ]

either_included :
    (excluded : List Key) (c : AccountCandidate) (unique : List AccountCandidate)
    → has_key (candidate_key c) excluded ≡ false
    → ((d : AccountCandidate) → Member d unique → has_key (candidate_key d) excluded ≡ false)
    → (b : Bool) (d : AccountCandidate) → Member d (if b then note c unique else unique)
    → has_key (candidate_key d) excluded ≡ false
either_included excluded c unique e f true d m = elim (note-Member c d unique m) [
  | inl p ↦ rw p e
  | inr l ↦ f d l
]
either_included excluded c unique e f false d m = f d m

-- A candidate that is collected is not excluded.
collect-included :
    (lower : String → String) (health : List HealthEvent) (excluded : List Key) (now : ℕ)
    (cs unique v : List AccountCandidate)
    → ((d : AccountCandidate) → Member d unique → has_key (candidate_key d) excluded ≡ false)
    → collect lower health excluded now cs unique ≡ ok v
    → (d : AccountCandidate) → Member d v
    → has_key (candidate_key d) excluded ≡ false
unfolding collect
collect-included lower health excluded now [] unique v f h d m =
    f d (subst (Member d) (sym (ok-injective h)) m)
collect-included lower health excluded now (c ∷ cs) unique v f h d m =
    elim (Bool-cases (has_key (candidate_key c) excluded)) [
      | inl e ↦ collect-included lower health excluded now cs unique v f (rw e at h) d m
      | inr e ↦
          let (eligible, q, h1) =
            >>=-eq-ok (candidate_locally_eligible lower c now) _ (rw e at h) in
          collect-included lower health excluded now cs _ v
            (either_included excluded c unique e f _) h1 d m
    ]

pub eligible-included :
    (lower : String → String) (health : List HealthEvent) (excluded : List Key) (now : ℕ)
    (cs v : List AccountCandidate)
    → eligible_candidates lower health excluded now cs ≡ ok v
    → (d : AccountCandidate) → Member d v
    → has_key (candidate_key d) excluded ≡ false
unfolding eligible_candidates
eligible-included lower health excluded now cs v h d m =
    let (unique, q, h1) = >>=-eq-ok (collect lower health excluded now cs []) _ h in
    collect-included lower health excluded now cs [] unique (λ x l. elim l [ ]) q d
      (Member-sorted_by ranks_before d unique (subst (Member d) (sym (ok-injective h1)) m))

-- What is vacant but for the failed account, and is not the failed account, is vacant.
not_occupied :
    (key k : Key) (occupied : List Key)
    → has_key k (key ∷ []) ≡ false
    → ¬ Member k (without_key key occupied)
    → ¬ Member k occupied
not_occupied key k occupied e n m = elim (Bool-cases (same_key k key)) [
  | inl s ↦
      let t : has_key k (key ∷ []) ≡ true = rw (← same_key→≡ k key s) (has_key_self k []) in cc
  | inr s ↦ n (Member-select (λ j. not (same_key j key)) m (rw s refl))
]

link-Exclusive :
    (old_id new_id : String) (s : Store) → Exclusive s → Exclusive (link old_id new_id s)
link-Exclusive old_id new_id s e =
    reservations-Exclusive (with_id old_id) (set_replaced_by new_id) s (λ q p o. (o, refl)) e

move_to-Exclusive :
    (fresh : String) (old : ReservationRow) (duration : Option ℕ) (now : ℕ)
    (cs : List AccountCandidate) (s : Store)
    → Exclusive s
    → ((c : AccountCandidate) → Member c cs → ¬ Member (candidate_key c) (occupied_accounts s))
    → Exclusive (move_to fresh old duration now cs s).0
unfolding move_to insert_reservation
move_to-Exclusive fresh old duration now [] s e vacant = e
move_to-Exclusive fresh old duration now (c ∷ cs) s e vacant =
    link-Exclusive old.reservation_id fresh _ (add_reservation-Exclusive _ s refl (vacant c here) e)

retire-Sublist :
    (now : ℕ) (old : ReservationRow) (s : Store)
    → Sublist (occupied_accounts (retire now old s)) (occupied_accounts s)
retire-Sublist now old s =
    reservations-Sublist (is_held_row old.reservation_id) (set_released now "failed_account") s
      (λ q p o. cc)

note_health-Exclusive :
    (t : Option HealthEvent) (old : ReservationRow) (s : Store) {noted : Store}
    → Exclusive s
    → note_health t old s ≡ ok noted
    → Exclusive noted
unfolding occupied_accounts
note_health-Exclusive none old s e h = subst Exclusive (ok-injective h) e
note_health-Exclusive (some t) old s {noted} e h =
    elim (Bool-cases (not (t.account_id == old.account_id) || not (t.provider == old.provider))) [
      | inl b ↦ let bad = rw b at h in cc
      | inr b ↦ subst Exclusive (ok-injective (rw b at h)) e
    ]

replace_old-Exclusive :
    (lower : String → String) (fresh : String) (old : ReservationRow) (cs : List AccountCandidate)
    (duration : Option ℕ) (t : Option HealthEvent) (now : ℕ) (s : Store)
    {result : Store × Option ReservationRow}
    → Exclusive s
    → replace_old lower fresh old cs duration t now s ≡ ok result
    → Exclusive result.0
unfolding replace_old
replace_old-Exclusive lower fresh old cs duration t now s e h =
    let (noted, n, h1) = >>=-eq-ok (note_health t old s) _ h in
    let key = reservation_key old in
    let (ranked, r, h2) =
      >>=-eq-ok (eligible_candidates lower noted.health (key ∷ []) now cs) _ h1 in
    let e' = note_health-Exclusive t old s e n in
    let vacant = is_vacant (without_key key (occupied_accounts noted)) in
    subst (λ (y : Store × Option ReservationRow). Exclusive y.0) (ok-injective h2)
      (move_to-Exclusive fresh old duration now (select vacant ranked) (retire now old noted)
        (Sublist-Distinct (retire-Sublist now old noted) e')
        (λ c m l.
          let (k, free) = select-Member vacant ranked c m in
          not_occupied key (candidate_key c) (occupied_accounts noted)
            (eligible-included lower noted.health (key ∷ []) now cs ranked r c k)
            (has_key-absent _ _ (ground arith)) (Sublist-Member (retire-Sublist now old noted) l)))

pub replace-Exclusive :
    (lower : String → String) (fresh task_id agent_id : String) (failed : FailedAccount)
    (cs : List AccountCandidate) (ttl expected_generation : Option ℕ) (t : Option HealthEvent)
    (ttl_seconds lease_ttl_seconds : Option ℕ) (now : ℕ) (s : Store)
    {result : Store × Option ReservationRow}
    → Exclusive s
    → replace lower fresh task_id agent_id failed cs ttl expected_generation t ttl_seconds
        lease_ttl_seconds now s
      ≡ ok result
    → Exclusive result.0
unfolding replace
replace-Exclusive lower fresh task_id agent_id failed cs ttl expected_generation t ttl_seconds
      lease_ttl_seconds now s e h =
    let swept = expire_owned now s in
    let e' = expire_owned-Exclusive now s e in
    let (duration, d, h1) = >>=-eq-ok (resolve_ttl ttl ttl_seconds lease_ttl_seconds false) _ h in
    let (u, b, h2) = >>=-eq-ok (raise_if (is_blank (failed_id failed)) value_error) _ h1 in
    elim (Option-cases (find (owned_by task_id agent_id) swept.reservations)) [
      | inl n ↦
          subst (λ (y : Store × Option ReservationRow). Exclusive y.0) (ok-injective (rw n at h2))
            e'
      | inr (old, f) ↦ elim (Bool-cases (is_other_reservation failed expected_generation old)) [
        | inl o ↦
            subst (λ (y : Store × Option ReservationRow). Exclusive y.0)
              (ok-injective (rw (f, o) at h2)) e'
        | inr o ↦ replace_old-Exclusive lower fresh old cs duration t now swept e' (rw (f, o) at h2)
      ]
    ]
