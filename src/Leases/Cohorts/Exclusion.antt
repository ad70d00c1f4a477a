-- ===== src/Leases/Cohorts/Exclusion.antt =====
-- The owners of the accounts, through `reserve_many`.
use claude_router.Prelude.{
  >>=-eq-ok, Bool-cases, Distinct, Distinct-has_repeats, Distinct-snoc, List, Member, Member-append,
  Member-cons, Member-map, Option, String, [], ap, dict_get-Member, dict_set, err, find, here, inl,
  inr, is_blank, leb, live-append, map, none, ok, ok-injective, raise_if, refl, select, some,
  some_inj, subst, sym, there, true, ℕ, ◌++◌, ◌+◌, ◌==◌, ◌∙◌, ◌∷◌, ◌≡◌, nat_eq, string_eq,
  option_eq,
}
use claude_router.Leases.Requests.{
  Assignment, Assignments, check_agents, names_of, normalize_assignments, normalized_source,
  source_of,
}
use claude_router.Leases.Matching.Names.{match_candidates-Distinct}
use claude_router.Leases.Matching.Correct.{IsMatching, match_candidates_lem}
use claude_router.Leases.Matching.{MatchResult, Pools, agents, match_candidates}
use claude_router.Leases.Cohorts.Vacancy.{
  AreVacant, IsMatching-Distinct, check_agents-Distinct, pools_for-AreVacant,
}
use mathlib.Core.List.{append_assoc}
use claude_router.Leases.Cohorts.{
  commit_cohort, Cohort, gather, hold_each, is_requested, on_matching, pools_for, reserve_cohort,
  reserve_many,
}
use claude_router.Leases.{AccountCandidate, candidate_key}
use claude_router.Leases.Store.{
  Store, ReservationRow, LeaseRow, occupied_accounts, is_open, is_owned, lease_key, reservation_key,
  no_row, expire_owned, value_error,
}
use claude_router.Leases.Store.Holders.{Exclusive, reservations-Exclusive, expire_owned-Exclusive}
use claude_router.Leases.Reservations.{set_expiry, resolve_ttl, with_term}
use claude_router.Leases.Cohorts.{
  Held, add_reservation, insert_reservation, insert_each, extend_row, extend_each, is_held_row,
  row_or, assignment_of,
}

-- A reservation that is added is behind the others.
add_reservation-occupied :
    (r : ReservationRow) (s : Store)
    → is_owned r.state ≡ true
    → occupied_accounts (add_reservation r s) ≡ occupied_accounts s ++ reservation_key r ∷ []
unfolding occupied_accounts
add_reservation-occupied r s o =
    ap (λ ks. map lease_key (select (λ (l : LeaseRow). is_open l.released_at) s.leases) ++ ks)
      (live-append reservation_key (λ (q : ReservationRow). is_owned q.state) s.reservations r o)
    ∙ sym (
        append_assoc (map lease_key (select (λ (l : LeaseRow). is_open l.released_at) s.leases))
          (map reservation_key (select (λ (q : ReservationRow). is_owned q.state) s.reservations))
          (reservation_key r ∷ []))

pub add_reservation-Exclusive :
    (r : ReservationRow) (s : Store)
    → is_owned r.state ≡ true
    → ¬ Member (reservation_key r) (occupied_accounts s)
    → Exclusive s
    → Exclusive (add_reservation r s)
add_reservation-Exclusive r s o n e =
    rw (add_reservation-occupied r s o)
      (Distinct-snoc (occupied_accounts s) (reservation_key r) e n)

insert_each-Exclusive :
    (fresh : String → String) (task_id : String) (requested : List Assignment) (now expires_at : ℕ)
    (selected : List (String × AccountCandidate)) (s : Store) (held : Held)
    → Exclusive s
    → ((e : String × AccountCandidate)
        → Member e selected
        → ¬ Member (candidate_key e.1) (occupied_accounts s))
    → Distinct (map (λ (e : String × AccountCandidate). candidate_key e.1) selected)
    → Exclusive (insert_each fresh task_id requested now expires_at selected s held).0
unfolding insert_each insert_reservation
insert_each-Exclusive fresh task_id requested now expires_at [] s held e vacant d = e
insert_each-Exclusive fresh task_id requested now expires_at ((agent_id, c) ∷ rest) s held e vacant
      (absent, d) =
    let row =
      (insert_reservation (fresh agent_id) task_id agent_id c (assignment_of agent_id requested) now
        expires_at s).1 in
    insert_each-Exclusive fresh task_id requested now expires_at rest (add_reservation row s)
      (dict_set agent_id row held)
      (add_reservation-Exclusive row s refl (vacant (agent_id, c) here) e)
      (λ x m l.
        elim (Member-append (occupied_accounts s)
          (subst (Member (candidate_key x.1)) (add_reservation-occupied row s refl) l)) [
            | inl l' ↦ vacant x (there m) l'
            | inr l' ↦ elim (Member-cons l') [
              | inl p ↦ absent (
                  subst
                    (λ k.
                      Member k (map (λ (y : String × AccountCandidate). candidate_key y.1) rest))
                    p (Member-map (λ (y : String × AccountCandidate). candidate_key y.1) m))
              | inr z ↦ elim z [ ]
            ]
          ])
      d

extend_each-Exclusive :
    (expires_at : ℕ) (snapshot : Held) (s : Store) (held : Held) {result : Store × Held}
    → Exclusive s
    → extend_each expires_at snapshot s held ≡ ok result
    → Exclusive result.0
unfolding extend_each
extend_each-Exclusive expires_at [] s held e h =
    subst (λ (x : Store × Held). Exclusive x.0) (ok-injective h) e
extend_each-Exclusive expires_at ((agent_id, r) ∷ rest) s held e h =
    elim (Bool-cases (leb expires_at r.expires_at)) [
      | inl l ↦ extend_each-Exclusive expires_at rest s held e (rw l at h)
      | inr l ↦
          let extended = extend_row expires_at r.reservation_id s in
          let (row, f, h1) =
            >>=-eq-ok
              (row_or no_row (
                find (λ (q : ReservationRow). q.reservation_id == r.reservation_id)
                  extended.reservations))
              _ (rw l at h) in
          extend_each-Exclusive expires_at rest extended (dict_set agent_id row held)
            (reservations-Exclusive (is_held_row r.reservation_id) (set_expiry expires_at) s
              (λ q p o. (o, refl)) e)
            h1
    ]

commit_cohort-Exclusive :
    (fresh : String → String) (task_id : String) (requested : List Assignment) (now expires_at : ℕ)
    (s : Store) (held : Held) (selected : List (String × AccountCandidate))
    {result : Store × Option (List ReservationRow)}
    → Exclusive s
    → ((e : String × AccountCandidate)
        → Member e selected
        → ¬ Member (candidate_key e.1) (occupied_accounts s))
    → Distinct (map (λ (e : String × AccountCandidate). candidate_key e.1) selected)
    → commit_cohort fresh task_id requested now expires_at s held selected ≡ ok result
    → Exclusive result.0
unfolding commit_cohort
commit_cohort-Exclusive fresh task_id requested now expires_at s held selected e vacant d h =
    let inserted = insert_each fresh task_id requested now expires_at selected s held in
    let ((extended, rows), x, h1) =
      >>=-eq-ok (extend_each expires_at inserted.1 inserted.0 inserted.1) _ h in
    let (cohort, g, h2) = >>=-eq-ok (gather rows (names_of requested)) _ h1 in
    subst (λ (y : Store × Option (List ReservationRow)). Exclusive y.0) (ok-injective h2)
      (extend_each-Exclusive expires_at inserted.1 inserted.0 inserted.1
        (insert_each-Exclusive fresh task_id requested now expires_at selected s held e vacant d) x)

on_matching-Exclusive :
    (swept : Store) (pools : Pools) (commit : List (String × AccountCandidate) → Cohort)
    (m : MatchResult) {result : Store × Option (List ReservationRow)}
    → Exclusive swept
    → AreVacant (occupied_accounts swept) (agents pools) pools
    → match_candidates pools ≡ m
    → ((selected : List (String × AccountCandidate))
        → ((e : String × AccountCandidate)
            → Member e selected
            → ¬ Member (candidate_key e.1) (occupied_accounts swept))
        → Distinct (map (λ (e : String × AccountCandidate). candidate_key e.1) selected)
        → commit selected ≡ ok result
        → Exclusive result.0)
    → on_matching swept commit m ≡ ok result
    → Exclusive result.0
on_matching-Exclusive swept pools commit (err x) e v p f h = cc
on_matching-Exclusive swept pools commit (ok none) e v p f h =
    subst (λ (y : Store × Option (List ReservationRow)). Exclusive y.0) (ok-injective h) e
on_matching-Exclusive swept pools commit (ok (some selected)) e v p f h =
    elim (match_candidates_lem pools (Distinct-has_repeats (agents pools) v.once)) [
      | inl (found, q, good) ↦
          let one : found ≡ selected = some_inj found selected (ok-injective (sym q ∙ p)) in
          let good' : IsMatching pools selected = subst (IsMatching pools) one good in
          let names = match_candidates-Distinct pools selected p in
          f selected
            (λ (a, c) m. v.vacant a c (good'.owned a c (dict_get-Member a c selected names m)))
            (IsMatching-Distinct pools selected selected good' names names (λ x m. m)) h
      | inr (q, none_is) ↦ let bad = ok-injective (sym q ∙ p) in cc
    ]

reserve_cohort-Exclusive :
    (lower fresh : String → String) (task_id : String) (requested : List Assignment)
    (duration now : ℕ) (s : Store) {result : Store × Option (List ReservationRow)}
    → Exclusive s
    → Distinct (names_of requested)
    → reserve_cohort lower fresh task_id requested duration now s ≡ ok result
    → Exclusive result.0
unfolding reserve_cohort
reserve_cohort-Exclusive lower fresh task_id requested duration now s e d h =
    let swept = expire_owned now s in
    let current =
      hold_each (select (is_requested task_id (names_of requested)) swept.reservations) [] in
    let (pools, p, h1) =
      >>=-eq-ok (pools_for lower swept.health (occupied_accounts swept) now current requested) _
        h in
    let v =
      pools_for-AreVacant lower swept.health (occupied_accounts swept) now current requested pools d
        p in
    let e' = expire_owned-Exclusive now s e in
    on_matching-Exclusive swept pools
      (commit_cohort fresh task_id requested now (now + duration) swept current)
      (match_candidates pools) e'
      (record { vacant = v.vacant; requested = λ a m. m; once = v.once }) refl
      (λ selected vacant once k.
        commit_cohort-Exclusive fresh task_id requested now (now + duration) swept current selected
          e' vacant once k)
      h1

pub normalize_assignments-Distinct :
    (assignments : Option Assignments) (shared : Option (List AccountCandidate))
    (agent_ids : Option (List String)) (requested : List Assignment)
    → normalize_assignments assignments shared agent_ids ≡ ok requested
    → Distinct (names_of requested)
unfolding normalize_assignments
normalize_assignments-Distinct assignments shared agent_ids requested h =
    let (source, p, h1) = >>=-eq-ok (source_of assignments agent_ids) _ h in
    let (normalized, q, h2) = >>=-eq-ok (normalized_source source shared) _ h1 in
    let (u, r, h3) = >>=-eq-ok (check_agents [] normalized) _ h2 in
    subst (λ x. Distinct (names_of x)) (ok-injective h3) (check_agents-Distinct [] normalized r).0

with_term-eq-ok :
    {A : Type 0} (term : Option ℕ) (f : ℕ → A) {x : A}
    → with_term term f ≡ ok x
    → (duration : ℕ) × (f duration ≡ x)
with_term-eq-ok none f h = cc
with_term-eq-ok (some duration) f h = (duration, ok-injective h)

pub reserve_many-Exclusive :
    (lower fresh : String → String) (task_id : String) (assignments : Option Assignments)
    (shared : Option (List AccountCandidate)) (ttl : Option ℕ) (agent_ids : Option (List String))
    (ttl_seconds lease_ttl_seconds : Option ℕ) (now : ℕ) (s : Store)
    {result : Store × Option (List ReservationRow)}
    → Exclusive s
    → reserve_many lower fresh task_id assignments shared ttl agent_ids ttl_seconds
        lease_ttl_seconds now s
      ≡ ok result
    → Exclusive result.0
unfolding reserve_many
reserve_many-Exclusive lower fresh task_id assignments shared ttl agent_ids ttl_seconds
      lease_ttl_seconds now s e h =
    let (u, p, h1) = >>=-eq-ok (raise_if (is_blank task_id) value_error) _ h in
    let (term, q, h2) = >>=-eq-ok (resolve_ttl ttl ttl_seconds lease_ttl_seconds true) _ h1 in
    let (requested, r, h3) = >>=-eq-ok (normalize_assignments assignments shared agent_ids) _ h2 in
    let (cohort, t, h4) =
      >>=-eq-ok
        (with_term term (λ duration. reserve_cohort lower fresh task_id requested duration now s)) _
        h3 in
    let (duration, w) = with_term-eq-ok term _ t in
    reserve_cohort-Exclusive lower fresh task_id requested duration now s e
      (normalize_assignments-Distinct assignments shared agent_ids requested r) (w ∙ h4)
