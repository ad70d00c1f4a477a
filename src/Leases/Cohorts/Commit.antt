-- ===== src/Leases/Cohorts/Commit.antt =====
-- The end of `reserve_many`, once there is a matching.
use claude_router.Prelude.{
  Distinct, List, Member, Member-cons, Member-dict_get, String, [], dict_get-Member, dict_keys,
  here, inl, inr, leb, map, ok, refl, some, subst, sym, there, true, ℕ, ◌∷◌, ◌≡◌, ◌⊎◌,
}
use claude_router.Leases.Requests.{Assignment, names_of}
use claude_router.Leases.{AccountCandidate}
use claude_router.Leases.Store.{Store, ReservationRow}
use claude_router.Leases.Cohorts.{Held, gather, commit_cohort, insert_each}
use claude_router.Leases.Cohorts.Holding.{ids, Owns, AreOwned, Has, Outlasts, extend_each_lem}
use claude_router.Leases.Cohorts.Entry.{insert_each_lem}

-- The cohort: a live row of the tables for every agent, in the order of the request.
pub record IsCohort (task_id : String) (names : List String) (expires_at : ℕ) (t : Store)
    (rows : List ReservationRow) : Type 0 where
  pub order : map (λ (r : ReservationRow). r.agent_id) rows ≡ names
  pub own : (r : ReservationRow) → Member r rows → Owns task_id r.agent_id t r
  pub outlasts : (r : ReservationRow) → Member r rows → leb expires_at r.expires_at ≡ true

gather_lem :
    (task_id : String) (expires_at : ℕ) (t : Store) (held : Held) (names : List String)
    → AreOwned task_id t held
    → Outlasts expires_at [] held
    → ((a : String) → Member a names → Has a held)
    → (rows : List ReservationRow) × (gather held names ≡ ok rows)
      × IsCohort task_id names expires_at t rows
unfolding gather
gather_lem task_id expires_at t held [] own outlasts has =
    ([], refl, record { order = refl; own = λ r m. elim m [ ]; outlasts = λ r m. elim m [ ] })
gather_lem task_id expires_at t held (name ∷ names) own outlasts has =
    let (r, e) = has name here in
    let (rows, g, k) =
      gather_lem task_id expires_at t held names own outlasts (λ a m. has a (there m)) in
    let o = own name r e in
    (
      r ∷ rows,
      rw (e, g) refl,
      record {
        order = rw (o.agent, k.order) refl;
        own = λ q m. elim (Member-cons m) [
          | inl p ↦
              subst (λ x. Owns task_id x.agent_id t x) (sym p)
                (subst (λ y. Owns task_id y t r) (sym o.agent) o)
          | inr n ↦ k.own q n
        ];
        outlasts = λ q m. elim (Member-cons m) [
          | inl p ↦ elim (outlasts name r e) [ inl l ↦ rw p l | inr z ↦ elim z [ ] ]
          | inr n ↦ k.outlasts q n
        ];
      },
    )

pub commit_cohort_lem :
    (fresh : String → String) (task_id : String) (requested : List Assignment) (now expires_at : ℕ)
    (s : Store) (held : Held) (selected : List (String × AccountCandidate))
    → ((a b : String) → fresh a ≡ fresh b → a ≡ b)
    → Distinct (dict_keys selected)
    → ((a : String) → Member a (dict_keys selected) → ¬ Member (fresh a) (ids s.reservations))
    → Distinct (ids s.reservations)
    → Distinct (dict_keys held)
    → AreOwned task_id s held
    → ((a : String) → Member a (names_of requested) → Has a held ⊎ Member a (dict_keys selected))
    → (t : Store) × (rows : List ReservationRow) × (commit_cohort fresh task_id requested now
          expires_at s held selected
        ≡ ok (t, some rows))
      × IsCohort task_id (names_of requested) expires_at t rows
unfolding commit_cohort
commit_cohort_lem fresh task_id requested now expires_at s held selected apart once new d keys own
      covered =
    let (inserted, entries) = insert_each fresh task_id requested now expires_at selected s held in
    let i =
      insert_each_lem fresh task_id requested now expires_at apart selected s held once new d keys
        own in
    let (t, extended, e, x) =
      extend_each_lem task_id expires_at entries inserted entries i.identified i.keys
        (λ a r m. dict_get-Member a r entries i.keys m) i.own
        (λ a r h. inr (Member-dict_get a r entries h)) in
    let (rows, g, k) =
      gather_lem task_id expires_at t extended (names_of requested) x.own x.outlasts (λ a m.
        elim (covered a m) [
          | inl h ↦ x.keeps a (i.keeps a h)
          | inr l ↦ x.keeps a (i.covers a l)
        ]) in
    (t, rows, rw (e, g) refl, k)
