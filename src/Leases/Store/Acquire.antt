-- ===== src/Leases/Store/Acquire.antt =====
-- What `acquire` grants, and when it grants nothing.
use claude_router.Prelude.{
  All-Member, List, Member, Member-sorted_by, Option-cases, Sorted, String, [], ap, arith, false,
  find, find-Member, find-Sorted, find-none-All, inl, inr, is_in, ltb, none, not, ok, refl, some,
  sorted_by, sorted_by-Member, sorted_by-Sorted, sym, true, ℕ, ◌&&◌, ◌∙◌, ◌≡◌, ◌≤◌, ◌⊎◌,
}
use claude_router.Leases.{AccountCandidate, Key, has_key}
use claude_router.Leases.Store.{
  Store, ranks_before, is_free, acquire, expire_owned, insert_lease, new_lease, occupied_accounts,
  eligible_candidates, grant,
}
use claude_router.Leases.Store.Ranking.{
  IsFit, Collected, StandsFor, IsNamed, eligible_candidates-Collected,
}

abbrev NoBusier : AccountCandidate → AccountCandidate → Type 0
NoBusier c d = c.active_requests ≤ d.active_requests

ranked-Sorted : (v : List AccountCandidate) → Sorted NoBusier (sorted_by ranks_before v)
ranked-Sorted =
    sorted_by-Sorted NoBusier ranks_before (λ x y z p q. omega arith) (λ x y e. ground arith)
      (λ x y e. ground arith)

is_free-StandsFor :
    (excluded : List String) (occupied : List Key) (d c : AccountCandidate)
    → StandsFor d c
    → is_free excluded occupied d ≡ is_free excluded occupied c
is_free-StandsFor excluded occupied d c (p, q) =
    ap (λ (k : Key). not (is_in k.1 excluded) && not (has_key k occupied)) p

-- The choice of `acquire` among the ranked candidates.
first_free :
    (lower : String → String) (s : Store) (now : ℕ) (excluded : List String) (occupied : List Key)
    (cs v : List AccountCandidate)
    → Collected lower s.health [] now cs [] v
    → ((c : AccountCandidate) × (find (is_free excluded occupied) (sorted_by ranks_before v)
          ≡ some c)
        × Member c cs
        × IsFit lower s.health [] now c
        × (is_free excluded occupied c ≡ true)
        × ((d : AccountCandidate)
            → Member d cs
            → IsFit lower s.health [] now d
            → is_free excluded occupied d ≡ true
            → c.active_requests ≤ d.active_requests))
      ⊎ ((find (is_free excluded occupied) (sorted_by ranks_before v) ≡ none)
          × ((d : AccountCandidate)
              → Member d cs
              → IsFit lower s.health [] now d
              → is_free excluded occupied d ≡ false))
first_free lower s now excluded occupied cs v k =
    let free = is_free excluded occupied in
    let ranked = sorted_by ranks_before v in
    elim (Option-cases (find free ranked)) [
      | inl n ↦ inr (
        n,
        λ d m f.
            let (x, l, st) = k.takes d m f in
            sym (is_free-StandsFor excluded occupied x d st)
            ∙ All-Member (λ y. free y ≡ false) (find-none-All free ranked n)
                (sorted_by-Member ranks_before x v l),
      )
      | inr (c, e) ↦
          let (m, t) = find-Member free ranked e in
          let taken : Member c cs × IsFit lower s.health [] now c =
            elim (k.origin c (Member-sorted_by ranks_before c v m)) [
              | inl l ↦ elim l [ ]
              | inr h ↦ h
            ] in
          inl (
            c,
            e,
            taken.0,
            taken.1,
            t,
            λ d m' f g.
                let (x, l', st) = k.takes d m' f in
                let le =
                  find-Sorted NoBusier free ranked (λ z. omega arith) (ranked-Sorted v) e
                    (sorted_by-Member ranks_before x v l')
                    (is_free-StandsFor excluded occupied x d st ∙ g) in
                omega (arith, le, st.1),
          )
    ]

acquire-grant :
    (lower : String → String) (lease_id : String) (cs : List AccountCandidate) (owner_id : String)
    (ttl : ℕ) (excluded : List String) (now : ℕ) (s : Store) (ranked : List AccountCandidate)
    → ltb ttl 1 ≡ false
    → eligible_candidates lower s.health [] now cs ≡ ok ranked
    → acquire lower lease_id cs owner_id ttl excluded now s
      ≡ ok (
          grant lease_id owner_id now ttl
            (expire_owned now s)
            (find (is_free excluded (occupied_accounts (expire_owned now s))) ranked))
unfolding acquire expire_owned
acquire-grant lower lease_id cs owner_id ttl excluded now s ranked positive r =
    rw (positive, r) refl

-- For a positive term and candidates that name their provider and account, `acquire` returns: either
-- it leases a fit candidate that is not excluded and whose account nobody holds, one no busier than any
-- other such candidate, until `now` plus the term; or it leases nothing, and each fit candidate is
-- excluded or held. Fit is a candidate that is enabled, past its cooldown and not barred by its health
-- state, nor by the last health event of its account. Leases and reservations that have run out are
-- closed in both cases.
pub acquire_lem :
    (lower : String → String) (lease_id : String) (cs : List AccountCandidate) (owner_id : String)
    (ttl : ℕ) (excluded : List String) (now : ℕ) (s : Store)
    → ltb ttl 1 ≡ false
    → ((c : AccountCandidate) → Member c cs → IsNamed lower s.health [] now c)
    → let swept = expire_owned now s in
      let free = is_free excluded (occupied_accounts swept) in
      let result = acquire lower lease_id cs owner_id ttl excluded now s in
      ((c : AccountCandidate) × (result
          ≡ ok (
            insert_lease (new_lease lease_id c owner_id now ttl) swept,
            some (new_lease lease_id c owner_id now ttl),
          ))
        × Member c cs
        × IsFit lower s.health [] now c
        × (free c ≡ true)
        × ((d : AccountCandidate)
            → Member d cs
            → IsFit lower s.health [] now d
            → free d ≡ true
            → c.active_requests ≤ d.active_requests))
      ⊎ ((result ≡ ok (swept, none))
          × ((d : AccountCandidate) → Member d cs → IsFit lower s.health [] now d → free d ≡ false))
acquire_lem lower lease_id cs owner_id ttl excluded now s positive named =
    let swept = expire_owned now s in
    let (v, r, k) = eligible_candidates-Collected lower s.health [] now cs named in
    let granted =
      acquire-grant lower lease_id cs owner_id ttl excluded now s (sorted_by ranks_before v)
        positive r in
    elim (first_free lower s now excluded (occupied_accounts swept) cs v k) [
      | inl (c, e, l, fit, t, least) ↦
          inl (
            c,
            granted ∙ ap (λ o. ok (grant lease_id owner_id now ttl swept o)) e,
            l,
            fit,
            t,
            least,
          )
      | inr (e, held) ↦
          inr (granted ∙ ap (λ o. ok (grant lease_id owner_id now ttl swept o)) e, held)
    ]
