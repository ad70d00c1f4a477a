-- ===== src/Leases/Store/Ranking.antt =====
-- The ranked candidates: which ones `_eligible_candidates` returns.
use claude_router.Prelude.{
  Bool, Bool-cases, List, Member, Member-cons, Result-cases, String, [], and-true, arith, false,
  here, inl, inr, is_blank, ok, ok-injective, refl, sorted_by, subst, sym, there, true, ℕ, ◌&&◌,
  ◌||◌, ◌∙◌, ◌∷◌, ◌≡◌, ◌≤◌, ◌⊎◌,
}
use claude_router.Leases.{AccountCandidate, candidate_key, same_key, same_key→≡, Key, has_key}
use claude_router.Leases.Store.{
  note, less_busy, HealthEvent, candidate_locally_eligible, collect, current_health, is_healthy,
  eligible_candidates, ranks_before,
}

-- `d` is of the same account as `c`, and no busier.
abbrev pub StandsFor : AccountCandidate → AccountCandidate → Type 0
StandsFor d c = (candidate_key d ≡ candidate_key c) × (d.active_requests ≤ c.active_requests)

pub note-Member :
    (c d : AccountCandidate) (u : List AccountCandidate)
    → Member d (note c u)
    → (d ≡ c) ⊎ Member d u
unfolding note
note-Member c d [] m = Member-cons m
note-Member c d (e ∷ es) m = elim (Bool-cases (same_key (candidate_key e) (candidate_key c))) [
  | inl f ↦ elim (Bool-cases (less_busy c e)) [
    | inl g ↦ elim (Member-cons (rw (f, g) at m)) [ inl p ↦ inl p | inr k ↦ inr (there k) ]
    | inr g ↦ inr (rw (f, g) at m)
  ]
  | inr f ↦ elim (Member-cons (rw f at m)) [
    | inl p ↦ inr (rw p here)
    | inr k ↦ elim (note-Member c d es k) [ inl p ↦ inl p | inr l ↦ inr (there l) ]
  ]
]

busier : (c e : AccountCandidate) → less_busy c e ≡ false → e.active_requests ≤ c.active_requests
busier c e h = ground arith

idler : (c e : AccountCandidate) → less_busy c e ≡ true → c.active_requests ≤ e.active_requests
idler c e h = ground arith

note-StandsFor :
    (c : AccountCandidate) (u : List AccountCandidate)
    → (d : AccountCandidate) × Member d (note c u) × StandsFor d c
unfolding note
note-StandsFor c [] = (c, here, (refl, omega arith))
note-StandsFor c (e ∷ es) = elim (Bool-cases (same_key (candidate_key e) (candidate_key c))) [
  | inl f ↦ elim (Bool-cases (less_busy c e)) [
    | inl g ↦ (c, rw (f, g) here, (refl, omega arith))
    | inr g ↦ (e, rw (f, g) here, (same_key→≡ _ _ f, busier c e g))
  ]
  | inr f ↦ let (d, m, s) = note-StandsFor c es in (d, rw f (there m), s)
]

note_keeps :
    (c e : AccountCandidate) (u : List AccountCandidate)
    → Member e u
    → (d : AccountCandidate) × Member d (note c u) × StandsFor d e
unfolding note
note_keeps c e [] m = elim m [ ]
note_keeps c e (x ∷ xs) m = elim (Bool-cases (same_key (candidate_key x) (candidate_key c))) [
  | inl f ↦ elim (Bool-cases (less_busy c x)) [
    | inl g ↦ elim (Member-cons m) [
      | inl p ↦ (c, rw (f, g) here, rw p (sym (same_key→≡ _ _ f), idler c x g))
      | inr k ↦ (e, rw (f, g) (there k), (refl, omega arith))
    ]
    | inr g ↦ (e, rw (f, g) m, (refl, omega arith))
  ]
  | inr f ↦ elim (Member-cons m) [
    | inl p ↦ (x, rw f here, rw p (refl, omega arith))
    | inr k ↦ let (d, l, s) = note_keeps c e xs k in (d, rw f (there l), s)
  ]
]

module _ (lower : String → String) (health : List HealthEvent) (excluded : List Key) (now : ℕ) where
  -- A candidate that is not excluded, enabled and past its cooldown, with a health that allows its use.
  pub record IsFit (c : AccountCandidate) : Type 0 where
    pub included : has_key (candidate_key c) excluded ≡ false
    pub eligible : candidate_locally_eligible lower c now ≡ ok true
    pub healthy : is_healthy lower now (current_health health (candidate_key c)) ≡ true

  -- From `unique`, the loop over `cs` makes `v`.
  pub record Collected (cs unique v : List AccountCandidate) : Type 0 where
    pub origin : (d : AccountCandidate) → Member d v → Member d unique ⊎ (Member d cs × IsFit d)
    pub keeps :
        (e : AccountCandidate)
        → Member e unique
        → (d : AccountCandidate) × Member d v × StandsFor d e
    pub takes :
        (c : AccountCandidate)
        → Member c cs
        → IsFit c
        → (d : AccountCandidate) × Member d v × StandsFor d c

  passed_over :
      (c : AccountCandidate) (cs unique v : List AccountCandidate)
      → ¬ IsFit c
      → Collected cs unique v
      → Collected (c ∷ cs) unique v
  passed_over c cs unique v unfit k = record {
    origin = λ d m. elim (k.origin d m) [ inl l ↦ inl l | inr (l, f) ↦ inr (there l, f) ];
    keeps = k.keeps;
    takes = λ d m f. elim (Member-cons m) [
      | inl p ↦ elim (unfit (subst IsFit p f)) [ ]
      | inr l ↦ k.takes d l f
    ];
  }

  noted :
      (c : AccountCandidate) (cs unique v : List AccountCandidate)
      → IsFit c
      → Collected cs (note c unique) v
      → Collected (c ∷ cs) unique v
  noted c cs unique v fit k = record {
    origin = λ d m. elim (k.origin d m) [
      | inl l ↦ elim (note-Member c d unique l) [ inl p ↦ inr (rw p (here, fit)) | inr l' ↦ inl l' ]
      | inr (l, f) ↦ inr (there l, f)
    ];
    keeps = λ e m.
        let (d, l, (p, q)) = note_keeps c e unique m in
        let (x, l', (p', q')) = k.keeps d l in (x, l', (p' ∙ p, omega (arith, q, q')));
    takes = λ d m f. elim (Member-cons m) [
      | inl r ↦
          let (y, l, (p, q)) = note-StandsFor c unique in
          let (x, l', (p', q')) = k.keeps y l in rw r (x, l', (p' ∙ p, omega (arith, q, q')))
      | inr l ↦ k.takes d l f
    ];
  }

  -- Both fields of the key are there.
  abbrev pub IsNamed : AccountCandidate → Type 0
  IsNamed c = (is_blank c.account_id || is_blank c.provider) ≡ false

  decided :
      (c : AccountCandidate)
      → IsNamed c
      → (b : Bool) × (candidate_locally_eligible lower c now ≡ ok b)
  unfolding candidate_locally_eligible
  decided c n = elim (Result-cases (candidate_locally_eligible lower c now)) [
    | inl found ↦ found
    | inr (raised, e) ↦ let bad = rw (candidate_locally_eligible, n) at e in cc
  ]

  collect-Collected :
      (cs unique : List AccountCandidate)
      → ((c : AccountCandidate) → Member c cs → IsNamed c)
      → (v : List AccountCandidate) × (collect lower health excluded now cs unique ≡ ok v)
        × Collected cs unique v
  unfolding collect
  collect-Collected [] unique named = (
    unique,
    refl,
    record {
      origin = λ d m. inl m;
      keeps = λ e m. (e, m, (refl, omega arith));
      takes = λ c m f. elim m [ ];
    },
  )
  collect-Collected (c ∷ cs) unique named =
      let later = λ (d : AccountCandidate) (m : Member d cs). named d (there m) in
      elim (Bool-cases (has_key (candidate_key c) excluded)) [
        | inl x ↦
            let (v, r, k) = collect-Collected cs unique later in
            (v, rw x r, passed_over c cs unique v (λ f. let i = f.included in cc) k)
        | inr x ↦
            let (b, e) = decided c (named c here) in
            elim (Bool-cases
              (b && is_healthy lower now (current_health health (candidate_key c)))) [
                | inl t ↦
                    let (v, r, k) = collect-Collected cs (note c unique) later in
                    let (p, q) = and-true b _ t in
                    (
                      v,
                      rw (x, e, t) r,
                      noted c cs unique v
                          (record { included = x; eligible = rw p at e; healthy = q }) k,
                    )
                | inr t ↦
                    let (v, r, k) = collect-Collected cs unique later in
                    (
                      v,
                      rw (x, e, t) r,
                      passed_over c cs unique v
                          (λ f.
                            let p : b ≡ true = ok-injective (sym e ∙ f.eligible) in
                            let bad : true ≡ false = rw (p, f.healthy) at t in cc)
                          k,
                    )
              ]
      ]

  -- What `_eligible_candidates` returns, the least busy first.
  pub eligible_candidates-Collected :
      (cs : List AccountCandidate)
      → ((c : AccountCandidate) → Member c cs → IsNamed c)
      → (v : List AccountCandidate) × (eligible_candidates lower health excluded now cs
          ≡ ok (sorted_by ranks_before v))
        × Collected cs [] v
  unfolding eligible_candidates
  eligible_candidates-Collected cs named =
      let (v, r, k) = collect-Collected cs [] named in (v, rw r refl, k)
