-- ===== src/Scheduler/Dag/Ends.antt =====
-- The fuel of the search, and the search on a graph whose names are numbered.
use claude_router.Prelude.{
  ==→≡, All, All-map, Bool-cases, List, Member, Result, Result-cases, String, [], any, ap, arith,
  err, false, has_repeats, here, inl, inr, is_in, length, ok, pigeonhole, refl, suc, there, true,
  zero, ℕ, ◌+◌, ◌<◌, ◌==◌, ◌>>=◌, ◌∙◌, ◌∷◌, ◌≡◌, ◌≢◌, ◌⊎◌, nat_eq, string_eq, option_eq,
}
use claude_router.Scheduler.Dag.{Error, cycle, visit_each, visit}

abbrev pub Search : Type 0
Search = Result Error (List String)

-- The search came to an answer.
abbrev pub Ends : Search → Type 0
Ends r = ((later : List String) × (r ≡ ok later)) ⊎ (r ≡ err cycle)

pub visit_each-Ends :
    (v : String → List String → Search) (ds visited : List String)
    → ((d : String) → Member d ds → (seen : List String) → Ends (v d seen))
    → Ends (visit_each v ds visited)
unfolding visit_each
visit_each-Ends v [] visited f = inl (visited, refl)
visit_each-Ends v (d ∷ ds) visited f = elim (f d here visited) [
  | inl (later, e) ↦ rw e (visit_each-Ends v ds later (λ x m. f x (there m)))
  | inr e ↦ rw e (inr refl)
]

module _ (deps : String → List String) (names : List String)
    (closed : (s d : String)
      → is_in s names ≡ true
      → Member d (deps s)
      → is_in d names ≡ true) where
  pub visit-Ends :
      (fuel : ℕ) (visiting : List String) (id : String) (visited : List String)
      → length names < fuel + length visiting
      → has_repeats visiting ≡ false
      → All (λ z. is_in z names ≡ true) visiting
      → is_in id names ≡ true
      → Ends (visit deps fuel visiting id visited)
  unfolding visit
  visit-Ends zero visiting id visited enough once inside known =
      absurd (omega (arith, pigeonhole visiting names once inside, enough))
  visit-Ends (suc fuel) visiting id visited enough once inside known =
      elim (Bool-cases (is_in id visiting)) [
        | inl c ↦ rw c (inr refl)
        | inr c ↦ elim (Bool-cases (is_in id visited)) [
          | inl v ↦ rw c (rw v (inl (visited, refl)))
          | inr v ↦
              let once' : has_repeats (id ∷ visiting) ≡ false = unfold has_repeats in rw c once in
              let below =
                visit_each-Ends (visit deps fuel (id ∷ visiting)) (deps id) visited (λ d m seen.
                  visit-Ends fuel (id ∷ visiting) d seen (omega (arith, enough)) once'
                    (known, inside) (closed id d known m)) in
              rw c (
                rw v (elim below [
                  | inl (later, e) ↦ inl (id ∷ later, rw e refl)
                  | inr e ↦ inr (rw e refl)
                ]))
        ]
      ]

pub visit_each_no_cycle :
    (v : String → List String → Search) (ds visited : List String)
    → ((d : String) → Member d ds → (seen : List String) → v d seen ≢ err cycle)
    → visit_each v ds visited ≢ err cycle
unfolding visit_each
visit_each_no_cycle v [] visited f h = cc
visit_each_no_cycle v (d ∷ ds) visited f h = elim (Result-cases (v d visited)) [
  | inl (later, e) ↦ visit_each_no_cycle v ds later (λ x m. f x (there m)) (rw e at h)
  | inr (raised, e) ↦
      let same_error : err raised ≡ err cycle = rw e at h in f d here visited (e ∙ same_error)
]

-- `r` puts what is still to be visited below every name on the path.
absent_above :
    (r : String → ℕ) (id : String) (visiting : List String)
    → All (λ z. r id < r z) visiting
    → is_in id visiting ≡ false
unfolding is_in any
absent_above r id [] h = refl
absent_above r id (z ∷ zs) (lt, h) = elim (Bool-cases (z == id)) [
  | inl e ↦ let p = ap r (==→≡ z id e) in absurd (omega (arith, p, lt))
  | inr e ↦ rw e (absent_above r id zs h)
]

module _ (deps : String → List String) (names : List String) (r : String → ℕ)
    (falls : (s d : String)
      → is_in s names ≡ true
      → Member d (deps s)
      → (is_in d names ≡ true) × (r d < r s)) where
  pub visit_no_cycle :
      (fuel : ℕ) (visiting : List String) (id : String) (visited : List String)
      → All (λ z. r id < r z) visiting
      → is_in id names ≡ true
      → visit deps fuel visiting id visited ≢ err cycle
  unfolding visit
  visit_no_cycle zero visiting id visited above known h = cc
  visit_no_cycle (suc fuel) visiting id visited above known h =
      let below =
        visit_each_no_cycle (visit deps fuel (id ∷ visiting)) (deps id) visited (λ d m seen.
          visit_no_cycle fuel (id ∷ visiting) d seen
            (
              (falls id d known m).1,
              All-map (λ z. r id < r z) (λ z. r d < r z) visiting
                  (λ z lt. omega (arith, (falls id d known m).1, lt)) above,
            )
            (falls id d known m).0) in
      elim (Bool-cases (is_in id visited)) [
        | inl v ↦
            let bad : ok visited ≡ err cycle =
              rw v at (rw (absent_above r id visiting above) at h) in
            cc
        | inr v ↦
            let run : (visit_each (visit deps fuel (id ∷ visiting)) (deps id) visited >>= λ later.
            ok (id ∷ later))
                ≡ err cycle =
              rw v at (rw (absent_above r id visiting above) at h) in
            elim (Result-cases (visit_each (visit deps fuel (id ∷ visiting)) (deps id) visited)) [
              | inl (later, e) ↦ let bad : ok (id ∷ later) ≡ err cycle = rw e at run in cc
              | inr (raised, e) ↦
                  let same_error : err raised ≡ err cycle = rw e at run in below (e ∙ same_error)
            ]
      ]
