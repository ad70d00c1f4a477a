-- ===== src/Scheduler/Dag/Search.antt =====
-- The nodes that a search of the graph has visited when it found no cycle.
use claude_router.Prelude.{
  >>=-eq-ok, All, All-Member, Bool-cases, List, Member, Result, String, [], any, arith, err,
  if◌then◌else◌, inl, inr, is_in, is_in-cases, is_in-cons, is_in_self, length, ok, subst, suc, sym,
  true, zero, ℕ, ≡→==, ◌<◌, ◌==◌, ◌>>=◌, ◌∷◌, ◌≡◌, ◌≤◌, nat_eq, string_eq, option_eq,
}
use claude_router.Scheduler.Dag.{Error, visit_each, visit, cycle}

-- Where the names stand, counted from the end: the last occurrence decides.
unfoldable pub rank : List String → String → ℕ
rank [] s = 0
rank (x ∷ xs) s =
    let below = rank xs s in if is_in s xs then below else if x == s then suc (length xs) else 0

rank-le : (xs : List String) (s : String) → rank xs s ≤ length xs
unfolding rank
rank-le [] s = omega arith
rank-le (x ∷ xs) s = ground (arith, rank-le xs s)

module _ (deps : String → List String) where
  -- Every name stands in front of the names that it depends on.
  abbrev pub Ordered : List String → Type 0
  Ordered [] = Unit
  Ordered (x ∷ xs) = All (λ d. is_in d xs ≡ true) (deps x) × Ordered xs

  abbrev pub Grows : List String → List String → Type 0
  Grows xs ys = (s : String) → is_in s xs ≡ true → is_in s ys ≡ true

  abbrev pub Sound : (String → List String → Result Error (List String)) → Type 0
  Sound v =
      (id : String) (visited later : List String)
      → v id visited ≡ ok later
      → Ordered visited
      → Ordered later × (is_in id later ≡ true) × Grows visited later

  pub visit_each-Sound :
      (v : String → List String → Result Error (List String))
      → Sound v
      → (ds visited later : List String) → visit_each v ds visited ≡ ok later
      → Ordered visited
      → Ordered later × All (λ d. is_in d later ≡ true) ds × Grows visited later
  unfolding visit_each
  visit_each-Sound v sound [] visited later h o =
      let e : visited ≡ later = cc in rw (← e) (o, tt, λ s m. m)
  visit_each-Sound v sound (d ∷ ds) visited later h o =
      let (next, h1, h2) = >>=-eq-ok (v d visited) _ h in
      let (o1, m, g) = sound d visited next h1 o in
      let (o2, ms, g2) = visit_each-Sound v sound ds next later h2 o1 in
      (o2, (g2 d m, ms), λ s k. g2 s (g s k))

  pub visit-Sound : (fuel : ℕ) (visiting : List String) → Sound (visit deps fuel visiting)
  unfolding visit
  visit-Sound zero visiting id visited later h o = cc
  visit-Sound (suc fuel) visiting id visited later h o = elim (Bool-cases (is_in id visiting)) [
    | inl c ↦ let bad : err cycle ≡ ok later = rw c at h in cc
    | inr c ↦ elim (Bool-cases (is_in id visited)) [
      | inl v ↦
          let e : visited ≡ later =
            let same_ok : ok visited ≡ ok later = rw v at (rw c at h) in cc in
          rw (← e) (o, v, λ s m. m)
      | inr v ↦
          let run : (visit_each (visit deps fuel (id ∷ visiting)) (deps id) visited >>= λ below.
          ok (id ∷ below))
              ≡ ok later =
            rw v at (rw c at h) in
          let (below, h1, h2) =
            >>=-eq-ok (visit_each (visit deps fuel (id ∷ visiting)) (deps id) visited) _ run in
          let (o1, ms, g) =
            visit_each-Sound (visit deps fuel (id ∷ visiting)) (visit-Sound fuel (id ∷ visiting))
              (deps id) visited below h1 o in
          let e : id ∷ below ≡ later = cc in
          rw (← e) ((ms, o1), is_in_self id below, λ s m. is_in-cons s id below (g s m))
    ]
  ]

  -- A visited name's dependencies are visited, and stand below it.
  pub Ordered-below :
      (xs : List String) (s d : String)
      → Ordered xs
      → is_in s xs ≡ true
      → Member d (deps s)
      → (is_in d xs ≡ true) × (rank xs d < rank xs s)
  unfolding rank
  Ordered-below [] s d o m k = absurd (unfold is_in any in cc)
  Ordered-below (x ∷ xs) s d (all_in, o) m k = elim (is_in-cases s x xs m) [
    | inl inside ↦
        let (i, lt) = Ordered-below xs s d o inside k in (is_in-cons d x xs i, rw i (rw inside lt))
    | inr (outside, e) ↦
        let i : is_in d xs ≡ true =
          All-Member (λ z. is_in z xs ≡ true) all_in (subst (λ z. Member d (deps z)) (sym e) k) in
        let r = rank-le xs d in
        (is_in-cons d x xs i, rw i (rw outside (rw (≡→== x s e) (omega arith))))
  ]
