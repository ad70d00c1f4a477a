-- ===== src/Prelude/Sorting.antt =====
-- Python's stable `sorted`, by insertion. `before x y` says that the key of `x` is below that of `y`.
use mathlib.Core.Path.{◌≡◌, sym, ap, ◌∙◌}
use mathlib.Core.Option.{some}
use mathlib.Core.Logic.{◌⊎◌, inl, inr}
use mathlib.Core.Bool.{Bool, true, false}
use mathlib.Core.List.{List, [], ◌∷◌, ◌++◌}
use Prim.Native.Nat.{ℕ, zero, suc, ◌≤◌}
use native.Mathlib.Omega.{arith}
use claude_router.Prelude.Tests.{some_inj, if◌then◌else◌, Bool-cases}
use claude_router.Prelude.Pigeonhole.{Distinct}
use claude_router.Prelude.Lists.{
  find, All-append, All, All-map, All-Member, length, take, Member, Member-cons, here, there,
}

module _ {ℓ} {A : Type ℓ} where
  -- An element goes in front of the first one that is not below it.
  unfoldable pub insert_by : (A → A → Bool) → A → List A → List A
  insert_by before x [] = x ∷ []
  insert_by before x (y ∷ ys) =
      let rest = insert_by before x ys in if before y x then y ∷ rest else x ∷ y ∷ ys

  unfoldable pub sorted_by : (A → A → Bool) → List A → List A
  unfolding insert_by
  sorted_by before [] = []
  sorted_by before (x ∷ xs) = insert_by before x (sorted_by before xs)

  -- Each element is related to all that stand behind it.
  abbrev pub Sorted {κ} : (A → A → Type κ) → List A → Type κ
  Sorted R [] = Unit
  Sorted R (x ∷ xs) = All (R x) xs × Sorted R xs

  pub Member-insert_by :
      (before : A → A → Bool) (x y : A) (ys : List A)
      → Member y (insert_by before x ys)
      → (y ≡ x) ⊎ Member y ys
  unfolding insert_by
  Member-insert_by before x y [] m = Member-cons m
  Member-insert_by before x y (z ∷ zs) m = elim (Bool-cases (before z x)) [
    | inl e ↦ elim (Member-cons (rw e at m)) [
      | inl p ↦ inr (rw p here)
      | inr k ↦ elim (Member-insert_by before x y zs k) [ inl p ↦ inl p | inr l ↦ inr (there l) ]
    ]
    | inr e ↦ Member-cons (rw e at m)
  ]

  pub Member-sorted_by :
      (before : A → A → Bool) (y : A) (xs : List A) → Member y (sorted_by before xs) → Member y xs
  unfolding sorted_by
  Member-sorted_by before y [] m = m
  Member-sorted_by before y (x ∷ xs) m =
      elim (Member-insert_by before x y (sorted_by before xs) m) [
        | inl p ↦ rw p here
        | inr k ↦ there (Member-sorted_by before y xs k)
      ]

  insert_by-here : (before : A → A → Bool) (x : A) (ys : List A) → Member x (insert_by before x ys)
  unfolding insert_by
  insert_by-here before x [] = here
  insert_by-here before x (z ∷ zs) = elim (Bool-cases (before z x)) [
    | inl e ↦ rw e (there (insert_by-here before x zs))
    | inr e ↦ rw e here
  ]

  insert_by-there :
      (before : A → A → Bool) (x y : A) (ys : List A)
      → Member y ys
      → Member y (insert_by before x ys)
  unfolding insert_by
  insert_by-there before x y [] m = elim m [ ]
  insert_by-there before x y (z ∷ zs) here = elim (Bool-cases (before y x)) [
    | inl e ↦ rw e here
    | inr e ↦ rw e (there here)
  ]
  insert_by-there before x y (z ∷ zs) (there m) = elim (Bool-cases (before z x)) [
    | inl e ↦ rw e (there (insert_by-there before x y zs m))
    | inr e ↦ rw e (there (there m))
  ]

  pub sorted_by-Member :
      (before : A → A → Bool) (y : A) (xs : List A) → Member y xs → Member y (sorted_by before xs)
  unfolding sorted_by
  sorted_by-Member before y [] m = elim m [ ]
  sorted_by-Member before y (x ∷ xs) here = insert_by-here before y (sorted_by before xs)
  sorted_by-Member before y (x ∷ xs) (there m) =
      insert_by-there before x y (sorted_by before xs) (sorted_by-Member before y xs m)

  insert_by-Distinct :
      (before : A → A → Bool) (x : A) (ys : List A)
      → (¬ Member x ys)
      → Distinct ys
      → Distinct (insert_by before x ys)
  unfolding insert_by
  insert_by-Distinct before x [] n d = (n, d)
  insert_by-Distinct before x (y ∷ ys) n (absent, d) = elim (Bool-cases (before y x)) [
    | inl e ↦ rw e (
      λ m. elim (Member-insert_by before x y ys m) [ inl p ↦ n (rw p here) | inr k ↦ absent k ],
      insert_by-Distinct before x ys (λ m. n (there m)) d,
    )
    | inr e ↦ rw e (n, (absent, d))
  ]

  pub sorted_by-Distinct :
      (before : A → A → Bool) (xs : List A) → Distinct xs → Distinct (sorted_by before xs)
  unfolding sorted_by
  sorted_by-Distinct before [] d = d
  sorted_by-Distinct before (x ∷ xs) (n, d) =
      insert_by-Distinct before x (sorted_by before xs) (λ m. n (Member-sorted_by before x xs m))
        (sorted_by-Distinct before xs d)

  All-insert_by {κ} :
      (P : A → Type κ) (before : A → A → Bool) (x : A) (ys : List A)
      → P x
      → All P ys
      → All P (insert_by before x ys)
  unfolding insert_by
  All-insert_by P before x [] p h = (p, tt)
  All-insert_by P before x (y ∷ ys) p (q, h) = elim (Bool-cases (before y x)) [
    | inl e ↦ rw e (q, All-insert_by P before x ys p h)
    | inr e ↦ rw e (p, (q, h))
  ]

  module _ {κ} (R : A → A → Type κ) (before : A → A → Bool)
      (trans : (x y z : A) → R x y → R y z → R x z)
      (if_before : (x y : A) → before x y ≡ true → R x y)
      (if_not : (x y : A) → before x y ≡ false → R y x) where
    insert_by-Sorted : (x : A) (ys : List A) → Sorted R ys → Sorted R (insert_by before x ys)
    unfolding insert_by
    insert_by-Sorted x [] s = (tt, tt)
    insert_by-Sorted x (y ∷ ys) (all_y, s) = elim (Bool-cases (before y x)) [
      | inl e ↦
          rw e (All-insert_by (R y) before x ys (if_before y x e) all_y, insert_by-Sorted x ys s)
      | inr e ↦ rw e (
        (if_not y x e, All-map (R y) (R x) ys (λ z r. trans x y z (if_not y x e) r) all_y),
        (all_y, s),
      )
    ]

    pub sorted_by-Sorted : (xs : List A) → Sorted R (sorted_by before xs)
    unfolding sorted_by
    sorted_by-Sorted [] = tt
    sorted_by-Sorted (x ∷ xs) = insert_by-Sorted x (sorted_by before xs) (sorted_by-Sorted xs)

  -- What is cut off a sorted list stands behind all that is kept.
  pub Sorted-take {κ} :
      (R : A → A → Type κ) (n : ℕ) (xs : List A)
      → Sorted R xs
      → {x : A} → Member x xs
      → Member x (take n xs) ⊎ All (λ y. R y x) (take n xs)
  Sorted-take R zero xs s m = inr tt
  Sorted-take R (suc n) [] s m = inr tt
  Sorted-take R (suc n) (y ∷ ys) s here = inl here
  Sorted-take R (suc n) (y ∷ ys) (first, s) (there m) = elim (Sorted-take R n ys s m) [
    | inl k ↦ inl (there k)
    | inr h ↦ inr (All-Member (R y) first m, h)
  ]

  pub length-take : (n : ℕ) (xs : List A) → length (take n xs) ≤ n
  length-take zero xs = omega arith
  length-take (suc n) [] = omega arith
  length-take (suc n) (x ∷ xs) = omega (arith, length-take n xs)

  pub Member-take : (n : ℕ) (xs : List A) {x : A} → Member x (take n xs) → Member x xs
  Member-take zero xs m = elim m [ ]
  Member-take (suc n) [] m = elim m [ ]
  Member-take (suc n) (x ∷ xs) here = here
  Member-take (suc n) (x ∷ xs) (there m) = there (Member-take n xs m)

  pub Sorted-append {κ} :
      (R : A → A → Type κ) (xs : List A) (y : A)
      → Sorted R xs
      → All (λ x. R x y) xs
      → Sorted R (xs ++ y ∷ [])
  Sorted-append R [] y s h = (tt, tt)
  Sorted-append R (x ∷ xs) y (all_x, s) (r, h) =
      (All-append (R x) xs (y ∷ []) all_x (r, tt), Sorted-append R xs y s h)

  -- The first element of a sorted list that passes stands before all that pass.
  pub find-Sorted {κ} :
      (R : A → A → Type κ) (p : A → Bool) (xs : List A) {x y : A}
      → ((z : A) → R z z)
      → Sorted R xs
      → find p xs ≡ some x
      → Member y xs
      → p y ≡ true
      → R x y
  unfolding find
  find-Sorted R p [] r s h m e = elim m [ ]
  find-Sorted R p (z ∷ zs) {x} {y} r (first, s) h m e = elim (Bool-cases (p z)) [
    | inl f ↦
        let q : z ≡ x = some_inj z x (rw f at h) in
        elim (Member-cons m) [
          | inl t ↦ rw (t, ← q) (r z)
          | inr k ↦ rw (← q) (All-Member (R z) first k)
        ]
    | inr f ↦ elim (Member-cons m) [
      | inl t ↦ let bad : true ≡ false = sym e ∙ ap p t ∙ f in cc
      | inr k ↦ find-Sorted R p zs r s (rw f at h) k e
    ]
  ]
