-- ===== src/Prelude/Names.antt =====
-- Sets of names as lists: membership, repetitions, and the pigeonhole principle.
use Prim.Native.Nat.{suc, ◌≤◌}
use Prim.Native.String.{String}
use mathlib.Core.Path.{◌≡◌, refl, ap, subst, ◌∙◌}
use mathlib.Core.Logic.{◌⊎◌, inl, inr}
use mathlib.Core.Bool.{Bool, true, false, ◌||◌}
use mathlib.Core.List.{List, [], ◌∷◌}
use native.Mathlib.Omega.{arith}
use claude_router.Prelude.Tests.{if◌then◌else◌, Bool-cases, or-false}
use claude_router.Prelude.Equality.{◌==◌, string_eq, ==_refl, ==→≡, ==_comm}
use claude_router.Prelude.Pigeonhole.{Distinct}
use claude_router.Prelude.Lists.{any, any-true-Member, length, All, Member, here, there}

-- `name in names`
unfoldable pub is_in : String → List String → Bool
unfolding any
is_in name names = any (λ n. n == name) names

-- `len(set(xs)) != len(xs)`
unfoldable pub has_repeats : List String → Bool
unfolding is_in
has_repeats [] = false
has_repeats (x ∷ xs) = is_in x xs || has_repeats xs

remove : String → List String → List String
remove x [] = []
remove x (y ∷ ys) = let rest = remove x ys in if y == x then ys else y ∷ rest

length-remove :
    (x : String) (ys : List String) → is_in x ys ≡ true → suc (length (remove x ys)) ≡ length ys
unfolding is_in any remove
length-remove x [] h = cc
length-remove x (y ∷ ys) h = elim (Bool-cases (y == x)) [
  | inl e ↦ rw e refl
  | inr e ↦ rw e (ap suc (length-remove x ys (rw e at h)))
]

is_in-remove :
    (x z : String) (ys : List String)
    → (z == x) ≡ false
    → is_in z ys ≡ true
    → is_in z (remove x ys) ≡ true
unfolding is_in any remove
is_in-remove x z [] d h = cc
is_in-remove x z (y ∷ ys) d h = elim (Bool-cases (y == x)) [
  | inl e ↦
      let other : (y == z) ≡ false = ap (λ w. w == z) (==→≡ y x e) ∙ ==_comm x z ∙ d in
      rw e (rw other at h)
  | inr e ↦ elim (Bool-cases (y == z)) [
    | inl f ↦ rw e (rw f refl)
    | inr f ↦ rw e (rw f (is_in-remove x z ys d (rw f at h)))
  ]
]

All-is_in-remove :
    (x : String) (xs ys : List String)
    → is_in x xs ≡ false
    → All (λ z. is_in z ys ≡ true) xs
    → All (λ z. is_in z (remove x ys) ≡ true) xs
unfolding is_in any
All-is_in-remove x [] ys absent h = tt
All-is_in-remove x (z ∷ xs) ys absent (m, h) =
    let (d, rest) = or-false (z == x) (is_in x xs) absent in
    (is_in-remove x z ys d m, All-is_in-remove x xs ys rest h)

-- Distinct names that all stand in `ys` are at most as many as `ys`.
pub pigeonhole :
    (xs ys : List String)
    → has_repeats xs ≡ false
    → All (λ z. is_in z ys ≡ true) xs
    → length xs ≤ length ys
unfolding has_repeats
pigeonhole [] ys d h = omega arith
pigeonhole (x ∷ xs) ys d (m, h) =
    let (absent, rest) = or-false (is_in x xs) (has_repeats xs) d in
    omega (
      arith,
      length-remove x ys m,
      pigeonhole xs (remove x ys) rest (All-is_in-remove x xs ys absent h),
    )

pub Member→is_in : {x : String} {xs : List String} → Member x xs → is_in x xs ≡ true
unfolding is_in any
Member→is_in {x} here = rw (==_refl x) refl
Member→is_in (there m) = ground (arith, Member→is_in m)

pub is_in-cons : (s x : String) (xs : List String) → is_in s xs ≡ true → is_in s (x ∷ xs) ≡ true
unfolding is_in any
is_in-cons s x xs h = ground arith

pub is_in_self : (x : String) (xs : List String) → is_in x (x ∷ xs) ≡ true
unfolding is_in any
is_in_self x xs = rw (==_refl x) refl

-- A name stands in the rest of the list, or only in front.
pub is_in-cases :
    (s x : String) (xs : List String)
    → is_in s (x ∷ xs) ≡ true
    → (is_in s xs ≡ true) ⊎ ((is_in s xs ≡ false) × (x ≡ s))
unfolding is_in any
is_in-cases s x xs h = elim (Bool-cases (is_in s xs)) [
  | inl m ↦ inl m
  | inr m ↦ inr (m, ==→≡ x s (elim (Bool-cases (x == s)) [ inl e ↦ e | inr e ↦ ground arith ]))
]

pub has_repeats-cons :
    (x : String) (xs : List String)
    → has_repeats (x ∷ xs) ≡ false
    → (is_in x xs ≡ false) × (has_repeats xs ≡ false)
unfolding has_repeats
has_repeats-cons x xs h = or-false (is_in x xs) (has_repeats xs) h

pub is_in-unfold : (s x : String) (xs : List String) → is_in s (x ∷ xs) ≡ (x == s || is_in s xs)
unfolding is_in any
is_in-unfold s x xs = refl

pub is_in-none : (s : String) → is_in s [] ≡ false
unfolding is_in any
is_in-none s = refl

pub has_repeats-Distinct : (xs : List String) → has_repeats xs ≡ false → Distinct xs
has_repeats-Distinct [] h = tt
has_repeats-Distinct (x ∷ xs) h =
    let (absent, rest) = has_repeats-cons x xs h in
    (λ m. let e = Member→is_in m in cc, has_repeats-Distinct xs rest)

pub is_in-Member : (x : String) (xs : List String) → is_in x xs ≡ true → Member x xs
unfolding is_in
is_in-Member x xs h =
    let (y, m, e) = any-true-Member (λ n. n == x) xs h in subst (λ z. Member z xs) (==→≡ y x e) m

pub Distinct-has_repeats : (xs : List String) → Distinct xs → has_repeats xs ≡ false
unfolding has_repeats
Distinct-has_repeats [] d = refl
Distinct-has_repeats (x ∷ xs) (absent, d) = elim (Bool-cases (is_in x xs)) [
  | inl e ↦ elim (absent (is_in-Member x xs e)) [ ]
  | inr e ↦ rw e (Distinct-has_repeats xs d)
]
