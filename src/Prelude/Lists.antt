-- ===== src/Prelude/Lists.antt =====
-- Lists over the native numbers, tables of rows, and predicates on lists by recursion.
use Prim.Native.Nat.{ℕ, zero, suc, ◌+◌}
use mathlib.Core.Path.{◌≡◌, refl, sym, subst}
use mathlib.Core.Logic.{◌⊎◌, inl, inr}
use mathlib.Core.Bool.{Bool, true, false, ◌&&◌, ◌||◌}
use mathlib.Core.Option.{Option, none, some}
use mathlib.Core.List.{List, [], ◌∷◌, ◌++◌, map}
use native.Mathlib.Omega.{arith}
use claude_router.Prelude.Tests.{if◌then◌else◌, Bool-cases, or-false}

module _ {ℓ} {A : Type ℓ} where
  abbrev pub length : List A → ℕ
  length [] = 0
  length (x ∷ xs) = suc (length xs)

  abbrev pub drop : ℕ → List A → List A
  drop zero xs = xs
  drop (suc n) [] = []
  drop (suc n) (x ∷ xs) = drop n xs

  abbrev pub take : ℕ → List A → List A
  take zero xs = []
  take (suc n) [] = []
  take (suc n) (x ∷ xs) = x ∷ take n xs

  -- `any(p(x) for x in xs)`
  unfoldable pub any : (A → Bool) → List A → Bool
  any p [] = false
  any p (x ∷ xs) = p x || any p xs

  -- `all(p(x) for x in xs)`
  unfoldable pub all : (A → Bool) → List A → Bool
  all p [] = true
  all p (x ∷ xs) = p x && all p xs

  -- `[x for x in xs if p(x)]`
  unfoldable pub select : (A → Bool) → List A → List A
  select p [] = []
  select p (x ∷ xs) = let rest = select p xs in if p x then x ∷ rest else rest

  -- the first row that passes the test
  unfoldable pub find : (A → Bool) → List A → Option A
  find p [] = none
  find p (x ∷ xs) = if p x then some x else find p xs

  -- `UPDATE … SET … WHERE`
  unfoldable pub update_where : (A → Bool) → (A → A) → List A → List A
  update_where p f [] = []
  update_where p f (x ∷ xs) = (if p x then f x else x) ∷ update_where p f xs

  -- how many rows pass the test
  unfoldable pub count : (A → Bool) → List A → ℕ
  count p [] = 0
  count p (x ∷ xs) = let rest = count p xs in if p x then suc rest else rest

  abbrev pub All {κ} : (A → Type κ) → List A → Type κ
  All P [] = Unit
  All P (x ∷ xs) = P x × All P xs

  -- `x` stands in the list.
  pub data Member (x : A) : List A → Type ℓ where
    here : {xs : List A} → Member x (x ∷ xs)
    there : {y : A} {xs : List A} → Member x xs → Member x (y ∷ xs)

module _ {ℓ} {A : Type ℓ} where
  pub length-append : (xs ys : List A) → length (xs ++ ys) ≡ length xs + length ys
  length-append [] ys = omega arith
  length-append (x ∷ xs) ys = omega (arith, length-append xs ys)

  pub All-Member {κ} : (P : A → Type κ) {x : A} {xs : List A} → All P xs → Member x xs → P x
  All-Member P h here = h.0
  All-Member P h (there m) = All-Member P h.1 m

  pub All-append {κ} : (P : A → Type κ) (xs ys : List A) → All P xs → All P ys → All P (xs ++ ys)
  All-append P [] ys h k = k
  All-append P (x ∷ xs) ys h k = (h.0, All-append P xs ys h.1 k)

  pub All-map {κ μ} :
      (P : A → Type κ) (Q : A → Type μ) (xs : List A) → ((x : A) → P x → Q x) → All P xs → All Q xs
  All-map P Q [] f h = tt
  All-map P Q (x ∷ xs) f h = (f x h.0, All-map P Q xs f h.1)

  pub All-of_Member {κ} : (P : A → Type κ) (xs : List A) → ((x : A) → Member x xs → P x) → All P xs
  All-of_Member P [] f = tt
  All-of_Member P (x ∷ xs) f = (f x here, All-of_Member P xs (λ y m. f y (there m)))

  pub find-Member :
      (p : A → Bool) (xs : List A) {x : A} → find p xs ≡ some x → Member x xs × (p x ≡ true)
  unfolding find
  find-Member p [] h = cc
  find-Member p (y ∷ ys) {x = x} h = elim (Bool-cases (p y)) [
    | inl e ↦
        let same : y ≡ x = ground arith in (subst (λ z. Member z (y ∷ ys)) same here, rw (← same) e)
    | inr e ↦ let (m, q) = find-Member p ys (rw e at h) in (there m, q)
  ]

  pub find-none-All : (p : A → Bool) (xs : List A) → find p xs ≡ none → All (λ x. p x ≡ false) xs
  unfolding find
  find-none-All p [] h = tt
  find-none-All p (x ∷ xs) h = elim (Bool-cases (p x)) [
    | inl e ↦ ground arith
    | inr e ↦ (e, find-none-All p xs (rw e at h))
  ]

  pub select-All : (p : A → Bool) (xs : List A) → All (λ x. p x ≡ true) (select p xs)
  unfolding select
  select-All p [] = tt
  select-All p (x ∷ xs) = elim (Bool-cases (p x)) [
    | inl e ↦ rw e (e, select-All p xs)
    | inr e ↦ rw e (select-All p xs)
  ]

  pub Member-select :
      (p : A → Bool) {x : A} {xs : List A} → Member x xs → p x ≡ true → Member x (select p xs)
  unfolding select
  Member-select p {x = x} here e = rw e here
  Member-select p (there {y} {xs} m) e = elim (Bool-cases (p y)) [
    | inl q ↦ rw q (there (Member-select p m e))
    | inr q ↦ rw q (Member-select p m e)
  ]

  pub All-select {κ} :
      (P : A → Type κ) (p : A → Bool) (xs : List A) → All P xs → All P (select p xs)
  unfolding select
  All-select P p [] h = tt
  All-select P p (x ∷ xs) h = elim (Bool-cases (p x)) [
    | inl e ↦ rw e (h.0, All-select P p xs h.1)
    | inr e ↦ rw e (All-select P p xs h.1)
  ]

  select-Member_cons :
      (p : A → Bool) (y : A) (zs ys : List A)
      → ((x : A) → Member x zs → Member x ys × (p x ≡ true))
      → p y ≡ true
      → {x : A} → Member x (y ∷ zs)
      → Member x (y ∷ ys) × (p x ≡ true)
  select-Member_cons p y zs ys rest e here = (here, e)
  select-Member_cons p y zs ys rest e {x} (there m) = let (k, q) = rest x m in (there k, q)

  pub select-Member :
      (p : A → Bool) (xs : List A) (x : A) → Member x (select p xs) → Member x xs × (p x ≡ true)
  unfolding select
  select-Member p [] x m = elim m [ ]
  select-Member p (y ∷ ys) x m = elim (Bool-cases (p y)) [
    | inl e ↦ select-Member_cons p y (select p ys) ys (select-Member p ys) e (rw e at m)
    | inr e ↦ let (k, q) = select-Member p ys x (rw e at m) in (there k, q)
  ]

  pub Member-update :
      (p : A → Bool) (f : A → A) {x : A} {xs : List A}
      → Member x xs
      → p x ≡ false
      → Member x (update_where p f xs)
  unfolding update_where
  Member-update p f here e = rw e here
  Member-update p f (there m) e = there (Member-update p f m e)

  pub Member-updated :
      (p : A → Bool) (f : A → A) {x : A} {xs : List A}
      → Member x xs
      → p x ≡ true
      → Member (f x) (update_where p f xs)
  unfolding update_where
  Member-updated p f here e = rw e here
  Member-updated p f (there m) e = there (Member-updated p f m e)

  pub map-update_where {κ} :
      {B : Type κ} (k : A → B) (p : A → Bool) (f : A → A) (xs : List A)
      → ((x : A) → k (f x) ≡ k x)
      → map k (update_where p f xs) ≡ map k xs
  unfolding update_where
  map-update_where k p f [] h = refl
  map-update_where k p f (x ∷ xs) h = elim (Bool-cases (p x)) [
    | inl e ↦ rw (e, h x, map-update_where k p f xs h) refl
    | inr e ↦ rw (e, map-update_where k p f xs h) refl
  ]

  pub any-false-Member :
      (p : A → Bool) {x : A} {xs : List A} → Member x xs → any p xs ≡ false → p x ≡ false
  unfolding any
  any-false-Member p {x} (here {xs}) h = (or-false (p x) (any p xs) h).0
  any-false-Member p (there {y} {xs} m) h = any-false-Member p m (or-false (p y) (any p xs) h).1

  pub any-false_of_Member :
      (p : A → Bool) (xs : List A) → ((x : A) → Member x xs → p x ≡ false) → any p xs ≡ false
  unfolding any
  any-false_of_Member p [] f = refl
  any-false_of_Member p (x ∷ xs) f =
      let e = f x here in let rest = any-false_of_Member p xs (λ y m. f y (there m)) in ground arith

  pub Member-cons : {x y : A} {xs : List A} → Member x (y ∷ xs) → (x ≡ y) ⊎ Member x xs
  Member-cons here = inl refl
  Member-cons (there m) = inr m

  pub Member-append :
      (xs : List A) {x : A} {ys : List A} → Member x (xs ++ ys) → Member x xs ⊎ Member x ys
  Member-append [] m = inr m
  Member-append (z ∷ zs) here = inl here
  Member-append (z ∷ zs) (there m) = elim (Member-append zs m) [
    | inl k ↦ inl (there k)
    | inr k ↦ inr k
  ]

  pub Member-append_left : {x : A} {xs : List A} (ys : List A) → Member x xs → Member x (xs ++ ys)
  Member-append_left ys here = here
  Member-append_left ys (there m) = there (Member-append_left ys m)

  pub Member-append_right : {x : A} (xs : List A) {ys : List A} → Member x ys → Member x (xs ++ ys)
  Member-append_right [] m = m
  Member-append_right (z ∷ zs) m = there (Member-append_right zs m)

  pub any-true_of_Member :
      (p : A → Bool) {x : A} {xs : List A} → Member x xs → p x ≡ true → any p xs ≡ true
  unfolding any
  any-true_of_Member p here e = rw e refl
  any-true_of_Member p (there {y} {xs} m) e = let later = any-true_of_Member p m e in ground arith

  pub any-true-Member :
      (p : A → Bool) (xs : List A) → any p xs ≡ true → (x : A) × Member x xs × (p x ≡ true)
  unfolding any
  any-true-Member p [] h = cc
  any-true-Member p (x ∷ xs) h = elim (Bool-cases (p x)) [
    | inl e ↦ (x, here, e)
    | inr e ↦ let (y, m, q) = any-true-Member p xs (rw e at h) in (y, there m, q)
  ]

module _ {ℓ κ} {A : Type ℓ} {B : Type κ} where
  pub Member-map : (f : A → B) {x : A} {xs : List A} → Member x xs → Member (f x) (map f xs)
  Member-map f here = here
  Member-map f (there m) = there (Member-map f m)

  pub map-Member :
      (f : A → B) (y : B) (xs : List A) → Member y (map f xs) → (x : A) × Member x xs × (f x ≡ y)
  map-Member f y [] m = elim m [ ]
  map-Member f y (x ∷ xs) m = elim (Member-cons m) [
    | inl p ↦ (x, here, sym p)
    | inr n ↦ let (z, l, p) = map-Member f y xs n in (z, there l, p)
  ]
