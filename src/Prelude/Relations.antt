-- ===== src/Prelude/Relations.antt =====
-- A table before and after statements that update rows and insert new ones.
use mathlib.Core.Path.{◌≡◌, ◌∙◌, refl, subst}
use mathlib.Core.Logic.{inl, inr}
use mathlib.Core.Bool.{Bool, true}
use mathlib.Core.Option.{some}
use mathlib.Core.List.{List, [], ◌∷◌, ◌++◌}
use native.Mathlib.Omega.{arith}
use claude_router.Prelude.Tests.{Bool-cases}
use claude_router.Prelude.Lists.{find, update_where, Member, here, there}

-- `R` relates each old row to its successor; rows may have been added at the end.
pub data Extends {ℓ κ} {A : Type ℓ} (R : A → A → Type κ) : List A → List A → Type (ℓ ⊔ κ) where
  added : (ys : List A) → Extends R [] ys
  kept : {x y : A} {xs ys : List A} → R x y → Extends R xs ys → Extends R (x ∷ xs) (y ∷ ys)

module _ {ℓ κ} {A : Type ℓ} (R : A → A → Type κ) where
  pub Extends-refl : ((x : A) → R x x) → (xs : List A) → Extends R xs xs
  Extends-refl r [] = added []
  Extends-refl r (x ∷ xs) = kept (r x) (Extends-refl r xs)

  pub Extends-append : ((x : A) → R x x) → (xs ys : List A) → Extends R xs (xs ++ ys)
  Extends-append r [] ys = added ys
  Extends-append r (x ∷ xs) ys = kept (r x) (Extends-append r xs ys)

  pub Extends-update :
      ((x : A) → R x x)
      → (p : A → Bool) (f : A → A) (xs : List A) → ((x : A) → Member x xs → p x ≡ true → R x (f x))
      → Extends R xs (update_where p f xs)
  unfolding update_where
  Extends-update r p f [] h = added []
  Extends-update r p f (x ∷ xs) h =
      let rest = Extends-update r p f xs (λ y m. h y (there m)) in
      elim (Bool-cases (p x)) [
        | inl e ↦ rw e (kept (h x here e) rest)
        | inr e ↦ rw e (kept (r x) rest)
      ]

  -- A row found by a test that `R` respects is found again, as its successor.
  pub Extends-find :
      (p : A → Bool)
      → ((x y : A) → R x y → p y ≡ p x)
      → {xs ys : List A} → Extends R xs ys
      → {x : A} → find p xs ≡ some x
      → (y : A) × (find p ys ≡ some y) × R x y
  unfolding find
  Extends-find p respects (added ys) h = cc
  Extends-find p respects (kept {x = a} {y = b} {ys} r e) {x} h = elim (Bool-cases (p a)) [
    | inl t ↦
        let same : a ≡ x = ground arith in
        (b, rw (respects a b r ∙ t) refl, subst (λ z. R z b) same r)
    | inr t ↦
        let (y, found, s) = Extends-find p respects e (rw t at h) in
        (y, rw (respects a b r ∙ t) found, s)
  ]

-- The reflexive and transitive closure of a step on rows.
pub data Steps {ℓ κ} {A : Type ℓ} (R : A → A → Type κ) (x : A) : A → Type (ℓ ⊔ κ) where
  still : Steps R x x
  after : {y z : A} → Steps R x y → R y z → Steps R x z
