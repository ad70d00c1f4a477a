-- ===== src/Prelude/Pigeonhole.antt =====
-- Lists without repetitions of any type, and the pigeonhole principle.
use Prim.Native.Nat.{suc, ◌≤◌}
use mathlib.Core.Path.{◌≡◌, refl, ap, subst}
use mathlib.Core.Logic.{inl, inr}
use mathlib.Core.List.{List, [], ◌∷◌}
use native.Mathlib.Omega.{arith}
use claude_router.Prelude.Lists.{length, Member, Member-cons, here, there}

module _ {ℓ} {A : Type ℓ} where
  abbrev pub Distinct : List A → Type ℓ
  Distinct [] = Unit
  Distinct (x ∷ xs) = (¬ Member x xs) × Distinct xs

  without : {x : A} (ys : List A) → Member x ys → List A
  without [] m = elim m [ ]
  without (y ∷ ys) here = ys
  without (y ∷ ys) (there m) = y ∷ without ys m

  length-without : {x : A} (ys : List A) (m : Member x ys) → suc (length (without ys m)) ≡ length ys
  unfolding without
  length-without [] m = elim m [ ]
  length-without (y ∷ ys) here = refl
  length-without (y ∷ ys) (there m) = ap suc (length-without ys m)

  Member-without :
      {x z : A} (ys : List A) (m : Member x ys) → ¬ (z ≡ x) → Member z ys → Member z (without ys m)
  unfolding without
  Member-without [] m d k = elim m [ ]
  Member-without (y ∷ ys) here d k = elim (Member-cons k) [ inl p ↦ elim (d p) [ ] | inr l ↦ l ]
  Member-without (y ∷ ys) (there m) d here = here
  Member-without (y ∷ ys) (there m) d (there k) = there (Member-without ys m d k)

  -- Distinct elements that all stand in `ys` are at most as many as `ys`.
  pub length_of_Distinct :
      (xs ys : List A) → Distinct xs → ((x : A) → Member x xs → Member x ys) → length xs ≤ length ys
  length_of_Distinct [] ys d f = omega arith
  length_of_Distinct (x ∷ xs) ys (absent, d) f =
      let m = f x here in
      omega (
        arith,
        length-without ys m,
        length_of_Distinct xs (without ys m) d (λ z k.
            Member-without ys m (λ p. absent (subst (λ w. Member w xs) p k)) (f z (there k))),
      )
