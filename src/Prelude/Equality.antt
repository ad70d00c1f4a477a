-- ===== src/Prelude/Equality.antt =====
-- Python's `==` at the types that the program compares.
use Prim.Native.Nat.{ℕ}
use Prim.Native.String.{String}
use mathlib.Core.Path.{◌≡◌, refl, ap}
use mathlib.Core.Logic.{◌↔◌, ◌⊎◌, inl, inr}
use mathlib.Core.Bool.{Bool, true, false}
use mathlib.Core.Option.{Option, none, some}
use native.Mathlib.Omega.{arith}
use text.Mathlib.Text.{◌==◌ as str_beq}
use text.Mathlib.TextEquality.{eq_iff}
use claude_router.Prelude.Tests.{Bool-cases, nat_beq, nat_beq_iff}

-- A Boolean comparison that decides the paths of its type.
pub record Comparable {ℓ} (A : Type ℓ) : Type ℓ where
  pub same : A → A → Bool
  pub same_iff : (x y : A) → (same x y ≡ true) ↔ (x ≡ y)

instance abbrev pub nat_eq : Comparable ℕ
nat_eq = record { same = nat_beq; same_iff = nat_beq_iff }

instance abbrev pub string_eq : Comparable String
string_eq = record { same = str_beq; same_iff = eq_iff }

infix 50 ◌==◌
abbrev pub ◌==◌ {ℓ} : {A : Type ℓ} ⦃c : Comparable A⦄ → A → A → Bool
◌==◌ ⦃c⦄ x y = c.same x y

module _ {ℓ} {A : Type ℓ} where
  abbrev pub option_beq : (A → A → Bool) → Option A → Option A → Bool
  option_beq f none none = true
  option_beq f (some a) (some b) = f a b
  option_beq f _ _ = false

  pub option_beq_iff :
      (e : Comparable A) (a b : Option A) → (option_beq e.same a b ≡ true) ↔ (a ≡ b)
  option_beq_iff e none none = (λ _. refl, λ _. refl)
  option_beq_iff e (some a) (some b) =
      (λ h. ap some ((e.same_iff a b).0 h), λ p. (e.same_iff a b).1 (cc p))
  option_beq_iff e none (some b) = (λ h. cc, λ h. cc)
  option_beq_iff e (some a) none = (λ h. cc, λ h. cc)

instance abbrev pub option_eq {ℓ} : {A : Type ℓ} ⦃e : Comparable A⦄ → Comparable (Option A)
option_eq ⦃e⦄ = record { same = option_beq e.same; same_iff = option_beq_iff e }

-- A value equals itself.
pub ==_refl {ℓ} : {A : Type ℓ} ⦃e : Comparable A⦄ (a : A) → (a == a) ≡ true
==_refl ⦃e⦄ a = (e.same_iff a a).1 refl

pub ==→≡ {ℓ} : {A : Type ℓ} ⦃e : Comparable A⦄ (a b : A) → (a == b) ≡ true → a ≡ b
==→≡ ⦃e⦄ a b = (e.same_iff a b).0

pub ≡→== {ℓ} : {A : Type ℓ} ⦃e : Comparable A⦄ (a b : A) → a ≡ b → (a == b) ≡ true
≡→== ⦃e⦄ a b = (e.same_iff a b).1

pub ==_comm {ℓ} : {A : Type ℓ} ⦃e : Comparable A⦄ (a b : A) → (a == b) ≡ (b == a)
==_comm ⦃e⦄ a b = ground (arith, e.same_iff a b, e.same_iff b a)

-- Two values are equal, or their test fails and they are not.
pub ==-cases {ℓ} :
    {A : Type ℓ} ⦃e : Comparable A⦄ (a b : A) → (a ≡ b) ⊎ (((a == b) ≡ false) × (¬ (a ≡ b)))
==-cases a b = elim (Bool-cases (a == b)) [
  | inl h ↦ inl (==→≡ a b h)
  | inr h ↦ inr (h, λ p. let t = ≡→== a b p in cc)
]
