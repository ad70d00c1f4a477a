-- ===== src/Prelude/Outcome.antt =====
-- Code that may raise: a value, or the exception as a value.
use mathlib.Core.Path.{◌≡◌, refl}
use mathlib.Core.Logic.{◌⊎◌, inl, inr}
use mathlib.Core.Bool.{Bool, true, false}

pub data Result {ℓ} (E : Type 0) (A : Type ℓ) : Type ℓ where
  err : E → Result E A
  ok : A → Result E A

infixl 5 ◌>>=◌ ◌>>◌
abbrev pub ◌>>=◌ {ℓ κ} :
    {E : Type 0} {A : Type ℓ} {B : Type κ} → Result E A → (A → Result E B) → Result E B
err raised >>= k = err raised
ok value >>= k = k value

abbrev pub ◌>>◌ {ℓ} : {E : Type 0} {B : Type ℓ} → Result E (Unit {0}) → Result E B → Result E B
first >> second = first >>= λ _. second

-- `if test: raise e`
abbrev pub raise_if : {E : Type 0} → Bool → E → Result E (Unit {0})
raise_if true e = err e
raise_if false e = ok tt

-- The parts of a chain that returned.
pub >>=-eq-ok {ℓ κ} :
    {E : Type 0} {A : Type ℓ} {B : Type κ} (r : Result E A) (k : A → Result E B) {b : B}
    → (r >>= k) ≡ ok b
    → (value : A) × (r ≡ ok value) × (k value ≡ ok b)
>>=-eq-ok (err raised) k h = cc
>>=-eq-ok (ok value) k h = (value, refl, h)

pub Result-cases {ℓ} :
    {E : Type 0} {A : Type ℓ} (r : Result E A)
    → ((value : A) × (r ≡ ok value)) ⊎ ((raised : E) × (r ≡ err raised))
Result-cases (ok value) = inl (value, refl)
Result-cases (err raised) = inr (raised, refl)

pub ok-injective {ℓ} : {E : Type 0} {A : Type ℓ} {x y : A} → Path (Result E A) (ok x) (ok y) → x ≡ y
ok-injective p = cc
