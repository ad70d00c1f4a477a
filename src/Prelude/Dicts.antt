-- ===== src/Prelude/Dicts.antt =====
-- Python's dict with text keys, as an association list in insertion order.
use Prim.Native.String.{String}
use mathlib.Core.Path.{◌≡◌, refl}
use mathlib.Core.Option.{Option, none, some}
use mathlib.Core.List.{List, [], ◌∷◌, map}
use mathlib.Core.Bool.{true}
use mathlib.Core.Logic.{◌⊎◌, inl, inr}
use native.Mathlib.Omega.{arith}
use claude_router.Prelude.Tests.{if◌then◌else◌, Bool-cases, some_inj}
use claude_router.Prelude.Equality.{◌==◌, string_eq, ==-cases, ≡→==, ==_refl}
use claude_router.Prelude.Lists.{Member, Member-cons, here, there}
use claude_router.Prelude.Pigeonhole.{Distinct}
use text.Mathlib.TextEquality.{eq_iff}

module _ {ℓ} {A : Type ℓ} where
  -- `d[key] = value`
  unfoldable pub dict_set : String → A → List (String × A) → List (String × A)
  dict_set k a [] = (k, a) ∷ []
  dict_set k a ((l, b) ∷ rest) =
      let later = dict_set k a rest in if l == k then (k, a) ∷ rest else (l, b) ∷ later

  -- `d.get(key)`
  unfoldable pub dict_get : String → List (String × A) → Option A
  dict_get k [] = none
  dict_get k ((l, b) ∷ rest) = if l == k then some b else dict_get k rest

  pub dict_get-set :
      (k j : String) (a : A) (d : List (String × A))
      → dict_get j (dict_set k a d) ≡ (if k == j then some a else dict_get j d)
  unfolding dict_get dict_set
  dict_get-set k j a [] = refl
  dict_get-set k j a ((l, b) ∷ rest) =
      ground (arith, eq_iff k j, eq_iff l k, eq_iff l j, dict_get-set k j a rest)

module _ {ℓ} {A : Type ℓ} where
  abbrev pub dict_keys : List (String × A) → List String
  dict_keys d = map (λ (e : String × A). e.0) d

  pub dict_set-keys :
      (k z : String) (a : A) (d : List (String × A))
      → Member z (dict_keys (dict_set k a d))
      → (z ≡ k) ⊎ Member z (dict_keys d)
  unfolding dict_set
  dict_set-keys k z a [] m = Member-cons m
  dict_set-keys k z a ((l, b) ∷ rest) m = elim (Bool-cases (l == k)) [
    | inl e ↦ elim (Member-cons (rw e at m)) [ inl p ↦ inl p | inr n ↦ inr (there n) ]
    | inr e ↦ elim (Member-cons (rw e at m)) [
      | inl p ↦ inr (rw p here)
      | inr n ↦ elim (dict_set-keys k z a rest n) [ inl p ↦ inl p | inr n' ↦ inr (there n') ]
    ]
  ]

  -- A dict keeps its keys distinct.
  pub dict_set-Distinct :
      (k : String) (a : A) (d : List (String × A))
      → Distinct (dict_keys d)
      → Distinct (dict_keys (dict_set k a d))
  unfolding dict_set
  dict_set-Distinct k a [] h = ((λ m. elim m [ ]), tt)
  dict_set-Distinct k a ((l, b) ∷ rest) (absent, h) = elim (==-cases l k) [
    | inl p ↦ let e : (l == k) ≡ true = ≡→== l k p in rw e ((λ m. absent (rw p m)), h)
    | inr (e, differs) ↦ rw e (
      (λ m. elim (dict_set-keys k l a rest m) [ inl p ↦ differs p | inr n ↦ absent n ]),
      dict_set-Distinct k a rest h,
    )
  ]

  pub Member-keys :
      {k : String} {a : A} {d : List (String × A)} → Member (k, a) d → Member k (dict_keys d)
  Member-keys here = here
  Member-keys (there m) = there (Member-keys m)

  pub dict_get-Member :
      (k : String) (a : A) (d : List (String × A))
      → Distinct (dict_keys d)
      → Member (k, a) d
      → dict_get k d ≡ some a
  unfolding dict_get
  dict_get-Member k a [] h m = elim m [ ]
  dict_get-Member k a ((l, b) ∷ rest) h here = rw (==_refl l) refl
  dict_get-Member k a ((l, b) ∷ rest) (absent, h) (there m) = elim (==-cases l k) [
    | inl p ↦ elim (absent (rw p (Member-keys m))) [ ]
    | inr (e, differs) ↦ rw e (dict_get-Member k a rest h m)
  ]

  pub Member-dict_get :
      (k : String) (a : A) (d : List (String × A)) → dict_get k d ≡ some a → Member (k, a) d
  unfolding dict_get
  Member-dict_get k a [] h = cc
  Member-dict_get k a ((l, b) ∷ rest) h = elim (==-cases l k) [
    | inl p ↦
        let e : (l == k) ≡ true = ≡→== l k p in let q = some_inj b a (rw e at h) in rw (p, q) here
    | inr (e, differs) ↦ there (Member-dict_get k a rest (rw e at h))
  ]
