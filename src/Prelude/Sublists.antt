-- ===== src/Prelude/Sublists.antt =====
-- Lists with elements left out, and what is selected from an updated table.
use mathlib.Core.Path.{◌≡◌, refl, ap, subst, sym}
use mathlib.Core.Logic.{inl, inr}
use mathlib.Core.Bool.{Bool, true}
use mathlib.Core.List.{List, [], ◌∷◌, ◌++◌, append-nil, map}
use claude_router.Prelude.Tests.{Bool-cases}
use claude_router.Prelude.Lists.{
  Member, Member-append, Member-append_left, Member-append_right, Member-cons, here, select, there,
  update_where,
}
use claude_router.Prelude.Pigeonhole.{Distinct}

module _ {ℓ} {A : Type ℓ} where
  pub data Sublist : List A → List A → Type ℓ where
    no_more : Sublist [] []
    left_out : {y : A} {xs ys : List A} → Sublist xs ys → Sublist xs (y ∷ ys)
    taken : {x : A} {xs ys : List A} → Sublist xs ys → Sublist (x ∷ xs) (x ∷ ys)

  pub Sublist-refl : (xs : List A) → Sublist xs xs
  Sublist-refl [] = no_more
  Sublist-refl (x ∷ xs) = taken (Sublist-refl xs)

  pub Sublist-Member : {xs ys : List A} {x : A} → Sublist xs ys → Member x xs → Member x ys
  Sublist-Member no_more m = m
  Sublist-Member (left_out s) m = there (Sublist-Member s m)
  Sublist-Member (taken s) here = here
  Sublist-Member (taken s) (there m) = there (Sublist-Member s m)

  pub Sublist-Distinct : {xs ys : List A} → Sublist xs ys → Distinct ys → Distinct xs
  Sublist-Distinct no_more d = tt
  Sublist-Distinct (left_out s) d = Sublist-Distinct s d.1
  Sublist-Distinct (taken s) d = (λ m. d.0 (Sublist-Member s m), Sublist-Distinct s d.1)

  pub Sublist-append :
      {xs ys us vs : List A} → Sublist xs ys → Sublist us vs → Sublist (xs ++ us) (ys ++ vs)
  Sublist-append no_more t = t
  Sublist-append (left_out s) t = left_out (Sublist-append s t)
  Sublist-append (taken s) t = taken (Sublist-append s t)

  -- A new element may stand at the end of the first part.
  pub Distinct-append :
      (xs ys : List A) (k : A)
      → Distinct (xs ++ ys)
      → (¬ Member k (xs ++ ys))
      → Distinct ((xs ++ k ∷ []) ++ ys)
  Distinct-append [] ys k d n = (n, d)
  Distinct-append (x ∷ xs) ys k (absent, d) n = (
    λ m. elim (Member-append (xs ++ k ∷ []) m) [
      | inl l ↦ elim (Member-append xs l) [
        | inl l' ↦ absent (Member-append_left ys l')
        | inr l' ↦ elim (Member-cons l') [ inl p ↦ n (rw p here) | inr z ↦ elim z [ ] ]
      ]
      | inr l ↦ absent (Member-append_right xs l)
    ],
    Distinct-append xs ys k d (λ m. n (there m)),
  )

module _ {ℓ κ} {A : Type ℓ} {K : Type κ} (key : A → K) (live : A → Bool) where
  -- An update that makes no row live, and changes no key of a live row.
  pub Sublist-update :
      (p : A → Bool) (f : A → A) (rows : List A)
      → ((r : A) → p r ≡ true → live (f r) ≡ true → (live r ≡ true) × (key (f r) ≡ key r))
      → Sublist (map key (select live (update_where p f rows))) (map key (select live rows))
  unfolding select update_where
  Sublist-update p f [] h = no_more
  Sublist-update p f (r ∷ rows) h =
      let rest = Sublist-update p f rows h in
      elim (Bool-cases (p r)) [
        | inl e ↦ elim (Bool-cases (live (f r))) [
          | inl g ↦ let (l, q) = h r e g in rw (e, g, l, q) (taken rest)
          | inr g ↦ elim (Bool-cases (live r)) [
            | inl l ↦ rw (e, g, l) (left_out rest)
            | inr l ↦ rw (e, g, l) rest
          ]
        ]
        | inr e ↦ elim (Bool-cases (live r)) [
          | inl l ↦ rw (e, l) (taken rest)
          | inr l ↦ rw (e, l) rest
        ]
      ]

  pub live-append :
      (rows : List A) (r : A)
      → live r ≡ true
      → map key (select live (rows ++ r ∷ [])) ≡ map key (select live rows) ++ key r ∷ []
  unfolding select
  live-append [] r e = rw e refl
  live-append (x ∷ xs) r e = elim (Bool-cases (live x)) [
    | inl l ↦ rw l (ap (λ ks. key x ∷ ks) (live-append xs r e))
    | inr l ↦ rw l (live-append xs r e)
  ]

module _ {ℓ} {A : Type ℓ} where
  pub Distinct-snoc :
      (xs : List A) (k : A) → Distinct xs → (¬ Member k xs) → Distinct (xs ++ k ∷ [])
  Distinct-snoc xs k d n = subst Distinct (append-nil (xs ++ k ∷ [])) (
      Distinct-append xs [] k (subst Distinct (sym (append-nil xs)) d)
        (λ m. n (subst (Member k) (append-nil xs) m)))
