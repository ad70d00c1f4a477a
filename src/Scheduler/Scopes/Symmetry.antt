-- ===== src/Scheduler/Scopes/Symmetry.antt =====
-- Conflict is symmetric, and a scope conflicts with itself and with the project root.
use mathlib.Core.Path.{fun_ext}
use claude_router.Prelude.{
  Bool, List, [], any, ap, arith, false, map, refl, sym, true, ◌||◌, ◌∙◌, ◌∷◌, ◌≡◌,
}
use claude_router.Scheduler.Scopes.{
  PathText, dot, canonical_scope, canonical_scopes, overlaps, scopes_conflict, text_eq,
}

pub text_eq_refl : (s : PathText) → text_eq s s ≡ true
unfolding text_eq
text_eq_refl [] = refl
text_eq_refl (c ∷ s) = ground (arith, text_eq_refl s)

text_eq_comm : (s t : PathText) → text_eq s t ≡ text_eq t s
unfolding text_eq
text_eq_comm [] [] = refl
text_eq_comm [] (b ∷ t) = refl
text_eq_comm (a ∷ s) [] = refl
text_eq_comm (a ∷ s) (b ∷ t) = ground (arith, text_eq_comm s t)

overlaps_comm : (s t : PathText) → overlaps s t ≡ overlaps t s
unfolding overlaps
overlaps_comm s t = ground (arith, text_eq_comm s t)

overlaps_refl : (s : PathText) → overlaps s s ≡ true
unfolding overlaps
overlaps_refl s = ground (arith, text_eq_refl s)

any-false {ℓ} : {A : Type ℓ} (xs : List A) → any (λ x. false) xs ≡ false
unfolding any
any-false [] = refl
any-false (x ∷ xs) = any-false xs

any-or {ℓ} :
    {A : Type ℓ} (p q : A → Bool) (xs : List A) → any (λ x. p x || q x) xs ≡ (any p xs || any q xs)
unfolding any
any-or p q [] = refl
any-or p q (x ∷ xs) = ground (arith, any-or p q xs)

any_swap {ℓ} :
    {A : Type ℓ} (f : A → A → Bool) (xs ys : List A)
    → any (λ x. any (f x) ys) xs ≡ any (λ y. any (λ x. f x y) xs) ys
unfolding any
any_swap f [] ys = sym (any-false ys)
any_swap f (x ∷ xs) ys =
    ap (λ b. any (f x) ys || b) (any_swap f xs ys)
    ∙ sym (any-or (f x) (λ y. any (λ z. f z y) xs) ys)

pub scopes_conflict_comm :
    (fold : PathText → PathText) (l r : List PathText)
    → scopes_conflict fold l r ≡ scopes_conflict fold r l
unfolding scopes_conflict
scopes_conflict_comm fold l r =
    any_swap overlaps (canonical_scopes fold l) (canonical_scopes fold r)
    ∙ ap (λ g. any (λ y. any (g y) (canonical_scopes fold l)) (canonical_scopes fold r))
        (fun_ext λ y. fun_ext λ x. overlaps_comm x y)

any-overlaps_self :
    (x : PathText) (xs : List PathText)
    → any (λ first. any (overlaps first) (x ∷ xs)) (x ∷ xs) ≡ true
unfolding any
any-overlaps_self x xs = rw (overlaps_refl x) refl

scopes_conflict_self :
    (fold : PathText → PathText) (l : List PathText) → scopes_conflict fold l l ≡ true
unfolding scopes_conflict canonical_scopes
scopes_conflict_self fold [] = any-overlaps_self dot []
scopes_conflict_self fold (v ∷ vs) =
    any-overlaps_self (canonical_scope fold v) (map (canonical_scope fold) vs)
