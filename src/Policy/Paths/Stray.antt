-- ===== src/Policy/Paths/Stray.antt =====
-- The texts on which `_normalize_resource` raises: `path.parts[0]` of a path that has no parts.
use mathlib.Core.Bool.{false≢true}
use claude_router.Prelude.{
  Bool, Bool-cases, List, Member, Option, String, [], any, ap, arith, codes, err, false, here, inl,
  inr, nat_beq, nat_beq_iff, none, not, ok, or-false, refl, select, some, sym, there, true, ◌||◌,
  ◌∙◌, ◌∷◌, ◌≡◌, ◌⊎◌,
}
use claude_router.Policy.{Error, index_error}
use claude_router.Policy.Paths.{
  Text, slash, split, parts, is_empty, is_dot, cleaned, is_absolute, is_dot_dot, normalize_resource,
  relative, covers, in_some_scope, in_scope, in_scopes, join,
}
use claude_router.Policy.Paths.Containment.{scope_text}

-- The text, stripped, is a relative path to the directory itself, such as "." or "././": it is not empty, does
-- not start with a slash, and has only empty and "." components.
pub record IsStray (s : Text) : Type 0 where
  pub not_empty : ¬ (cleaned s ≡ [])
  pub not_rooted : (t : Text) → ¬ (cleaned s ≡ slash ∷ t)
  pub only_dots : (q : Text) → Member q (split (cleaned s)) → (q ≡ []) ⊎ (q ≡ 0x2E ∷ [])

dropped : (q : Text) → (not (is_empty q || is_dot q) ≡ false) → (q ≡ []) ⊎ (q ≡ 0x2E ∷ [])
dropped [] h = inl refl
dropped (c ∷ []) h =
    let e : nat_beq c 0x2E ≡ true = ground arith in
    inr (ap (λ d. d ∷ []) ((nat_beq_iff c 0x2E).0 e))
dropped (c ∷ d ∷ q) h = cc

kept_out : (q : Text) → (q ≡ []) ⊎ (q ≡ 0x2E ∷ []) → not (is_empty q || is_dot q) ≡ false
kept_out q (inl e) = rw e refl
kept_out q (inr e) = rw e refl

none_selected :
    (p : Text → Bool) (xs : List Text) → select p xs ≡ [] → (q : Text) → Member q xs → p q ≡ false
unfolding select
none_selected p [] h q m = elim m [ ]
none_selected p (x ∷ xs) h q m = elim (Bool-cases (p x)) [
  | inl e ↦ let bad = rw e at h in cc
  | inr e ↦ none_selected_cons x xs q e (none_selected p xs (rw e at h)) m
]
  where
    none_selected_cons :
        (y : Text) (ys : List Text) (r : Text)
        → p y ≡ false
        → ((z : Text) → Member z ys → p z ≡ false)
        → Member r (y ∷ ys)
        → p r ≡ false
    none_selected_cons y ys r e rest here = e
    none_selected_cons y ys r e rest (there n) = rest r n

select-none :
    (p : Text → Bool) (xs : List Text) → ((q : Text) → Member q xs → p q ≡ false) → select p xs ≡ []
unfolding select
select-none p [] h = refl
select-none p (x ∷ xs) h = rw (h x here) (select-none p xs (λ q m. h q (there m)))

is_absolute-≡ : (s : Text) → is_absolute s ≡ true → (t : Text) × (s ≡ slash ∷ t)
is_absolute-≡ [] h = cc
is_absolute-≡ (c ∷ t) h = (t, ap (λ d. d ∷ t) ((nat_beq_iff c slash).0 h))

no_parts-IsStray :
    (s : Text)
    → (is_empty (cleaned s) || is_absolute (cleaned s)) ≡ false
    → parts (cleaned s) ≡ []
    → IsStray s
unfolding parts
no_parts-IsStray s h e =
    let (full, below) = or-false _ _ h in
    record {
      not_empty = λ q. false≢true (sym full ∙ ap is_empty q);
      not_rooted = λ t q. false≢true (sym below ∙ ap is_absolute q);
      only_dots = λ q m. dropped q (none_selected _ (split (cleaned s)) e q m);
    }

relative-answers :
    (ps : List Text)
    → ((o : Option Text) × (relative ps ≡ ok o)) ⊎ ((relative ps ≡ err index_error) × (ps ≡ []))
relative-answers [] = inr (refl, refl)
relative-answers (p ∷ ps) =
    elim (Bool-cases (any (λ c. nat_beq c 0x3A) p || any is_dot_dot (p ∷ ps))) [
      | inl e ↦ inl (none, rw e refl)
      | inr e ↦ inl (some (join (p ∷ ps)), rw e refl)
    ]

-- `_normalize_resource` answers, or the text is stray and it raises an IndexError.
pub normalize_resource-answers :
    (s : Text)
    → ((o : Option Text) × (normalize_resource s ≡ ok o))
      ⊎ ((normalize_resource s ≡ err index_error) × IsStray s)
unfolding normalize_resource
normalize_resource-answers s = elim (Bool-cases (is_empty (cleaned s) || is_absolute (cleaned s))) [
  | inl e ↦ inl (none, rw e refl)
  | inr e ↦ elim (relative-answers (parts (cleaned s))) [
    | inl (o, a) ↦ inl (o, rw e a)
    | inr (a, no_parts) ↦ inr (rw e a, no_parts-IsStray s e no_parts)
  ]
]

pub stray-raises : (s : Text) → IsStray s → normalize_resource s ≡ err index_error
unfolding normalize_resource parts
stray-raises s h = elim (Bool-cases (is_empty (cleaned s) || is_absolute (cleaned s))) [
  | inl e ↦ absurd (rooted_or_empty (cleaned s) h.not_empty h.not_rooted e)
  | inr e ↦ rw e (
      ap relative (
        select-none (λ p. not (is_empty p || is_dot p)) (split (cleaned s))
          (λ q m. kept_out q (h.only_dots q m))))
]
  where
    rooted_or_empty :
        (t : Text)
        → ¬ (t ≡ [])
        → ((u : Text) → ¬ (t ≡ slash ∷ u))
        → ¬ ((is_empty t || is_absolute t) ≡ true)
    rooted_or_empty [] a b e = a refl
    rooted_or_empty (c ∷ t) a b e = let (u, q) = is_absolute-≡ (c ∷ t) e in b u q

-- Some declared scope is stray.
abbrev pub HasStray : List String → Type 0
HasStray scopes = (raw : String) × Member raw scopes × IsStray (scope_text raw)

in_some_scope-answers :
    (n : Text) (scopes : List String)
    → ((b : Bool) × (in_some_scope n scopes ≡ ok b))
      ⊎ ((in_some_scope n scopes ≡ err index_error) × HasStray scopes)
unfolding in_some_scope
in_some_scope-answers n [] = inl (false, refl)
in_some_scope-answers n (raw ∷ scopes) = elim (normalize_resource-answers (scope_text raw)) [
  | inr (e, stray) ↦ inr (rw e refl, (raw, here, stray))
  | inl (o, e) ↦ elim (Bool-cases (covers o n)) [
    | inl c ↦ inl (true, rw e (rw c refl))
    | inr c ↦ elim (in_some_scope-answers n scopes) [
      | inl (b, f) ↦ inl (b, rw e (rw c f))
      | inr (f, (other, m, stray)) ↦ inr (rw e (rw c f), (other, there m, stray))
    ]
  ]
]

in_scopes-answers :
    (scopes : List String) (o : Option Text)
    → ((b : Bool) × (in_scopes scopes o ≡ ok b))
      ⊎ ((in_scopes scopes o ≡ err index_error) × HasStray scopes)
in_scopes-answers scopes none = inl (false, refl)
in_scopes-answers scopes (some n) = in_some_scope-answers n scopes

-- `_in_scope` answers for a resource that is not stray, or it raises an IndexError because the resource or a
-- scope is stray.
pub in_scope-answers :
    (resource : String) (scopes : List String)
    → ((b : Bool) × (in_scope resource scopes ≡ ok b) × ¬ IsStray (codes resource))
      ⊎ ((in_scope resource scopes ≡ err index_error)
          × (IsStray (codes resource) ⊎ HasStray scopes))
unfolding in_scope
in_scope-answers resource scopes = elim (normalize_resource-answers (codes resource)) [
  | inr (e, stray) ↦ inr (rw e refl, inl stray)
  | inl (o, e) ↦
      let fine : ¬ IsStray (codes resource) =
        λ stray. err-not-ok (sym (stray-raises (codes resource) stray) ∙ e) in
      elim (in_scopes-answers scopes o) [
        | inl (b, f) ↦ inl (b, rw e f, fine)
        | inr (f, stray) ↦ inr (rw e f, inr stray)
      ]
]
  where
    err-not-ok : {A : Type 0} {x : Error} {a : A} → ¬ (err x ≡ ok a)
    err-not-ok h = cc
