-- ===== src/Policy/Paths/Containment.antt =====
-- The parts of a path and of a scope that covers it in `_in_scope`.
use claude_router.Prelude.{
  >>=-eq-ok, Bool-cases, List, Member, Option, String, [], and-true, any, ap, codes, false, here,
  inl, inr, nat_beq, nat_beq_iff, none, ok, ok-injective, or-false, refl, some, starts_with, subst,
  sym, there, true, ◌++◌, ◌∙◌, ◌∷◌, ◌≡◌,
}
use mathlib.Core.List.{append_assoc, append-nil}
use claude_router.Policy.Paths.{
  Text, slash, split, join, parts, is_empty, rstrip, covers, text_beq, cleaned, in_scope, in_scopes,
  in_some_scope, normalize_resource, remove_suffix,
}
use claude_router.Policy.Paths.Joining.{IsPart, split-join, split-join-slash, starts_with-append}
use claude_router.Policy.Paths.Normal.{IsName, parts-IsName, IsRelative, normalize-some}

rstrip-part : (p : Text) → IsPart p → rstrip (λ c. nat_beq c slash) p ≡ p
unfolding rstrip any
rstrip-part [] h = refl
rstrip-part (c ∷ p) h =
    let (e, h') = or-false (nat_beq c slash) (any (λ d. nat_beq d slash) p) h in
    rw (e, rstrip-part p h') refl

rstrip-slash :
    (p s : Text)
    → IsPart p
    → is_empty s ≡ false
    → rstrip (λ c. nat_beq c slash) s ≡ s
    → rstrip (λ c. nat_beq c slash) (p ++ slash ∷ s) ≡ p ++ slash ∷ s
unfolding rstrip any
rstrip-slash [] s h n k = rw (k, n) refl
rstrip-slash (c ∷ p) s h n k =
    let (e, h') = or-false (nat_beq c slash) (any (λ d. nat_beq d slash) p) h in
    rw (e, rstrip-slash p s h' n k) refl

join-nonempty : (p : Text) (ps : List Text) → is_empty p ≡ false → is_empty (join (p ∷ ps)) ≡ false
unfolding join
join-nonempty p [] h = h
join-nonempty [] (q ∷ qs) h = cc
join-nonempty (c ∷ p) (q ∷ qs) h = refl

rstrip-join :
    (p : Text) (ps : List Text)
    → ((q : Text) → Member q (p ∷ ps) → IsName q)
    → rstrip (λ c. nat_beq c slash) (join (p ∷ ps)) ≡ join (p ∷ ps)
unfolding join
rstrip-join p [] h = rstrip-part p (h p here).0
rstrip-join p (q ∷ qs) h =
    rstrip-slash p (join (q ∷ qs)) (h p here).0 (join-nonempty q qs (h q (there here)).1)
      (rstrip-join q qs (λ r m. h r (there m)))

text_beq→≡ : (s t : Text) → text_beq s t ≡ true → s ≡ t
unfolding starts_with
text_beq→≡ [] [] h = refl
text_beq→≡ [] (c ∷ t) h = cc
text_beq→≡ (c ∷ s) [] h = cc
text_beq→≡ (c ∷ s) (d ∷ t) h =
    let (l, r) = and-true (starts_with (c ∷ s) (d ∷ t)) (starts_with (d ∷ t) (c ∷ s)) h in
    let (e, l') = and-true (nat_beq c d) (starts_with s t) l in
    let (e', r') = and-true (nat_beq d c) (starts_with t s) r in
    rw ((nat_beq_iff c d).0 e, text_beq→≡ s t (rw (l', r') refl)) refl

-- A name that is covered is the scope, or continues it.
covers-append :
    (p q : Text) (ps qs : List Text)
    → ((r : Text) → Member r (p ∷ ps) → IsName r)
    → ((r : Text) → Member r (q ∷ qs) → IsName r)
    → covers (some (join (q ∷ qs))) (join (p ∷ ps)) ≡ true
    → (us : List Text) × (p ∷ ps ≡ (q ∷ qs) ++ us)
covers-append p q ps qs h k e =
    let back = split-join p ps (λ r m. (h r m).0) in
    elim (Bool-cases (text_beq (join (p ∷ ps)) (join (q ∷ qs)))) [
      | inl t ↦ (
        [],
        sym back
            ∙ ap split (text_beq→≡ (join (p ∷ ps)) (join (q ∷ qs)) t)
            ∙ split-join q qs (λ r m. (k r m).0)
            ∙ sym (append-nil (q ∷ qs)),
      )
      | inr t ↦
          let (u, a) =
            starts_with-append (join (p ∷ ps)) (join (q ∷ qs) ++ slash ∷ [])
              (rw (t, rstrip-join q qs k) at e) in
          (
            split u,
            sym back
                ∙ ap split (a ∙ append_assoc (join (q ∷ qs)) (slash ∷ []) u)
                ∙ split-join-slash q qs u (λ r m. (k r m).0),
          )
    ]

-- The scope without its suffix "/**"
abbrev pub scope_text : String → Text
scope_text raw_scope = remove_suffix (codes "/**") (codes raw_scope)

-- The parts of the path continue the parts of the scope, and neither is absolute nor goes up.
pub record IsUnder (s scope : Text) : Type 0 where
  pub path : IsRelative s
  pub base : IsRelative scope
  pub rest : List Text
  pub continues : parts (cleaned s) ≡ parts (cleaned scope) ++ rest

covers-IsUnder :
    (s scope n : Text) (normal : Option Text)
    → normalize_resource s ≡ ok (some n)
    → normalize_resource scope ≡ ok normal
    → covers normal n ≡ true
    → IsUnder s scope
covers-IsUnder s scope n none h k e = cc
covers-IsUnder s scope n (some m) h k e =
    let x = normalize-some s n h in
    let y = normalize-some scope m k in
    let (us, a) =
      covers-append x.first y.first x.others y.others
        (λ r l. parts-IsName (cleaned s) r (subst (Member r) (sym x.all) l))
        (λ r l. parts-IsName (cleaned scope) r (subst (Member r) (sym y.all) l))
        (subst (λ z. covers (some z) (join (x.first ∷ x.others)) ≡ true) y.joined
          (subst (λ z. covers (some m) z ≡ true) x.joined e)) in
    record {
      path = x.good;
      base = y.good;
      rest = us;
      continues = x.all ∙ a ∙ ap (λ z. z ++ us) (sym y.all);
    }

in_some_scope-IsUnder :
    (s n : Text) (scopes : List String)
    → normalize_resource s ≡ ok (some n)
    → in_some_scope n scopes ≡ ok true
    → (raw : String) × Member raw scopes × IsUnder s (scope_text raw)
unfolding in_some_scope
in_some_scope-IsUnder s n [] h e = let bad = ok-injective e in cc
in_some_scope-IsUnder s n (raw ∷ scopes) h e =
    let (normal, k, e1) = >>=-eq-ok (normalize_resource (scope_text raw)) _ e in
    elim (Bool-cases (covers normal n)) [
      | inl c ↦ (raw, here, covers-IsUnder s (scope_text raw) n normal h k c)
      | inr c ↦
          let (other, m, u) = in_some_scope-IsUnder s n scopes h (rw c at e1) in (other, there m, u)
    ]

in_scopes-IsUnder :
    (s : Text) (scopes : List String) (normal : Option Text)
    → normalize_resource s ≡ ok normal
    → in_scopes scopes normal ≡ ok true
    → (raw : String) × Member raw scopes × IsUnder s (scope_text raw)
in_scopes-IsUnder s scopes none h e = let bad = ok-injective e in cc
in_scopes-IsUnder s scopes (some n) h e = in_some_scope-IsUnder s n scopes h e

-- What `_in_scope` accepts lies under one of the scopes.
pub in_scope-IsUnder :
    (resource : String) (scopes : List String)
    → in_scope resource scopes ≡ ok true
    → (raw : String) × Member raw scopes × IsUnder (codes resource) (scope_text raw)
unfolding in_scope
in_scope-IsUnder resource scopes h =
    let (normal, k, e) = >>=-eq-ok (normalize_resource (codes resource)) _ h in
    in_scopes-IsUnder (codes resource) scopes normal k e
