-- ===== src/Policy/Paths/Joining.antt =====
-- `split` and `join` together, for parts without a slash.
use claude_router.Prelude.{
  List, Member, [], and-true, any, ap, false, here, nat_beq, nat_beq_iff, or-false, refl,
  starts_with, there, true, ◌++◌, ◌∙◌, ◌∷◌, ◌≡◌,
}
use claude_router.Policy.Paths.{Text, slash, split, join}
use mathlib.Core.List.{append_assoc}

-- The text has no slash.
abbrev pub IsPart : Text → Type 0
IsPart p = any (λ c. nat_beq c slash) p ≡ false

pub split-part : (p : Text) → IsPart p → split p ≡ p ∷ []
unfolding split any
split-part [] h = refl
split-part (c ∷ p) h =
    let (e, h') = or-false (nat_beq c slash) (any (λ d. nat_beq d slash) p) h in
    rw (e, split-part p h') refl

pub split-slash : (p s : Text) → IsPart p → split (p ++ slash ∷ s) ≡ p ∷ split s
unfolding split any
split-slash [] s h = refl
split-slash (c ∷ p) s h =
    let (e, h') = or-false (nat_beq c slash) (any (λ d. nat_beq d slash) p) h in
    rw (e, split-slash p s h') refl

pub split-join :
    (p : Text) (ps : List Text)
    → ((q : Text) → Member q (p ∷ ps) → IsPart q)
    → split (join (p ∷ ps)) ≡ p ∷ ps
unfolding join
split-join p [] h = split-part p (h p here)
split-join p (q ∷ qs) h =
    split-slash p (join (q ∷ qs)) (h p here)
    ∙ ap (λ x. p ∷ x) (split-join q qs (λ r m. h r (there m)))

pub split-join-slash :
    (p : Text) (ps : List Text) (s : Text)
    → ((q : Text) → Member q (p ∷ ps) → IsPart q)
    → split (join (p ∷ ps) ++ slash ∷ s) ≡ (p ∷ ps) ++ split s
unfolding join
split-join-slash p [] s h = split-slash p s (h p here)
split-join-slash p (q ∷ qs) s h =
    ap split (append_assoc p (slash ∷ join (q ∷ qs)) (slash ∷ s))
    ∙ split-slash p (join (q ∷ qs) ++ slash ∷ s) (h p here)
    ∙ ap (λ x. p ∷ x) (split-join-slash q qs s (λ r m. h r (there m)))

-- A text that starts with another continues it.
pub starts_with-append : (s t : Text) → starts_with s t ≡ true → (u : Text) × (s ≡ t ++ u)
unfolding starts_with
starts_with-append s [] h = (s, refl)
starts_with-append [] (c ∷ t) h = cc
starts_with-append (d ∷ s) (c ∷ t) h =
    let (e, h') = and-true (nat_beq d c) (starts_with s t) h in
    let (u, p) = starts_with-append s t h' in
    (u, ap (λ x. x ∷ s) ((nat_beq_iff d c).0 e) ∙ ap (λ x. c ∷ x) p)
