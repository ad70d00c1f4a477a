-- ===== src/Policy/Paths/Normal.antt =====
-- When `_normalize_resource` returns a text, and which: the parts of the path, joined again.
use claude_router.Prelude.{
  Bool, Bool-cases, List, Member, Member-cons, [], and-true, any, any-true_of_Member, ap, arith,
  false, here, inl, inr, nat_beq, nat_beq_iff, not, ok, ok-injective, or-false, refl, select,
  select-Member, some, some_inj, subst, sym, there, true, ℕ, ◌||◌, ◌↔◌, ◌∙◌, ◌∷◌, ◌≡◌,
}
use mathlib.Core.Bool.{false≢true}
use claude_router.Policy.Paths.{
  Text, slash, split, join, push, parts, is_empty, is_dot, cleaned, is_absolute, is_dot_dot,
  normalize_resource, relative,
}
use claude_router.Policy.Paths.Joining.{IsPart, split-join}

pushed-IsPart :
    (c : ℕ) (q : Text) (ps : List Text)
    → nat_beq c slash ≡ false
    → ((r : Text) → Member r ps → IsPart r)
    → Member q (push c ps)
    → IsPart q
unfolding any
pushed-IsPart c q [] e h m = elim (Member-cons m) [ inl p ↦ rw (p, e) refl | inr n ↦ elim n [ ] ]
pushed-IsPart c q (p ∷ ps) e h m = elim (Member-cons m) [
  | inl r ↦ rw (r, e) (h p here)
  | inr n ↦ h q (there n)
]

split-IsPart : (s q : Text) → Member q (split s) → IsPart q
unfolding split any
split-IsPart [] q m = elim (Member-cons m) [ inl p ↦ rw p refl | inr n ↦ elim n [ ] ]
split-IsPart (c ∷ s) q m = elim (Bool-cases (nat_beq c slash)) [
  | inl e ↦ elim (Member-cons (rw e at m)) [ inl p ↦ rw p refl | inr n ↦ split-IsPart s q n ]
  | inr e ↦ pushed-IsPart c q (split s) e (split-IsPart s) (rw e at m)
]

-- A part of a path, in its canonical form.
abbrev pub IsName : Text → Type 0
IsName p = IsPart p × (is_empty p ≡ false)

pub parts-IsName : (s q : Text) → Member q (parts s) → IsName q
unfolding parts
parts-IsName s q m =
    let (l, e) = select-Member (λ p. not (is_empty p || is_dot p)) (split s) q m in
    (split-IsPart s q l, ground arith)

-- What a normalised text says of the text it comes from.
pub record IsRelative (s : Text) : Type 0 where
  pub not_absolute : is_absolute (cleaned s) ≡ false
  pub no_escape : any is_dot_dot (parts (cleaned s)) ≡ false

pub record Normalized (s n : Text) : Type 0 where
  pub first : Text
  pub others : List Text
  pub all : parts (cleaned s) ≡ first ∷ others
  pub joined : n ≡ join (first ∷ others)
  pub no_colon : any (λ c. nat_beq c 0x3A) first ≡ false
  pub good : IsRelative s

relative-some :
    (ps : List Text) (n : Text)
    → relative ps ≡ ok (some n)
    → (p : Text) × (qs : List Text) × (ps ≡ p ∷ qs)
      × (n ≡ join (p ∷ qs))
      × (any (λ c. nat_beq c 0x3A) p ≡ false)
      × (any is_dot_dot (p ∷ qs) ≡ false)
relative-some [] n h = cc
relative-some (p ∷ qs) n h =
    elim (Bool-cases (any (λ c. nat_beq c 0x3A) p || any is_dot_dot (p ∷ qs))) [
      | inl e ↦ let bad = rw e at h in cc
      | inr e ↦
          let q : some (join (p ∷ qs)) ≡ some n = ok-injective (rw e at h) in
          let (colon, up) = or-false _ _ e in
          (p, qs, refl, sym (some_inj (join (p ∷ qs)) n q), colon, up)
    ]

pub normalize-some : (s n : Text) → normalize_resource s ≡ ok (some n) → Normalized s n
unfolding normalize_resource
normalize-some s n h = elim (Bool-cases (is_empty (cleaned s) || is_absolute (cleaned s))) [
  | inl e ↦ let bad = rw e at h in cc
  | inr e ↦
      let (p, qs, a, j, colon, escape) = relative-some (parts (cleaned s)) n (rw e at h) in
      record {
        first = p;
        others = qs;
        all = a;
        joined = j;
        no_colon = colon;
        good = record { not_absolute = (or-false _ _ e).1; no_escape = rw a escape };
      }
]

select-select : (p : Text → Bool) (xs : List Text) → select p (select p xs) ≡ select p xs
unfolding select
select-select p [] = refl
select-select p (x ∷ xs) = elim (Bool-cases (p x)) [
  | inl e ↦ rw e (rw e (ap (λ ys. x ∷ ys) (select-select p xs)))
  | inr e ↦ rw e (select-select p xs)
]

abbrev colon_in : Text → Bool
colon_in = any (λ c. nat_beq c 0x3A)

-- The text names a path below some root in its canonical form `n`: the path that the text names, which is
-- not absolute, has a first part without a colon, and has no part "..", written with single slashes.
pub record IsCanonical (s n : Text) : Type 0 where
  pub not_absolute : is_absolute (cleaned s) ≡ false
  pub first : Text
  pub others : List Text
  pub same_parts : parts (cleaned s) ≡ first ∷ others
  pub no_drive : ¬ Member 0x3A first
  pub no_escape : ¬ Member (0x2E ∷ 0x2E ∷ []) (first ∷ others)
  pub printed : n ≡ join (first ∷ others)
  pub reads_back : parts n ≡ first ∷ others

Member-colon : (p : Text) → Member 0x3A p → colon_in p ≡ true
unfolding any
Member-colon p m = any-true_of_Member (λ c. nat_beq c 0x3A) m refl

no-colon : (p : Text) → ¬ Member 0x3A p → colon_in p ≡ false
unfolding any
no-colon [] h = refl
no-colon (c ∷ p) h = elim (Bool-cases (nat_beq c 0x3A)) [
  | inl e ↦ absurd (h (subst (λ d. Member d (c ∷ p)) ((nat_beq_iff c 0x3A).0 e) here))
  | inr e ↦ rw (e, no-colon p (λ m. h (there m))) refl
]

is_dot_dot-≡ : (p : Text) → is_dot_dot p ≡ true → p ≡ 0x2E ∷ 0x2E ∷ []
is_dot_dot-≡ [] h = cc
is_dot_dot-≡ (c ∷ []) h = cc
is_dot_dot-≡ (c ∷ d ∷ []) h =
    let (a, b) = and-true (nat_beq c 0x2E) (nat_beq d 0x2E) h in
    let p = (nat_beq_iff c 0x2E).0 a in let q = (nat_beq_iff d 0x2E).0 b in cc
is_dot_dot-≡ (c ∷ d ∷ e ∷ p) h = cc

no-dot_dot : (ps : List Text) → ¬ Member (0x2E ∷ 0x2E ∷ []) ps → any is_dot_dot ps ≡ false
unfolding any
no-dot_dot [] h = refl
no-dot_dot (p ∷ ps) h = elim (Bool-cases (is_dot_dot p)) [
  | inl e ↦ absurd (h (subst (λ q. Member q (p ∷ ps)) (is_dot_dot-≡ p e) here))
  | inr e ↦ rw (e, no-dot_dot ps (λ m. h (there m))) refl
]

parts-join :
    (s first : Text) (others : List Text)
    → parts s ≡ first ∷ others
    → parts (join (first ∷ others)) ≡ first ∷ others
unfolding parts
parts-join s first others all =
    let p = λ (q : Text). not (is_empty q || is_dot q) in
    ap (select p)
      (split-join first others (λ r m. (parts-IsName s r (subst (Member r) (sym all) m)).0))
    ∙ ap (select p) (sym all)
    ∙ select-select p (split s)
    ∙ all

normalized-IsCanonical : (s n : Text) → normalize_resource s ≡ ok (some n) → IsCanonical s n
normalized-IsCanonical s n h =
    let x = normalize-some s n h in
    record {
      not_absolute = x.good.not_absolute;
      first = x.first;
      others = x.others;
      same_parts = x.all;
      no_drive = λ m. false≢true (sym x.no_colon ∙ Member-colon x.first m);
      no_escape = λ m. false≢true (
          sym (ap (any is_dot_dot) (sym x.all) ∙ x.good.no_escape)
          ∙ any-true_of_Member is_dot_dot m refl);
      printed = x.joined;
      reads_back = ap parts x.joined ∙ parts-join (cleaned s) x.first x.others x.all;
    }

parts-full : (s first : Text) (others : List Text) → parts s ≡ first ∷ others → is_empty s ≡ false
unfolding parts split select
parts-full [] first others h = cc
parts-full (c ∷ s) first others h = refl

canonical-normalized : (s n : Text) → IsCanonical s n → normalize_resource s ≡ ok (some n)
unfolding normalize_resource
canonical-normalized s n c =
    let full = parts-full (cleaned s) c.first c.others c.same_parts in
    let a : any is_dot_dot (c.first ∷ c.others) ≡ false =
      no-dot_dot (c.first ∷ c.others) c.no_escape in
    let b : colon_in c.first ≡ false = no-colon c.first c.no_drive in
    rw (full, c.not_absolute) (rw c.same_parts (rw (b, a) (ap (λ t. ok (some t)) (sym c.printed))))

-- `_normalize_resource` answers with a text exactly when the given text names a path that is not
-- absolute, is not the directory itself, has no colon in its first part and no part "..", and then
-- it answers with the canonical form of that path: its parts joined by single slashes, which are
-- read back as the same parts.
pub normalized_parts : (s n : Text) → (normalize_resource s ≡ ok (some n)) ↔ IsCanonical s n
normalized_parts s n = (normalized-IsCanonical s n, canonical-normalized s n)
