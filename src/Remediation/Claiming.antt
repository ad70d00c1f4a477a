-- ===== src/Remediation/Claiming.antt =====
-- The loop that reserves a strategy ends, and reserves an untried one.
use mathlib.Core.Bool.{false≢true}
use claude_router.Prelude.{
  ==_refl, ==→≡, Bool, Bool-cases, List, Member, Option, Option-cases, String, [], any, ap, arith,
  count, false, find, find-Member, inl, inr, is_in, length, none, not_true, refl, some, suc, sym,
  true, zero, ℕ, ◌++◌, ◌<◌, ◌==◌, ◌||◌, ◌∙◌, ◌∷◌, ◌≡◌, ◌≤◌, ◌⊎◌, nat_eq, string_eq, option_eq,
}
use claude_router.Remediation.Choice.{allowed-parts}
use claude_router.Remediation.{
  selection, Strategy, allowed, Policy, Selection, advance_remediation, choose_remediation,
  claim_next, tried, without_repeats, claim_remediation_strategy, state_of,
}

count_le {ℓ} :
    {A : Type ℓ} (p q : A → Bool) (xs : List A)
    → ((x : A) → q x ≡ true → p x ≡ true)
    → count q xs ≤ count p xs
unfolding count
count_le p q [] f = omega arith
count_le p q (x ∷ xs) f = ground (arith, count_le p q xs f, f x)

-- A narrower test that refuses the first element found counts fewer.
count_lt {ℓ} :
    {A : Type ℓ} (p q : A → Bool) (xs : List A) {c : A}
    → ((x : A) → q x ≡ true → p x ≡ true)
    → find p xs ≡ some c
    → q c ≡ false
    → count q xs < count p xs
unfolding count find
count_lt p q [] f h e = cc
count_lt p q (x ∷ xs) {c} f h e = elim (Bool-cases (p x)) [
  | inl t ↦
      let same_c : x ≡ c = ground arith in
      let no : q x ≡ false = ap q same_c ∙ e in rw t (rw no (omega (arith, count_le p q xs f)))
  | inr t ↦
      let no : q x ≡ false = not_true (q x) (λ y. false≢true (sym t ∙ f x y)) in
      rw t (rw no (count_lt p q xs f (rw t at h) e))
]

is_in-append : (n m : String) (ns : List String) → is_in n (ns ++ m ∷ []) ≡ (is_in n ns || m == n)
unfolding is_in any
is_in-append n m [] = ground arith
is_in-append n m (k ∷ ks) = ground (arith, is_in-append n m ks)

fewer_allowed :
    (automatic_only : Bool) (attempted : List String) (xs : List Strategy) (c : Strategy)
    → find (allowed automatic_only attempted) xs ≡ some c
    → count (allowed automatic_only (attempted ++ c.name ∷ [])) xs
      < count (allowed automatic_only attempted) xs
fewer_allowed automatic_only attempted xs c h =
    count_lt (allowed automatic_only attempted) (allowed automatic_only (attempted ++ c.name ∷ []))
      xs {c = c}
      (λ x e. let i = is_in-append x.name c.name attempted in unfold allowed in ground arith) h
      (let i = is_in-append c.name c.name attempted in
        let r = ==_refl c.name in unfold allowed in ground arith)

count-length {ℓ} : {A : Type ℓ} (p : A → Bool) (xs : List A) → count p xs ≤ length xs
unfolding count
count-length p [] = omega arith
count-length p (x ∷ xs) = ground (arith, count-length p xs)

pub is_in-without_repeats :
    (n : String) (seen ns : List String)
    → (is_in n seen || is_in n (without_repeats seen ns)) ≡ (is_in n seen || is_in n ns)
unfolding is_in any without_repeats
is_in-without_repeats n seen [] = refl
is_in-without_repeats n seen (k ∷ ks) = elim (Bool-cases (is_in k seen)) [
  | inl t ↦
      let skip = is_in-without_repeats n seen ks in
      rw t (elim (Bool-cases (k == n)) [
        | inl e ↦
            let there_already : is_in n seen ≡ true =
              ap (λ x. is_in x seen) (sym (==→≡ k n e)) ∙ t in
            ground arith
        | inr e ↦ ground arith
      ])
  | inr t ↦ let go = is_in-without_repeats n (k ∷ seen) ks in rw t (ground arith)
]

pub tried-same :
    (digest : String) (attempted : List String)
    → tried digest (state_of digest attempted) ≡ attempted
unfolding tried
tried-same digest attempted = let e = ==_refl digest in ground arith

choose-cases :
    (policy : Policy) (digest : String) (attempted : List String) (automatic_only : Bool)
    → (choose_remediation policy digest attempted automatic_only ≡ none)
      ⊎ ((s : Selection) × (choose_remediation policy digest attempted automatic_only ≡ some s)
          × (find (allowed automatic_only attempted) policy.strategies ≡ some s.strategy))
unfolding choose_remediation advance_remediation
choose-cases policy digest attempted automatic_only = elim (Bool-cases policy.cancellation_bypass) [
  | inl b ↦ inl (rw b refl)
  | inr b ↦
      elim (Option-cases (
        find (allowed automatic_only (tried digest (state_of digest attempted)))
          policy.strategies)) [
            | inl f ↦ inl (rw b (rw f refl))
            | inr (c, f) ↦ inr (
              selection policy digest (tried digest (state_of digest attempted)) c,
              rw b (rw f refl),
              rw (tried-same digest attempted) at f,
            )
          ]
]

module _ {Store Row : Type 0} (callback : String → Store → Option Row × Store) (policy : Policy)
    (digest : String) (automatic_only : Bool) where
  -- A loop that ended: with no strategy left, or with a reserved strategy of the policy that is not
  -- among the attempted ones.
  abbrev pub Ended : List String → Option (Option (Selection × Row) × Store) → Type 0
  Ended attempted run =
      (later : Store) × ((run ≡ some (none, later))
        ⊎ ((s : Selection) × (row : Row) × (run ≡ some (some (s, row), later))
            × Member s.strategy policy.strategies
            × (is_in s.strategy.name attempted ≡ false)
            × (automatic_only ≡ true → s.strategy.automatic ≡ true)))

  widen :
      {run : Option (Option (Selection × Row) × Store)} (attempted : List String) (n : String)
      → Ended (attempted ++ n ∷ []) run
      → Ended attempted run
  widen attempted n (later, inl e) = (later, inl e)
  widen attempted n (later, inr (s, row, e, m, new, auto)) =
      let i = is_in-append s.strategy.name n attempted in
      (later, inr (s, row, e, m, ground arith, auto))

  claim_next-Ended :
      (fuel : ℕ) (attempted : List String) (store : Store)
      → count (allowed automatic_only attempted) policy.strategies < fuel
      → Ended attempted (claim_next callback fuel policy digest attempted automatic_only store)
  unfolding claim_next
  claim_next-Ended zero attempted store enough = absurd (omega arith)
  claim_next-Ended (suc fuel) attempted store enough =
      elim (choose-cases policy digest attempted automatic_only) [
        | inl n ↦ (store, inl (rw (n, claim_next) refl))
        | inr (s, e, f) ↦
            let (m, good) = find-Member (allowed automatic_only attempted) policy.strategies f in
            let (new, auto) = allowed-parts automatic_only attempted s.strategy good in
            elim (Option-cases (callback s.strategy.name store).0) [
              | inr (row, r) ↦ (
                (callback s.strategy.name store).1,
                inr (s, row, rw (e, claim_next) (rw (r, claim_next) refl), m, new, auto),
              )
              | inl r ↦
                  let less =
                    fewer_allowed automatic_only attempted policy.strategies s.strategy f in
                  let rest =
                    claim_next-Ended fuel (attempted ++ s.strategy.name ∷ [])
                      (callback s.strategy.name store).1 (omega arith) in
                  rw (e, claim_next) (rw (r, claim_next) (widen attempted s.strategy.name rest))
            ]
      ]

  -- With more fuel than the policy has strategies the loop ends, whatever the repository answers:
  -- it returns nothing, or a strategy of the policy that was not attempted before, which may be
  -- used automatically if that was asked, with the record of its reservation.
  pub claim_remediation_strategy-Ended :
      (fuel : ℕ) (attempted : List String) (store : Store)
      → length policy.strategies < fuel
      → Ended attempted
          (claim_remediation_strategy callback fuel policy digest attempted automatic_only store)
  unfolding claim_remediation_strategy is_in
  claim_remediation_strategy-Ended fuel attempted store enough =
      let few =
        count-length (allowed automatic_only (without_repeats [] attempted)) policy.strategies in
      let (later, outcome) =
        claim_next-Ended fuel (without_repeats [] attempted) store (omega arith) in
      elim outcome [
        | inl e ↦ (later, inl e)
        | inr (s, row, e, m, new, auto) ↦
            let i = is_in-without_repeats s.strategy.name [] attempted in
            (later, inr (s, row, e, m, sym i ∙ new, auto))
      ]
