-- ===== src/Remediation/Choice.antt =====
-- Which strategy is chosen.
use claude_router.Prelude.{
  All, Bool, Bool-cases, List, Option-cases, String, [], ap, arith, false, find, find-none-All, inl,
  inr, is_in, none, refl, some, some_inj, subst, true, ◌++◌, ◌∷◌, ◌≡◌, ◌⊎◌,
}
use claude_router.Remediation.{
  Policy, RecoveryState, Selection, allowed, tried, selection, advance_remediation, state_of,
  Strategy,
}

pub allowed-parts :
    (automatic_only : Bool) (attempted : List String) (c : Strategy)
    → allowed automatic_only attempted c ≡ true
    → (is_in c.name attempted ≡ false) × (automatic_only ≡ true → c.automatic ≡ true)
unfolding allowed
allowed-parts automatic_only attempted c h = ground arith

-- `c` is the first strategy of the policy that is allowed and was not tried.
pub record FirstAllowed (policy : Policy) (automatic_only : Bool) (attempted : List String)
    (c : Strategy) : Type 0 where
  pub earlier : List Strategy
  pub later : List Strategy
  pub listed : policy.strategies ≡ earlier ++ c ∷ later
  pub untried : is_in c.name attempted ≡ false
  pub automatic : automatic_only ≡ true → c.automatic ≡ true
  pub none_before : All (λ s. allowed automatic_only attempted s ≡ false) earlier

find-split {ℓ} :
    {A : Type ℓ} (p : A → Bool) (xs : List A) {x : A}
    → find p xs ≡ some x
    → (earlier : List A) × (later : List A) × (xs ≡ earlier ++ x ∷ later)
      × (p x ≡ true)
      × All (λ y. p y ≡ false) earlier
unfolding find
find-split p [] h = cc
find-split p (y ∷ ys) {x} h = elim (Bool-cases (p y)) [
  | inl e ↦
      let here_it : y ≡ x = some_inj y x (rw e at h) in
      ([], ys, ap (λ z. z ∷ ys) here_it, subst (λ z. p z ≡ true) here_it e, tt)
  | inr e ↦
      let (earlier, later, listed, passes, fail) = find-split p ys (rw e at h) in
      (y ∷ earlier, later, ap (λ zs. y ∷ zs) listed, passes, (e, fail))
]

-- Without a bypass for a cancellation, the first strategy of the policy that is allowed and was not
-- tried is chosen, with the category and digest it was asked for, and its name is added to the
-- tried ones. Nothing is chosen exactly when the policy is bypassed or no strategy is allowed.
pub advance_remediation_lem :
    (policy : Policy) (digest : String) (state : RecoveryState) (automatic_only : Bool)
    → ((s : Selection) × (advance_remediation policy digest state automatic_only ≡ some s)
        × (policy.cancellation_bypass ≡ false)
        × FirstAllowed policy automatic_only (tried digest state) s.strategy
        × (s.category ≡ policy.category)
        × (s.digest ≡ digest)
        × (s.state ≡ state_of digest (tried digest state ++ s.strategy.name ∷ [])))
      ⊎ ((advance_remediation policy digest state automatic_only ≡ none)
          × ((policy.cancellation_bypass ≡ true)
              ⊎ All (λ c. allowed automatic_only (tried digest state) c ≡ false) policy.strategies))
unfolding advance_remediation
advance_remediation_lem policy digest state automatic_only =
    let p = allowed automatic_only (tried digest state) in
    elim (Bool-cases policy.cancellation_bypass) [
      | inl b ↦ inr (rw b refl, inl b)
      | inr b ↦ elim (Option-cases (find p policy.strategies)) [
        | inl f ↦ inr (rw b (rw f refl), inr (find-none-All p policy.strategies f))
        | inr (c, f) ↦
            let (earlier, later, listed, passes, fail) = find-split p policy.strategies f in
            let (untried, automatic) = allowed-parts automatic_only (tried digest state) c passes in
            inl (
              selection policy digest (tried digest state) c,
              rw b (rw f refl),
              b,
              record {
                earlier = earlier;
                later = later;
                listed = listed;
                untried = untried;
                automatic = automatic;
                none_before = fail;
              },
              refl,
              refl,
              refl,
            )
      ]
    ]
