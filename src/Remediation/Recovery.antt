-- ===== src/Remediation/Recovery.antt =====
-- `recovery_state_from_attempts` of orchestrator/retry_policy.py: the state after a restart.
use mathlib.Core.Bool.{false≢true}
use mathlib.Core.Option
use claude_router.Prelude.{
  ==_refl, Bool, List, Member, Option, String, [], any, ap, arith, false, here, if◌then◌else◌, inl,
  inr, is_in, none, not, refl, some, some_inj, sym, there, true, ≡→==, ◌&&◌, ◌==◌, ◌∙◌, ◌∷◌, ◌≡◌,
  ◌≢◌, nat_eq, string_eq, option_eq,
}
use claude_router.Remediation.{
  Policy, RecoveryState, Selection, tried, without_repeats, advance_remediation,
}
use claude_router.Remediation.Choice.{advance_remediation_lem}
use claude_router.Remediation.Claiming.{is_in-without_repeats, tried-same}

-- The two keys of an attempt record that are read.
pub record Attempt : Type 0 where
  pub strategy : Option String
  pub failure_signature : Option String

-- The generator: the names of the attempts at this signature.
unfoldable pub names_at : String → List Attempt → List String
names_at digest [] = []
names_at digest (a ∷ attempts) =
    let rest = names_at digest attempts in
    if Option.get_or a.failure_signature "" == digest && not (Option.get_or a.strategy "" == "")
    then Option.get_or a.strategy "" ∷ rest
    else rest

unfoldable pub recovery_state_from_attempts : List Attempt → String → RecoveryState
recovery_state_from_attempts attempts digest = record {
  signature = digest;
  attempted_strategies = without_repeats [] (names_at digest attempts);
}

is_in-names_at :
    (digest name : String) (attempts : List Attempt) (a : Attempt)
    → Member a attempts
    → Option.get_or a.failure_signature "" ≡ digest
    → a.strategy ≡ some name
    → (name == "") ≡ false
    → is_in name (names_at digest attempts) ≡ true
unfolding names_at is_in any
is_in-names_at digest name [] a m sig strat filled = elim m [ ]
is_in-names_at digest name (b ∷ attempts) a here sig strat filled =
    let named : Option.get_or b.strategy "" ≡ name = rw strat refl in
    rw named (
      rw (≡→== (Option.get_or b.failure_signature "") digest sig)
        (rw filled (rw (==_refl name) refl)))
is_in-names_at digest name (b ∷ attempts) a (there m) sig strat filled =
    let rest = is_in-names_at digest name attempts a m sig strat filled in ground arith

is_in-once : (n : String) (ns : List String) → is_in n (without_repeats [] ns) ≡ is_in n ns
unfolding is_in
is_in-once n ns = is_in-without_repeats n [] ns

none-some {ℓ} : {A : Type ℓ} {x : A} → ¬ (none ≡ some x)
none-some h = cc

chosen_is_new :
    (policy : Policy) (digest : String) (state : RecoveryState) (automatic_only : Bool)
    (s : Selection)
    → advance_remediation policy digest state automatic_only ≡ some s
    → is_in s.strategy.name (tried digest state) ≡ false
chosen_is_new policy digest state automatic_only s h =
    elim (advance_remediation_lem policy digest state automatic_only) [
      | inl (c, e, live, first, cat, dig, st) ↦
          let same_s : c ≡ s = some_inj c s (sym e ∙ h) in
          ap (λ x. is_in x.strategy.name (tried digest state)) (sym same_s) ∙ first.untried
      | inr (e, why) ↦ absurd (none-some (sym e ∙ h))
    ]

-- After the state has been rebuilt from the recorded attempts, no strategy that was attempted at
-- the same signature is chosen again.
pub recovered_never_repeats :
    (policy : Policy) (digest : String) (automatic_only : Bool) (attempts : List Attempt)
    (a : Attempt) (name : String) (s : Selection)
    → Member a attempts
    → Option.get_or a.failure_signature "" ≡ digest
    → a.strategy ≡ some name
    → (name == "") ≡ false
    → advance_remediation policy digest
        (recovery_state_from_attempts attempts digest)
        automatic_only
      ≡ some s
    → s.strategy.name ≢ name
unfolding recovery_state_from_attempts
recovered_never_repeats policy digest automatic_only attempts a name s m sig strat filled h p =
    let new =
      chosen_is_new policy digest (recovery_state_from_attempts attempts digest) automatic_only s
        h in
    let old = is_in-names_at digest name attempts a m sig strat filled in
    let once = is_in-once name (names_at digest attempts) in
    let all = tried-same digest (without_repeats [] (names_at digest attempts)) in
    false≢true (
      sym new
      ∙ ap (λ x. is_in x (tried digest (recovery_state_from_attempts attempts digest))) p
      ∙ ap (is_in name) all
      ∙ once
      ∙ old)
