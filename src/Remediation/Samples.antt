-- ===== src/Remediation/Samples.antt =====
-- Tests and witnesses: three strategies, one of them reserved by another process.
use claude_router.Prelude.{
  All, List, Option, String, [], any, arith, false, here, if◌then◌else◌, is_in, none, refl, some,
  there, true, ◌++◌, ◌==◌, ◌∷◌, ◌≡◌, ◌≢◌, ◌⊎◌, nat_eq, string_eq, option_eq,
}
use claude_router.Remediation.{
  Policy, RecoveryState, Selection, allowed, tried, advance_remediation, choose_remediation,
  claim_next, claim_remediation_strategy, without_repeats, selection,
}
use claude_router.Remediation.Choice.{FirstAllowed, advance_remediation_lem}
use claude_router.Remediation.Recovery.{
  Attempt, names_at, recovery_state_from_attempts, recovered_never_repeats,
}
use claude_router.Remediation.Claiming.{Ended, claim_remediation_strategy-Ended}

abbrev policy : Policy
policy = record {
  category = "patch";
  strategies =
      record { name = "reread"; automatic = true }
      ∷ record { name = "split"; automatic = true }
      ∷ record { name = "ask"; automatic = false }
      ∷ [];
  cancellation_bypass = false;
}

-- A repository that keeps the reserved names and refuses a name that it has.
abbrev reserve : String → List String → Option String × List String
reserve name names = if any (λ n. n == name) names then (none, names) else (some name, name ∷ names)

abbrev second_choice : Selection
second_choice = selection policy "d" ("reread" ∷ []) (record { name = "split"; automatic = true })

lost_race :
    claim_remediation_strategy reserve 4 policy "d" [] true ("reread" ∷ [])
    ≡ some (some (second_choice, "split"), "split" ∷ "reread" ∷ [])
unfolding claim_remediation_strategy claim_next choose_remediation advance_remediation tried allowed
    is_in without_repeats
lost_race = refl

exhausted :
    claim_remediation_strategy reserve 4 policy "d" ("split" ∷ "split" ∷ "reread" ∷ []) true []
    ≡ some (none, [])
unfolding claim_remediation_strategy claim_next choose_remediation advance_remediation tried allowed
    is_in without_repeats
exhausted = refl

claim_remediation_strategy-Ended_example :
    Ended reserve policy "d" true []
      (claim_remediation_strategy reserve 4 policy "d" [] true ("reread" ∷ []))
claim_remediation_strategy-Ended_example =
    claim_remediation_strategy-Ended reserve policy "d" true 4 [] ("reread" ∷ []) (omega arith)

abbrev failed_once : RecoveryState
failed_once = record { signature = "d"; attempted_strategies = "reread" ∷ [] }

advance_remediation_lem_example :
    ((s : Selection) × (advance_remediation policy "d" failed_once true ≡ some s)
      × (false ≡ false)
      × FirstAllowed policy true (tried "d" failed_once) s.strategy
      × (s.category ≡ "patch")
      × (s.digest ≡ "d")
      × (s.state ≡ record {
        signature = "d";
        attempted_strategies = tried "d" failed_once ++ s.strategy.name ∷ [];
      }))
    ⊎ ((advance_remediation policy "d" failed_once true ≡ none)
        × ((policy.cancellation_bypass ≡ true)
            ⊎ All (λ c. allowed true (tried "d" failed_once) c ≡ false) policy.strategies))
advance_remediation_lem_example = advance_remediation_lem policy "d" failed_once true

abbrev recorded : List Attempt
recorded =
    record { strategy = some "split"; failure_signature = some "other" }
    ∷ record { strategy = some "reread"; failure_signature = some "d" }
    ∷ []

rebuilt :
    advance_remediation policy "d" (recovery_state_from_attempts recorded "d") true
    ≡ some second_choice
unfolding recovery_state_from_attempts names_at without_repeats advance_remediation tried allowed
    is_in
rebuilt = refl

recovered_never_repeats_example : second_choice.strategy.name ≢ "reread"
recovered_never_repeats_example =
    recovered_never_repeats policy "d" true recorded
      (record { strategy = some "reread"; failure_signature = some "d" }) "reread" second_choice
      (there here) refl refl refl rebuilt
