-- ===== src/Remediation.antt =====
-- The choice of a recovery strategy in orchestrator/retry_policy.py. `policy` is what
-- `policy_for_failure(failure_kind)` returns, `digest` is the signature's digest, and
-- `automatic_only` the keyword argument of that name.
pub mod Choice
pub mod Claiming
pub mod Recovery
pub mod Samples
use claude_router.Prelude.{
  Bool, List, Option, String, [], find, if◌then◌else◌, is_in, none, not, some, suc, zero, ℕ, ◌&&◌,
  ◌++◌, ◌==◌, ◌||◌, ◌∷◌, nat_eq, string_eq, option_eq,
}

-- RemediationStrategy, without the texts for the agent.
pub record Strategy : Type 0 where
  pub name : String
  pub automatic : Bool

-- FailurePolicy, without the failure kinds that it serves.
pub record Policy : Type 0 where
  pub category : String
  pub strategies : List Strategy
  pub cancellation_bypass : Bool

pub record RecoveryState : Type 0 where
  pub signature : String
  pub attempted_strategies : List String

pub record Selection : Type 0 where
  pub category : String
  pub digest : String
  pub strategy : Strategy
  pub state : RecoveryState

-- The filter on the policy's strategies.
unfoldable pub allowed : Bool → List String → Strategy → Bool
allowed automatic_only attempted c =
    not (is_in c.name attempted) && (c.automatic || not automatic_only)

-- The names tried for this signature; another signature starts again.
unfoldable pub tried : String → RecoveryState → List String
tried digest state = if state.signature == digest then state.attempted_strategies else []

abbrev selection : Policy → String → List String → Strategy → Selection
selection policy digest attempted c = record {
  category = policy.category;
  digest = digest;
  strategy = c;
  state = record { signature = digest; attempted_strategies = attempted ++ c.name ∷ [] };
}

unfoldable pub advance_remediation : Policy → String → RecoveryState → Bool → Option Selection
unfolding find
advance_remediation policy digest state automatic_only =
    let attempted = tried digest state in
    if policy.cancellation_bypass
    then none
    else elim (find (allowed automatic_only attempted) policy.strategies) [
      | none ↦ none
      | some c ↦ some (selection policy digest attempted c)
    ]

abbrev state_of : String → List String → RecoveryState
state_of digest attempted = record { signature = digest; attempted_strategies = attempted }

unfoldable pub choose_remediation : Policy → String → List String → Bool → Option Selection
choose_remediation policy digest attempted automatic_only =
    advance_remediation policy digest (state_of digest attempted) automatic_only

-- `list(dict.fromkeys(names))`
unfoldable pub without_repeats : List String → List String → List String
unfolding is_in
without_repeats seen [] = []
without_repeats seen (n ∷ ns) =
    let kept_on = without_repeats (n ∷ seen) ns in
    let passed = without_repeats seen ns in if is_in n seen then passed else n ∷ kept_on

-- `callback` is the reservation hook of the repository object, with its state passed explicitly; its
-- other arguments say for whom the name is reserved and do not change within a run.
module _ {Store Row : Type 0} (callback : String → Store → Option Row × Store) where
  -- The `while True` loop on fuel; the outer `none` is a run that is not over.
  unfoldable pub claim_next :
      ℕ → Policy → String → List String → Bool → Store → Option (Option (Selection × Row) × Store)
  claim_next zero policy digest attempted automatic_only store = none
  claim_next (suc fuel) policy digest attempted automatic_only store =
      elim (choose_remediation policy digest attempted automatic_only) [
        | none ↦ some (none, store)
        | some s ↦
            let (answer, later) = callback s.strategy.name store in
            elim answer [
              | some row ↦ some (some (s, row), later)
              | none ↦
                  claim_next fuel policy digest (attempted ++ s.strategy.name ∷ []) automatic_only
                    later
            ]
      ]

  unfoldable pub claim_remediation_strategy :
      ℕ → Policy → String → List String → Bool → Store → Option (Option (Selection × Row) × Store)
  claim_remediation_strategy fuel policy digest attempted automatic_only store =
      claim_next fuel policy digest (without_repeats [] attempted) automatic_only store
