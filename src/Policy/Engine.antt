-- ===== src/Policy/Engine.antt =====
-- PolicyEngine of orchestrator/policy.py: the rules that apply, and the decision from what they say. The audit
-- sink is called with the decision and changes nothing of it.
pub mod Decisions
pub mod Access
pub mod Verdicts
pub mod Answers
use claude_router.Prelude.{
  Bool, List, Option, Result, String, [], any, false, if◌then◌else◌, map, none, not, ok, raise_if,
  some, true, ◌>>=◌, ◌>>◌, ◌∷◌,
}
use claude_router.Policy.{
  PolicyAction, api_request, provider_request, command_execution, file_read, file_write,
  effect_apply, remote_claim, PolicyEffect, allow, deny, require_approval, PolicyRequest, Error,
  permission_error,
}
use claude_router.Policy.Deployment.{DeploymentProfile}
use claude_router.Policy.Rules.{
  Callees, Reason, reason, Evaluator, api_rule, secret_rule, command_rule, scope_rule,
  approval_rule, remote_rule,
}

-- `actions` is the test of membership
pub record PolicyRule : Type 0 where
  pub name : String
  pub actions : PolicyAction → Bool
  pub evaluator : Evaluator

pub record PolicyDecision : Type 0 where
  pub effect : PolicyEffect
  pub reasons : List Reason
  pub matched_rules : List String

pub record Outcome : Type 0 where
  pub rule : String
  pub effect : PolicyEffect
  pub why : Reason

abbrev pub is_allow : PolicyEffect → Bool
is_allow allow = true
is_allow _ = false

abbrev pub is_deny : PolicyEffect → Bool
is_deny deny = true
is_deny _ = false

abbrev pub is_require_approval : PolicyEffect → Bool
is_require_approval require_approval = true
is_require_approval _ = false

abbrev pub noted : String → Option (PolicyEffect × Reason) → List Outcome → List Outcome
noted name none outcomes = outcomes
noted name (some (effect, why)) outcomes =
    record { rule = name; effect = effect; why = why } ∷ outcomes

-- The loop of `evaluate`.
unfoldable pub outcomes :
    List PolicyRule → PolicyRequest → DeploymentProfile → Result Error (List Outcome)
outcomes [] r profile = ok []
outcomes (rule ∷ rules) r profile =
    let rest = outcomes rules r profile in
    if rule.actions r.action
    then (do outcome ← rule.evaluator r profile; others ← rest; ok (noted rule.name outcome others))
    else rest

abbrev pub strongest : List Outcome → PolicyEffect
strongest os =
    if any (λ (o : Outcome). is_deny o.effect) os
    then deny
    else if any (λ (o : Outcome). is_require_approval o.effect) os
    then require_approval
    else allow

unfoldable pub decide : List Outcome → PolicyDecision
unfolding any
decide [] = record {
  effect = deny;
  reasons = reason "no_policy_rule_allows_action" ∷ [];
  matched_rules = [];
}
decide (o ∷ os) = record {
  effect = strongest (o ∷ os);
  reasons = map (λ (x : Outcome). x.why) (o ∷ os);
  matched_rules = map (λ (x : Outcome). x.rule) (o ∷ os);
}

-- `evaluate`
unfoldable pub evaluate :
    List PolicyRule → PolicyRequest → DeploymentProfile → Result Error PolicyDecision
unfolding outcomes decide
evaluate rules r profile = do os ← outcomes rules r profile; ok (decide os)

-- `require`
unfoldable pub require :
    List PolicyRule → PolicyRequest → DeploymentProfile → Result Error PolicyDecision
unfolding evaluate
require rules r profile = do
  decision ← evaluate rules r profile
  raise_if (not (is_allow decision.effect)) permission_error
  ok decision

abbrev pub is_api : PolicyAction → Bool
is_api api_request = true
is_api _ = false

abbrev pub sees_secrets : PolicyAction → Bool
sees_secrets provider_request = true
sees_secrets effect_apply = true
sees_secrets remote_claim = true
sees_secrets _ = false

abbrev pub is_command : PolicyAction → Bool
is_command command_execution = true
is_command _ = false

abbrev pub is_scoped : PolicyAction → Bool
is_scoped file_read = true
is_scoped file_write = true
is_scoped effect_apply = true
is_scoped _ = false

abbrev pub is_write : PolicyAction → Bool
is_write file_write = true
is_write effect_apply = true
is_write _ = false

abbrev pub is_claim : PolicyAction → Bool
is_claim remote_claim = true
is_claim _ = false

abbrev pub rule_of : String → (PolicyAction → Bool) → Evaluator → PolicyRule
rule_of name actions evaluator = record { name = name; actions = actions; evaluator = evaluator }

-- `DEFAULT_RULES`
abbrev pub default_rules : Callees → List PolicyRule
default_rules env =
    rule_of "api_session_origin" is_api (api_rule env)
    ∷ rule_of "secret_boundary" sees_secrets (secret_rule env)
    ∷ rule_of "sandbox_command" is_command (command_rule env)
    ∷ rule_of "declared_scope" is_scoped scope_rule
    ∷ rule_of "approval_and_risk" is_write approval_rule
    ∷ rule_of "remote_activation" is_claim remote_rule
    ∷ []
