-- ===== src/Policy/Engine/Verdicts.antt =====
-- Each default rule of orchestrator/policy.py but that of the scopes gives a verdict and never raises.
use claude_router.Prelude.{
  Bool, List, Option, String, [], arith, err, false, none, ok, refl, some, true, ◌∷◌, ◌≡◌,
}
use claude_router.Policy.{
  PolicyEffect, PolicyRequest, PolicyAction, api_request, provider_request, command_execution,
  file_read, file_write, effect_apply, remote_claim,
}
use claude_router.Policy.Deployment.{DeploymentProfile, missing_prerequisites}
use claude_router.Policy.Rules.{
  Callees, Reason, Verdict, api_rule, secret_rule, command_rule, approval_rule, remote_rule,
  of_reference, secret_verdict, on_command, claim_verdict,
}

-- The rule gives a verdict or abstains.
abbrev pub Answered : Verdict → Type 0
Answered v = (x : Option (PolicyEffect × Reason)) × (v ≡ ok x)

abbrev is_answer : Verdict → Bool
is_answer (ok x) = true
is_answer (err e) = false

is_answer-Answered : (v : Verdict) → is_answer v ≡ true → Answered v
is_answer-Answered (ok x) h = (x, refl)
is_answer-Answered (err e) h = cc

pub api_rule-Answered :
    (env : Callees) (r : PolicyRequest) (p : DeploymentProfile) → Answered (api_rule env r p)
unfolding api_rule
api_rule-Answered env r p = is_answer-Answered (api_rule env r p) (ground arith)

of_reference-Answered : (o : Option String) → Answered (of_reference o)
of_reference-Answered o = is_answer-Answered (of_reference o) (answer o)
  where
    answer : (o : Option String) → is_answer (of_reference o) ≡ true
    answer none = refl
    answer (some value) = ground arith

secret_verdict-Answered :
    (env : Callees) (a : PolicyAction) (content reference : Option String)
    → Answered (secret_verdict env a content reference)
secret_verdict-Answered env provider_request content reference = (_, refl)
secret_verdict-Answered env effect_apply none reference = of_reference-Answered reference
secret_verdict-Answered env effect_apply (some content) reference = (_, refl)
secret_verdict-Answered env api_request content reference = of_reference-Answered reference
secret_verdict-Answered env command_execution content reference = of_reference-Answered reference
secret_verdict-Answered env file_read content reference = of_reference-Answered reference
secret_verdict-Answered env file_write content reference = of_reference-Answered reference
secret_verdict-Answered env remote_claim content reference = of_reference-Answered reference

on_command-Answered : (isolated : Bool) (o : Option String) → Answered (on_command isolated o)
on_command-Answered true none = (_, refl)
on_command-Answered false none = (_, refl)
on_command-Answered isolated (some message) = (_, refl)

pub approval_rule-Answered :
    (r : PolicyRequest) (p : DeploymentProfile) → Answered (approval_rule r p)
unfolding approval_rule
approval_rule-Answered r p = is_answer-Answered (approval_rule r p) (ground arith)

claim_verdict-answer :
    (r : PolicyRequest) (p : DeploymentProfile) (missing : List String)
    → is_answer (claim_verdict r p missing) ≡ true
claim_verdict-answer r p (m ∷ missing) = refl
claim_verdict-answer r p [] = ground arith

pub remote_rule-Answered : (r : PolicyRequest) (p : DeploymentProfile) → Answered (remote_rule r p)
unfolding remote_rule
remote_rule-Answered r p =
    is_answer-Answered (remote_rule r p)
      (let rest = claim_verdict-answer r p (missing_prerequisites p) in ground arith)

pub secret_rule-Answered :
    (env : Callees) (r : PolicyRequest) (p : DeploymentProfile) → Answered (secret_rule env r p)
unfolding secret_rule
secret_rule-Answered env r p = secret_verdict-Answered env r.action r.content r.secret_reference

pub command_rule-Answered :
    (env : Callees) (r : PolicyRequest) (p : DeploymentProfile) → Answered (command_rule env r p)
unfolding command_rule
command_rule-Answered env r p = on_command-Answered _ (env.command_error r)
