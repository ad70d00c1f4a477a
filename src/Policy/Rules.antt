-- ===== src/Policy/Rules.antt =====
-- The default rules of orchestrator/policy.py. The sandbox's check of a command and the scan for secrets are
-- arguments, with the case mappings of `str`.
use claude_router.Prelude.{
  Bool, List, Option, Result, String, [], any, codes, false, if◌then◌else◌, is_in, map, nat_beq,
  none, not, ok, some, true, ◌&&◌, ◌==◌, ◌>>=◌, ◌||◌, ◌∷◌, nat_eq, string_eq, option_eq,
}
use claude_router.Policy.{
  PolicyAction, provider_request, effect_apply, PolicyEffect, allow, deny, require_approval,
  RiskLevel, high, critical, ApprovalPolicy, always, risk_based, PolicyRequest, Error,
}
use claude_router.Policy.Paths.{in_scope, rstrip, slash, text_beq}
use claude_router.Policy.Deployment.{
  DeploymentProfile, is_remote_mode, missing_prerequisites, is_encrypted_secret_reference,
}

-- `command_error` is the message with which `CommandPolicy.validate` refuses a request's command, if it does.
pub record Callees : Type 0 where
  pub casefold : String → String
  pub upper : String → String
  pub command_error : PolicyRequest → Option String
  pub finds_secrets : String → Bool

-- A reason, the last two with the text that follows "command_policy:" or "remote_prerequisites:"
pub data Reason : Type 0 where
  reason : String → Reason
  command_policy : String → Reason
  remote_prerequisites : List String → Reason

abbrev pub Verdict : Type 0
Verdict = Result Error (Option (PolicyEffect × Reason))

abbrev pub answers : PolicyEffect → String → Verdict
answers effect why = ok (some (effect, reason why))

abbrev pub Evaluator : Type 0
Evaluator = PolicyRequest → DeploymentProfile → Verdict

abbrev is_unsafe : String → Bool
is_unsafe method = is_in method ("POST" ∷ "PUT" ∷ "PATCH" ∷ "DELETE" ∷ [])

-- `_api_rule`
unfoldable pub api_rule : Callees → Evaluator
unfolding is_in any rstrip
api_rule env r profile =
    let origin = rstrip (λ c. nat_beq c slash) (codes r.origin) in
    if not (is_in (env.casefold r.host) (map env.casefold r.allowed_hosts))
    then answers deny "host_not_allowed"
    else if not (r.origin == "")
        && not (any (λ (o : String). text_beq origin (codes o)) r.allowed_origins)
    then answers deny "origin_not_allowed"
    else if is_unsafe (env.upper r.method) && (not r.session_valid || not r.csrf_valid)
    then answers deny "session_or_csrf_invalid"
    else answers allow "local_api_boundary_satisfied"

abbrev pub of_reference : Option String → Verdict
of_reference none = answers allow "secret_boundary_satisfied"
of_reference (some value) =
    if not (is_encrypted_secret_reference value)
    then answers deny "unencrypted_secret_reference"
    else answers allow "secret_boundary_satisfied"

abbrev pub of_content : Callees → Option String → Option String → Verdict
of_content env none reference = of_reference reference
of_content env (some content) reference =
    answers allow
      (if env.finds_secrets content then "secret_scan_audit_only" else "secret_boundary_satisfied")

abbrev pub secret_verdict : Callees → PolicyAction → Option String → Option String → Verdict
secret_verdict env provider_request content reference = answers allow "provider_content_passthrough"
secret_verdict env effect_apply content reference = of_content env content reference
secret_verdict env _ content reference = of_reference reference

-- `_secret_rule`
unfoldable pub secret_rule : Callees → Evaluator
unfolding is_encrypted_secret_reference
secret_rule env r profile = secret_verdict env r.action r.content r.secret_reference

abbrev pub on_command : Bool → Option String → Verdict
on_command isolated (some message) = ok (some (deny, command_policy message))
on_command isolated none =
    if isolated
    then answers allow "sandbox_command_allowed"
    else answers deny "requested_isolation_not_achieved"

-- `_command_rule`
unfoldable pub command_rule : Callees → Evaluator
command_rule env r profile =
    on_command (not r.requests_isolation || r.has_isolation) (env.command_error r)

abbrev pub scope_verdict : Bool → Verdict
scope_verdict true = answers allow "resource_within_declared_scope"
scope_verdict false = answers deny "resource_outside_declared_scope"

abbrev pub in_scope_if_any : String → List String → Result Error Bool
in_scope_if_any resource [] = ok false
in_scope_if_any resource (s ∷ scopes) = in_scope resource (s ∷ scopes)

-- `_scope_rule`
unfoldable pub scope_rule : Evaluator
unfolding in_scope
scope_rule r profile = in_scope_if_any r.resource r.scopes >>= scope_verdict

abbrev pub is_risky : RiskLevel → Bool
is_risky high = true
is_risky critical = true
is_risky _ = false

abbrev pub needs_approval : ApprovalPolicy → RiskLevel → Bool
needs_approval always risk = true
needs_approval risk_based risk = is_risky risk
needs_approval _ risk = false

abbrev pub has_status : String → Option String → Bool
has_status status none = false
has_status status (some s) = s == status

-- `_approval_rule`
unfoldable pub approval_rule : Evaluator
approval_rule r profile =
    if has_status "rejected" r.approval_status
    then answers deny "approval_rejected"
    else if needs_approval r.approval_policy r.risk_level
        && not (has_status "approved" r.approval_status)
    then answers require_approval "risk_requires_approval"
    else answers allow "risk_and_approval_satisfied"

abbrev pub claim_verdict : PolicyRequest → DeploymentProfile → List String → Verdict
claim_verdict r profile (m ∷ missing) = ok (some (deny, remote_prerequisites (m ∷ missing)))
claim_verdict r profile [] =
    if not (r.subject.namespace == profile.namespace)
    then answers deny "namespace_mismatch"
    else if not r.subject.authenticated
    then answers deny "actor_not_authenticated"
    else if not
        (any (λ (role : String). is_in role ("admin" ∷ "operator" ∷ "worker" ∷ [])) r.subject.roles)
    then answers deny "rbac_role_not_permitted"
    else answers allow "remote_claim_control_plane_allowed"

-- `_remote_rule`
unfoldable pub remote_rule : Evaluator
unfolding missing_prerequisites any is_in
remote_rule r profile =
    if not (is_remote_mode profile.mode)
    then answers deny "remote_mode_not_enabled"
    else claim_verdict r profile (missing_prerequisites profile)
