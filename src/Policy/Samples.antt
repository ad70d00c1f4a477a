-- ===== src/Policy/Samples.antt =====
-- A write inside the scope "src/**", and requests that are refused: tests and witnesses.
use claude_router.Prelude.{
  Member, String, [], codes, err, false, none, ok, refl, some, true, ◌↔◌, ◌∷◌, ◌≡◌, ◌⊎◌,
}
use claude_router.Policy.{
  PolicyRequest, PolicyAction, file_read, file_write, allow, high, risk_based, index_error,
}
use claude_router.Policy.Paths.{normalize_resource}
use claude_router.Policy.Paths.Normal.{normalized_parts, IsCanonical}
use claude_router.Policy.Paths.Containment.{IsUnder, scope_text}
use claude_router.Policy.Deployment.{DeploymentProfile, local}
use claude_router.Policy.Rules.{scope_rule, approval_rule, Callees, reason}
use claude_router.Policy.Engine.{PolicyDecision, default_rules, evaluate, is_allow, is_scoped}
use claude_router.Policy.Engine.Decisions.{Approves, evaluate_lem}
use claude_router.Policy.Engine.Access.{allowed_access-IsUnder}
use claude_router.Policy.Engine.Answers.{request_is_answered_or_raises}
use claude_router.Policy.Paths.Stray.{IsStray, HasStray}

abbrev pub env : Callees
env = record {
  casefold = λ s. s;
  upper = λ s. s;
  command_error = λ r. none;
  finds_secrets = λ s. false;
}

abbrev pub on_laptop : DeploymentProfile
on_laptop = record {
  mode = local;
  auth_mode = "";
  namespace = "";
  encrypted_secret_store = "";
  rbac_policy = "";
  audit_sink = "";
  isolation_backend = "";
  isolation_attestation = "";
  tenant_claim = "";
}

abbrev request : PolicyAction → String → PolicyRequest
request action resource = record {
  action = action;
  resource = resource;
  subject = record {
    actor_id = "local-operator";
    roles = "operator" ∷ [];
    namespace = "local";
    authenticated = true;
  };
  method = "";
  host = "";
  origin = "";
  allowed_hosts = [];
  allowed_origins = [];
  session_valid = false;
  csrf_valid = false;
  content = none;
  secret_reference = none;
  command = [];
  requests_isolation = false;
  has_isolation = false;
  scopes = "src/**" ∷ [];
  risk_level = high;
  approval_policy = risk_based;
  approval_status = some "approved";
}

abbrev write : PolicyRequest
write = request file_write "src/app/main.py"

abbrev accepted : PolicyDecision
accepted = record {
  effect = allow;
  reasons = reason "resource_within_declared_scope" ∷ reason "risk_and_approval_satisfied" ∷ [];
  matched_rules = "declared_scope" ∷ "approval_and_risk" ∷ [];
}

is_accepted : evaluate (default_rules env) write on_laptop ≡ ok accepted
unfolding evaluate scope_rule approval_rule
is_accepted = refl

evaluate_lem_example :
    (is_allow accepted.effect ≡ true) ↔ Approves write on_laptop (default_rules env)
evaluate_lem_example = evaluate_lem write on_laptop (default_rules env) accepted is_accepted

allowed_access-IsUnder_example :
    (raw : String) × Member raw ("src/**" ∷ []) × IsUnder (codes "src/app/main.py") (scope_text raw)
allowed_access-IsUnder_example =
    allowed_access-IsUnder env write on_laptop accepted is_accepted refl refl

dot_is_refused : evaluate (default_rules env) (request file_read ".") on_laptop ≡ err index_error
unfolding evaluate scope_rule
dot_is_refused = refl

request_is_answered_or_raises_example :
    ((d : PolicyDecision) × (evaluate (default_rules env) (request file_read ".") on_laptop ≡ ok d)
      × ¬ ((is_scoped file_read ≡ true) × ¬ (write.scopes ≡ []) × IsStray (codes ".")))
    ⊎ ((evaluate (default_rules env) (request file_read ".") on_laptop ≡ err index_error)
        × (is_scoped file_read ≡ true)
        × ¬ (write.scopes ≡ [])
        × (IsStray (codes ".") ⊎ HasStray ("src/**" ∷ [])))
request_is_answered_or_raises_example =
    request_is_answered_or_raises env (request file_read ".") on_laptop

-- "./src//app" is the path "src/app".
normalized_parts_example :
    (normalize_resource (codes "./src//app") ≡ ok (some (codes "src/app")))
    ↔ IsCanonical (codes "./src//app") (codes "src/app")
normalized_parts_example = normalized_parts (codes "./src//app") (codes "src/app")

app-IsCanonical : IsCanonical (codes "./src//app") (codes "src/app")
app-IsCanonical =
    (normalized_parts (codes "./src//app") (codes "src/app")).0 (unfold normalize_resource in refl)
