-- ===== src/Jobs/Execution/Remote.antt =====
-- FencedRemoteClaimBroker of orchestrator/execution.py: a queue whose jobs are claimed from outside, behind the
-- deployment's checks and the policy engine.
use claude_router.Prelude.{
  Bool-cases, List, Option, Result, String, [], append, err, false, if◌then◌else◌, inl, inr, none,
  not, ok, refl, some, true, ℕ, ◌∷◌, ◌≡◌,
}
use claude_router.Policy.{PolicyRequest, remote_claim, low, risk_based, permission_error, deny}
use claude_router.Policy.Deployment.{DeploymentProfile, is_remote_mode, missing_prerequisites}
use claude_router.Policy.Rules.{Callees}
use claude_router.Policy.Engine.{PolicyRule, PolicyDecision, default_rules, evaluate, require}
use claude_router.Policy.Engine.Access.{remote_claim_is_denied}
use claude_router.Policy
use claude_router.Jobs.{Job}
use claude_router.Jobs.Queue
use claude_router.Jobs.Queue.{JobQueue, claim}

pub data Error : Type 0 where
  not_activated : List String → Error  -- RemoteActivationError
  refused : Policy.Error → Error
  of_queue : Queue.Error → Error

pub record FencedRemoteClaimBroker : Type 0 where
  pub deployment : DeploymentProfile
  pub policy : List PolicyRule
  pub lease_ttl : ℕ

abbrev pub activated :
    DeploymentProfile → List PolicyRule → ℕ → List String → Result Error FencedRemoteClaimBroker
activated p policy ttl (m ∷ missing) = err (not_activated (m ∷ missing))
activated p policy ttl [] = ok (record { deployment = p; policy = policy; lease_ttl = ttl })

-- `__init__`
unfoldable pub create :
    DeploymentProfile → List PolicyRule → ℕ → Result Error FencedRemoteClaimBroker
unfolding missing_prerequisites
create p policy ttl =
    if not (is_remote_mode p.mode)
    then err (not_activated ("deployment_mode" ∷ []))
    else activated p policy ttl (missing_prerequisites p)

unfoldable pub claim_request : String → List String → String → DeploymentProfile → PolicyRequest
unfolding append
claim_request worker_id roles secret_reference p = record {
  action = remote_claim;
  resource = append "jobs/" p.namespace;
  subject = record {
    actor_id = worker_id;
    roles = roles;
    namespace = p.namespace;
    authenticated = true;
  };
  method = "";
  host = "";
  origin = "";
  allowed_hosts = [];
  allowed_origins = [];
  session_valid = false;
  csrf_valid = false;
  content = none;
  secret_reference = some secret_reference;
  command = [];
  requests_isolation = false;
  has_isolation = false;
  scopes = [];
  risk_level = low;
  approval_policy = risk_based;
  approval_status = none;
}

abbrev of_claim : Result Queue.Error (JobQueue × Option Job) → Result Error (JobQueue × Option Job)
of_claim (err e) = err (of_queue e)
of_claim (ok x) = ok x

abbrev after_policy :
    Result Policy.Error PolicyDecision
    → Result Error (JobQueue × Option Job)
    → Result Error (JobQueue × Option Job)
after_policy (err e) claimed = err (refused e)
after_policy (ok decision) claimed = claimed

-- `claim`, but for the context that goes with the job
unfoldable pub claim_remotely :
    FencedRemoteClaimBroker
    → String
    → List String
    → String
    → List String
    → ℕ
    → JobQueue
    → Result Error (JobQueue × Option Job)
unfolding require claim_request claim
claim_remotely b worker_id roles secret_reference kinds now q =
    after_policy
      (require b.policy (claim_request worker_id roles secret_reference b.deployment) b.deployment)
      (of_claim (claim worker_id b.deployment.namespace b.lease_ttl kinds now q))

denied-require :
    (rules : List PolicyRule) (r : PolicyRequest) (p : DeploymentProfile)
    (decision : PolicyDecision)
    → evaluate rules r p ≡ ok decision
    → decision.effect ≡ Policy.deny
    → require rules r p ≡ err permission_error
unfolding require
denied-require rules r p decision e d = rw (e, d) refl

-- No deployment gets a remote claim broker: the constructor refuses the profile. And a broker with the default
-- rules, if there were one, would refuse every claim, before the queue is asked.
pub no_remote_claim :
    (env : Callees) (p : DeploymentProfile) (policy : List PolicyRule) (ttl : ℕ)
    (worker_id secret_reference : String) (roles kinds : List String) (now : ℕ) (q : JobQueue)
    → ((missing : List String) × (create p policy ttl ≡ err (not_activated missing)))
      × (claim_remotely
            (record { deployment = p; policy = default_rules env; lease_ttl = ttl })
            worker_id
            roles
            secret_reference
            kinds
            now
            q
          ≡ err (refused permission_error))
unfolding create claim_remotely missing_prerequisites
no_remote_claim env p policy ttl worker_id secret_reference roles kinds now q =
    let r = claim_request worker_id roles secret_reference p in
    let (decision, e, d) = remote_claim_is_denied env r p (unfold claim_request in refl) in
    (
      elim (Bool-cases (is_remote_mode p.mode)) [ inl m ↦ rw m (_, refl) | inr m ↦ rw m (_, refl) ],
      rw (denied-require (default_rules env) r p decision e d) refl,
    )
