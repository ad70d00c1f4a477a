-- ===== src/Policy.antt =====
-- PolicyEngine of orchestrator/policy.py with its default rules, and the parts of orchestrator/deployment.py that
-- they call. A text that a rule takes apart is its list of code points.
pub mod Paths
pub mod Deployment
pub mod Rules
pub mod Engine
pub mod Samples
use claude_router.Prelude.{Bool, List, Option, String}

pub data PolicyAction : Type 0 where
  api_request : PolicyAction
  provider_request : PolicyAction
  command_execution : PolicyAction
  file_read : PolicyAction
  file_write : PolicyAction
  effect_apply : PolicyAction
  remote_claim : PolicyAction

pub data PolicyEffect : Type 0 where
  allow : PolicyEffect
  deny : PolicyEffect
  require_approval : PolicyEffect

pub data RiskLevel : Type 0 where
  low : RiskLevel
  medium : RiskLevel
  high : RiskLevel
  critical : RiskLevel

pub data ApprovalPolicy : Type 0 where
  never : ApprovalPolicy
  risk_based : ApprovalPolicy
  always : ApprovalPolicy

pub record PolicySubject : Type 0 where
  pub actor_id : String
  pub roles : List String
  pub namespace : String
  pub authenticated : Bool

-- The isolation levels are the tests that the rules make on them, and the command policy stands in the check
-- that is an argument of the rules. `task_id` and `metadata`, which no rule reads, are left out.
pub record PolicyRequest : Type 0 where
  pub action : PolicyAction
  pub resource : String
  pub subject : PolicySubject
  pub method : String
  pub host : String
  pub origin : String
  pub allowed_hosts : List String
  pub allowed_origins : List String
  pub session_valid : Bool
  pub csrf_valid : Bool
  pub content : Option String
  pub secret_reference : Option String
  pub command : List String
  pub requests_isolation : Bool
  pub has_isolation : Bool
  pub scopes : List String
  pub risk_level : RiskLevel
  pub approval_policy : ApprovalPolicy
  pub approval_status : Option String

pub data Error : Type 0 where
  index_error : Error  -- the first part of a path that has none
  permission_error : Error
