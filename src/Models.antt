-- ===== src/Models.antt =====
-- The records of orchestrator/models.py that the scheduler reads, and the checks of their
-- `__post_init__`. A constructor call is a function that answers with the record or raises
-- ValueError. Fields that no check and no rule reads (titles apart from being given, metadata, risk
-- level, approval policy, times) are left out; `is_alpha` is `str.isalpha` of one character.
pub mod Checks
pub mod Contracts
pub mod Sound
pub mod Validity
pub mod Samples
use Prim.Native.String.{◌++◌ as ◌⧺◌}
use claude_router.Prelude.{
  Bool, List, Option, Result, String, [], any, has_repeats, is_in, length, ltb, map, none, not, ok,
  raise_if, some, ℕ, ◌==◌, ◌>>=◌, ◌>>◌, ◌∷◌, nat_eq, string_eq, option_eq,
}
use claude_router.Models.Checks.{
  Error, Checked, value_error, require_text, for_each, clean_tuple, is_empty, validate_scope,
  same_texts, or_texts,
}

pub data WorkStatus : Type 0 where
  pending : WorkStatus
  ready : WorkStatus
  running : WorkStatus
  testing : WorkStatus
  approved : WorkStatus
  abandoned : WorkStatus
  skipped : WorkStatus
  failed : WorkStatus
  blocked : WorkStatus
  cancelled : WorkStatus

pub record WorkContract : Type 0 where
  pub id : String
  pub version : ℕ
  pub input_artifacts : List String
  pub expected_outputs : List String
  pub read_scopes : List String
  pub write_scopes : List String
  pub acceptance_criteria : List String
  pub test_requirements : List String
  pub evidence_requirements : List String
  pub consumers : List String
  pub priority : ℕ

pub record WorkItem : Type 0 where
  pub id : String
  pub workstream_id : String
  pub title : String
  pub goal : String
  pub acceptance_criteria : List String
  pub dependencies : List String
  pub write_scopes : List String
  pub status : WorkStatus
  pub priority : ℕ
  pub contract : Option WorkContract

-- `legacy_contract` is `metadata.get("work_contract")`, as `work_contract_from_dict` reads it.
pub record Workstream : Type 0 where
  pub id : String
  pub title : String
  pub goal : String
  pub acceptance_criteria : List String
  pub dependencies : List String
  pub write_scopes : List String
  pub work_items : List WorkItem
  pub requested_worker_count : ℕ
  pub status : WorkStatus
  pub contract : Option WorkContract
  pub legacy_contract : Option (Result Error WorkContract)

pub record TaskPlan : Type 0 where
  pub task_id : String
  pub session_id : String
  pub goal : String
  pub workstreams : List Workstream
  pub requested_manager_count : ℕ
  pub revision : ℕ

-- `WorkContract.__post_init__`
unfoldable pub work_contract : (ℕ → Bool) → WorkContract → Checked
work_contract is_alpha c = do
  require_text c.id
  raise_if (ltb c.version 1) value_error
  clean_tuple c.input_artifacts
  clean_tuple c.expected_outputs
  clean_tuple c.read_scopes
  clean_tuple c.write_scopes
  clean_tuple c.acceptance_criteria
  clean_tuple c.test_requirements
  clean_tuple c.evidence_requirements
  clean_tuple c.consumers
  raise_if (is_empty c.acceptance_criteria) value_error
  raise_if (is_empty c.expected_outputs) value_error
  raise_if (is_empty c.evidence_requirements) value_error
  raise_if (is_empty c.consumers) value_error
  for_each (validate_scope is_alpha) c.read_scopes
  for_each (validate_scope is_alpha) c.write_scopes

-- `f"{id}-contract"`
abbrev contract_id : String → String
contract_id id = id ⧺ "-contract"

-- The contract that a work item without one is given.
unfoldable pub item_contract : WorkItem → WorkContract
item_contract i = record {
  id = contract_id i.id;
  version = 1;
  input_artifacts = i.dependencies;
  expected_outputs = or_texts i.write_scopes (i.goal ∷ []);
  read_scopes = [];
  write_scopes = i.write_scopes;
  acceptance_criteria = i.acceptance_criteria;
  test_requirements = i.acceptance_criteria;
  evidence_requirements = i.acceptance_criteria;
  consumers = i.workstream_id ∷ [];
  priority = i.priority;
}

-- The checks of `WorkItem.__post_init__` before it looks at the contract.
unfoldable pub item_fields : (ℕ → Bool) → WorkItem → Checked
item_fields is_alpha i = do
  require_text i.id
  require_text i.workstream_id
  require_text i.title
  require_text i.goal
  clean_tuple i.acceptance_criteria
  raise_if (is_empty i.acceptance_criteria) value_error
  clean_tuple i.dependencies
  raise_if (is_in i.id i.dependencies) value_error
  clean_tuple i.write_scopes
  for_each (validate_scope is_alpha) i.write_scopes

-- A given contract was checked when it was made; the default one is checked here.
unfoldable pub contract_or_default :
    (ℕ → Bool) → Option WorkContract → WorkContract → Result Error WorkContract
contract_or_default is_alpha (some c) d = ok c
contract_or_default is_alpha none d = do work_contract is_alpha d; ok d

-- `WorkItem.__post_init__`
unfoldable pub work_item : (ℕ → Bool) → WorkItem → Result Error WorkItem
work_item is_alpha i = do
  item_fields is_alpha i
  c ← contract_or_default is_alpha i.contract (item_contract i)
  raise_if (not (same_texts c.acceptance_criteria i.acceptance_criteria)) value_error
  raise_if (not (same_texts c.write_scopes i.write_scopes)) value_error
  raise_if (not (c.priority == i.priority)) value_error
  ok (record i { contract = some c })

unfoldable pub stream_contract : Workstream → WorkContract
stream_contract w = record {
  id = contract_id w.id;
  version = 1;
  input_artifacts = w.dependencies;
  expected_outputs = or_texts w.write_scopes (w.goal ∷ []);
  read_scopes = [];
  write_scopes = w.write_scopes;
  acceptance_criteria = w.acceptance_criteria;
  test_requirements = w.acceptance_criteria;
  evidence_requirements = w.acceptance_criteria;
  consumers = "task" ∷ [];
  priority = 0;
}

unfoldable pub stream_fields : (ℕ → Bool) → Workstream → Checked
stream_fields is_alpha w = do
  require_text w.id
  require_text w.title
  require_text w.goal
  clean_tuple w.acceptance_criteria
  raise_if (is_empty w.acceptance_criteria) value_error
  clean_tuple w.dependencies
  raise_if (is_in w.id w.dependencies) value_error
  clean_tuple w.write_scopes
  for_each (validate_scope is_alpha) w.write_scopes
  raise_if (ltb w.requested_worker_count 1) value_error
  raise_if (has_repeats (map (λ (i : WorkItem). i.id) w.work_items)) value_error
  raise_if (any (λ (i : WorkItem). not (i.workstream_id == w.id)) w.work_items) value_error

-- A given contract, else the one in the metadata, else the default one.
unfoldable pub choose_contract :
    (ℕ → Bool)
    → Option WorkContract
    → Option (Result Error WorkContract)
    → WorkContract
    → Result Error WorkContract
choose_contract is_alpha (some c) legacy d = ok c
choose_contract is_alpha none (some read) d = read
choose_contract is_alpha none none d = contract_or_default is_alpha none d

-- `Workstream.__post_init__`
unfoldable pub workstream : (ℕ → Bool) → Workstream → Result Error Workstream
workstream is_alpha w = do
  stream_fields is_alpha w
  c ← choose_contract is_alpha w.contract w.legacy_contract (stream_contract w)
  raise_if (not (same_texts c.acceptance_criteria w.acceptance_criteria)) value_error
  raise_if (not (same_texts c.write_scopes w.write_scopes)) value_error
  ok (record w { contract = some c })

-- `TaskPlan.__post_init__`
unfoldable pub task_plan : TaskPlan → Checked
task_plan p = do
  require_text p.task_id
  require_text p.session_id
  require_text p.goal
  raise_if (is_empty p.workstreams) value_error
  raise_if (ltb p.requested_manager_count 1) value_error
  raise_if (ltb (length p.workstreams) p.requested_manager_count) value_error
  raise_if (ltb p.revision 1) value_error
  raise_if (has_repeats (map (λ (w : Workstream). w.id) p.workstreams)) value_error
