-- ===== src/Jobs/Execution.antt =====
-- LocalWorkerExecutor of orchestrator/execution.py over the job queue. A handler is an argument: what it
-- returns or raises, and what became of the queue in the meantime by the calls of others.
pub mod Held
pub mod Settling
pub mod Remote
mod Samples
use claude_router.Prelude.{
  Bool, List, Option, Result, String, append, dict_get, dict_keys, false, if◌then◌else◌, none, ok,
  some, sorted_by, str_ltb, ℕ, ◌==◌, ◌>>=◌, nat_eq, string_eq, option_eq,
}
use claude_router.Jobs.{Job}
use claude_router.Jobs.Queue.{JobQueue, Error, claim, fail, get, complete, acknowledge_cancel}

-- `result` as the text that the queue stores; the message of an exception, with the name of its type
pub data Outcome : Type 0 where
  returned : String → Outcome
  raised : String → String → Outcome

pub record ExecutionContext : Type 0 where
  pub job_id : String
  pub worker_id : String
  pub namespace : String
  pub fencing_token : ℕ
  pub attempt : ℕ
  pub execution_mode : String

abbrev pub JobHandler : Type 0
JobHandler = String → ExecutionContext → JobQueue → JobQueue × Outcome

pub record LocalWorkerExecutor : Type 0 where
  pub handlers : List (String × JobHandler)
  pub worker_id : String
  pub namespace : String
  pub lease_ttl : ℕ

abbrev pub Done : Type 0
Done = Result Error (JobQueue × Option Job)

abbrev pub finished : JobQueue × Job → Done
finished (q, j) = ok (q, some j)

unfoldable pub context_of : String → Job → ExecutionContext
context_of worker_id j = record {
  job_id = j.job_id;
  worker_id = worker_id;
  namespace = j.namespace;
  fencing_token = j.fencing_token;
  attempt = j.attempts;
  execution_mode = "local";
}

-- `str(exc) or type(exc).__name__`
abbrev pub error_text : String → String → String
error_text message type_name = if message == "" then type_name else message

-- `current is not None and current.cancel_requested`
abbrev pub is_cancel_requested : Option Job → Bool
is_cancel_requested none = false
is_cancel_requested (some j) = j.cancel_requested

-- What `execute_once` does after the handler.
unfoldable pub conclude : String → String → ℕ → ℕ → JobQueue × Outcome → Done
unfolding fail get complete acknowledge_cancel
conclude worker_id id token now (q, raised message type_name) =
    fail id worker_id token (error_text message type_name) false 0 now q >>= finished
conclude worker_id id token now (q, returned result) =
    if is_cancel_requested (get q id)
    then (acknowledge_cancel id worker_id token now q >>= finished)
    else (complete id worker_id token result now q >>= finished)

unfoldable pub handle : String → Job → ℕ → JobQueue → Option JobHandler → Done
unfolding fail append conclude context_of
handle worker_id j now q none =
    fail j.job_id worker_id j.fencing_token
      (append "no local handler registered for job kind " j.kind) false 0 now q
    >>= finished
handle worker_id j now q (some handler) =
    conclude worker_id j.job_id j.fencing_token now (handler j.payload (context_of worker_id j) q)

abbrev pub on_claim : LocalWorkerExecutor → ℕ → JobQueue × Option Job → Done
on_claim e later (q, none) = ok (q, none)
on_claim e later (q, some j) = handle e.worker_id j later q (dict_get j.kind e.handlers)

-- `execute_once`; the claim is made at `now`, and what follows the handler at `later`.
unfoldable pub execute_once : LocalWorkerExecutor → ℕ → ℕ → JobQueue → Done
unfolding claim handle dict_get sorted_by str_ltb
execute_once e now later q =
    claim e.worker_id e.namespace e.lease_ttl (sorted_by str_ltb (dict_keys e.handlers)) now q
    >>= on_claim e later
