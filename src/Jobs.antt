-- ===== src/Jobs.antt =====
-- orchestrator/jobs.py: the rows of `durable_jobs` and `job_fencing_counters`, and their statements.
-- Instants and spans are whole ticks of one clock: the code writes UTC ISO texts, whose text order
-- in SQL is the order of the instants. JSON columns are their `_dump` texts.
pub mod Queue
pub mod Rows
pub mod Execution
use mathlib.Core.Option
use claude_router.Prelude.{
  Bool, List, Option, String, [], any, false, if◌then◌else◌, leb, ltb, none, not, some, str_ltb,
  true, ℕ, ◌&&◌, ◌+◌, ◌==◌, ◌||◌, ◌∷◌, nat_eq, string_eq, option_eq,
}

pub data JobStatus : Type 0 where
  queued running retry completed failed cancelled : JobStatus

abbrev pub is_running : JobStatus → Bool
is_running running = true
is_running _ = false

-- status IN ('queued', 'retry')
abbrev pub is_waiting : JobStatus → Bool
is_waiting queued = true
is_waiting retry = true
is_waiting _ = false

abbrev pub is_terminal : JobStatus → Bool
is_terminal completed = true
is_terminal failed = true
is_terminal cancelled = true
is_terminal _ = false

pub record Job : Type 0 where
  pub job_id : String
  pub namespace : String
  pub kind : String
  pub idempotency_key : String
  pub status : JobStatus
  pub payload : String
  pub task_id : Option String
  pub priority : ℕ
  pub attempts : ℕ
  pub max_attempts : ℕ
  pub available_at : ℕ
  pub lease_owner : Option String
  pub lease_expires_at : Option ℕ
  pub fencing_token : ℕ
  pub cancel_requested : Bool
  pub result : String
  pub error : Option String
  pub created_at : ℕ
  pub updated_at : ℕ
  pub completed_at : Option ℕ

abbrev pub by_id : String → Job → Bool
by_id id j = j.job_id == id

abbrev pub by_key : String → String → Job → Bool
by_key namespace key j = j.namespace == namespace && j.idempotency_key == key

-- `column <= ?`, which NULL never passes
abbrev pub reached : Option ℕ → ℕ → Bool
reached none now = false
reached (some t) now = leb t now

abbrev pub kind_allowed : List String → String → Bool
kind_allowed [] kind = true
kind_allowed (k ∷ ks) kind = any (λ a. a == kind) (k ∷ ks)

-- The WHERE clause of `claim`.
unfoldable pub claimable : String → List String → ℕ → Job → Bool
claimable namespace kinds now j =
    j.namespace == namespace
    && not j.cancel_requested
    && ltb j.attempts j.max_attempts
    && leb j.available_at now
    && (is_waiting j.status || (is_running j.status && reached j.lease_expires_at now))
    && kind_allowed kinds j.kind

-- ORDER BY priority DESC, created_at, job_id: does `a` come before `b`?
abbrev comes_before : Job → Job → Bool
comes_before a b =
    ltb b.priority a.priority
    || (b.priority == a.priority
        && (ltb a.created_at b.created_at
            || (a.created_at == b.created_at && str_ltb a.job_id b.job_id)))

abbrev pub better : Job → Option Job → Job
better a none = a
better a (some b) = if comes_before b a then b else a

-- LIMIT 1 of the ordered rows
unfoldable pub first_by_order : List Job → Option Job
first_by_order [] = none
first_by_order (j ∷ js) = some (better j (first_by_order js))

-- The WHERE clause of the updates of a lease holder.
abbrev pub held_by : String → String → ℕ → Job → Bool
held_by id worker_id token j =
    j.job_id == id && j.lease_owner == some worker_id && j.fencing_token == token

-- The SET clauses.
abbrev pub set_claimed : String → ℕ → ℕ → ℕ → Job → Job
set_claimed worker_id expires token now j = record j {
  status = running;
  attempts = j.attempts + 1;
  lease_owner = some worker_id;
  lease_expires_at = some expires;
  fencing_token = token;
  error = none;
  updated_at = now;
}

abbrev pub set_renewed : ℕ → ℕ → Job → Job
set_renewed expires now j = record j { lease_expires_at = some expires; updated_at = now }

abbrev pub set_completed : String → ℕ → Job → Job
set_completed result now j = record j {
  status = completed;
  result = result;
  lease_owner = none;
  lease_expires_at = none;
  updated_at = now;
  completed_at = some now;
}

abbrev pub set_failed : Bool → String → ℕ → ℕ → Job → Job
set_failed should_retry error available now j = record j {
  status = if should_retry then retry else failed;
  error = some error;
  available_at = available;
  lease_owner = none;
  lease_expires_at = none;
  updated_at = now;
  completed_at = if should_retry then none else some now;
}

abbrev pub set_cancel_requested : ℕ → Job → Job
set_cancel_requested now j = record j { cancel_requested = true; updated_at = now }

abbrev pub set_cancelled : ℕ → Job → Job
set_cancelled now j = record j {
  status = cancelled;
  cancel_requested = true;
  completed_at = some now;
  updated_at = now;
}

abbrev pub set_cancel_acknowledged : ℕ → Job → Job
set_cancel_acknowledged now j = record j {
  status = cancelled;
  lease_owner = none;
  lease_expires_at = none;
  completed_at = some now;
  updated_at = now;
}

-- The status that `recover_expired` gives to an expired row.
abbrev pub recovered_status : Job → JobStatus
recovered_status j =
    if j.cancel_requested
    then cancelled
    else if ltb j.attempts j.max_attempts
    then retry
    else failed

abbrev is_failed : JobStatus → Bool
is_failed failed = true
is_failed _ = false

abbrev pub set_recovered : JobStatus → ℕ → Job → Job
set_recovered status now j = record j {
  status = status;
  lease_owner = none;
  lease_expires_at = none;
  error = if is_failed status then some "lease expired after final attempt" else j.error;
  updated_at = now;
  completed_at = if is_terminal status then some now else none;
}

-- The condition of `_require_current`, negated: the row is the caller's live lease.
unfoldable pub is_current : String → ℕ → ℕ → Bool → Job → Bool
is_current worker_id token now allow_cancel_requested j =
    is_running j.status
    && j.lease_owner == some worker_id
    && j.fencing_token == token
    && not (leb (Option.get_or j.lease_expires_at now) now)
    && (not j.cancel_requested || allow_cancel_requested)
