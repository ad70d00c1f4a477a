-- ===== src/Jobs/Queue.antt =====
-- DurableJobQueue of orchestrator/jobs.py. Every method runs in one immediate transaction, so it is
-- one atomic function: an exception leaves the database as it was. `_emit` runs after the commit.
pub mod Table
pub mod Methods
pub mod Fencing
pub mod Selection
pub mod Idempotency
pub mod Recovery
pub mod Completion
mod Samples
pub mod History
use mathlib.Core.Option
use claude_router.Prelude.{
  Bool, List, Option, Result, String, [], any, count, err, false, find, if◌then◌else◌, is_blank,
  leb, ltb, max, none, not, ok, raise_if, select, some, true, update_where, ℕ, ◌&&◌, ◌++◌, ◌+◌,
  ◌==◌, ◌>>=◌, ◌>>◌, ◌||◌, ◌∷◌, nat_eq, string_eq, option_eq,
}
use claude_router.Jobs.{
  JobStatus, Job, by_id, by_key, claimable, first_by_order, held_by, is_current, queued,
  set_claimed, set_renewed, is_running, is_terminal, reached, recovered_status,
  set_cancel_acknowledged, set_cancel_requested, set_cancelled, set_completed, set_failed,
  set_recovered,
}

pub data Error : Type 0 where
  closing : Error  -- RuntimeError: the queue is closing
  invalid : Error  -- ValueError on an argument
  key_conflict : Error  -- ValueError: the idempotency key belongs to a different job
  integrity : Error  -- sqlite3.IntegrityError: the job id is taken
  no_such_job : Error  -- KeyError
  lease_lost : Error  -- JobLeaseLostError
  not_requested : Error  -- RuntimeError: job cancellation was not requested
  lost_update : Error  -- RuntimeError: the claim's update changed no single row
  no_row : Error  -- a row that was just written is not there

pub record JobEvent : Type 0 where
  pub event_type : String  -- behind "job."
  pub job_id : String
  pub task_id : Option String
  pub namespace : String
  pub kind : String
  pub status : JobStatus
  pub attempt : ℕ
  pub fencing_token : ℕ
  pub lease_owner : Option String

pub record JobQueue : Type 0 where
  pub jobs : List Job
  pub counters : List (String × ℕ)  -- job_fencing_counters
  pub accepting : Bool
  pub sink : Option (List JobEvent)  -- what the event sink has received, if there is one

unfoldable pub empty : Option (List JobEvent) → JobQueue
empty sink = record { jobs = []; counters = []; accepting = true; sink = sink }

unfoldable pub event_of : String → Job → JobEvent
event_of t j = record {
  event_type = t;
  job_id = j.job_id;
  task_id = j.task_id;
  namespace = j.namespace;
  kind = j.kind;
  status = j.status;
  attempt = j.attempts;
  fencing_token = j.fencing_token;
  lease_owner = j.lease_owner;
}

abbrev pub emit : String → Job → JobQueue → JobQueue
emit t j q = record q { sink = Option.map (λ log. log ++ event_of t j ∷ []) q.sink }

abbrev pub or_raise : Option Job → Error → Result Error Job
or_raise none e = err e
or_raise (some j) e = ok j

-- SELECT the row again, emit its event, and return it.
unfoldable pub reread : String → String → JobQueue → Result Error (JobQueue × Job)
reread t id q = do j ← or_raise (find (by_id id) q.jobs) no_row; ok (emit t j q, j)

unfoldable pub get : JobQueue → String → Option Job
get q id = find (by_id id) q.jobs

pub record EnqueueArgs : Type 0 where
  pub kind : String
  pub payload : String
  pub idempotency_key : String
  pub task_id : Option String
  pub namespace : String
  pub priority : ℕ
  pub max_attempts : ℕ
  pub available_at : Option ℕ
  pub job_id : String  -- the argument, or the fresh identifier that stands for it
  pub now : ℕ

pub new_job : EnqueueArgs → Job
new_job a = record {
  job_id = a.job_id;
  namespace = a.namespace;
  kind = a.kind;
  idempotency_key = a.idempotency_key;
  status = queued;
  payload = a.payload;
  task_id = a.task_id;
  priority = a.priority;
  attempts = 0;
  max_attempts = a.max_attempts;
  available_at = Option.get_or a.available_at a.now;
  lease_owner = none;
  lease_expires_at = none;
  fencing_token = 0;
  cancel_requested = false;
  result = "{}";
  error = none;
  created_at = a.now;
  updated_at = a.now;
  completed_at = none;
}

-- The row that holds the key already is the answer, if it is the same job.
abbrev differs : EnqueueArgs → Job → Bool
differs a j =
    not (j.kind == a.kind)
    || not (j.task_id == a.task_id)
    || not (j.payload == a.payload)
    || not (j.max_attempts == a.max_attempts)

insert_or_return : EnqueueArgs → JobQueue → Option Job → Result Error (JobQueue × Job)
unfolding reread new_job
insert_or_return a q (some existing) = do
  raise_if (differs a existing) key_conflict
  ok (q, existing)
insert_or_return a q none = do
  raise_if (any (by_id a.job_id) q.jobs) integrity
  reread "queued" a.job_id (record q { jobs = q.jobs ++ new_job a ∷ [] })

pub enqueue : EnqueueArgs → JobQueue → Result Error (JobQueue × Job)
unfolding insert_or_return
enqueue a q = do
  raise_if (not q.accepting) closing
  raise_if (is_blank a.kind || is_blank a.idempotency_key || is_blank a.namespace) invalid
  raise_if (ltb a.max_attempts 1) invalid
  insert_or_return a q (find (by_key a.namespace a.idempotency_key) q.jobs)

counter_of : List (String × ℕ) → String → ℕ
counter_of [] id = 0
counter_of ((i, n) ∷ cs) id = if i == id then n else counter_of cs id

-- INSERT … ON CONFLICT DO UPDATE
set_counter : List (String × ℕ) → String → ℕ → List (String × ℕ)
set_counter [] id n = (id, n) ∷ []
set_counter ((i, m) ∷ cs) id n = if i == id then (i, n) ∷ cs else (i, m) ∷ set_counter cs id n

abbrev pub same_claim : Job → Job → Bool
same_claim row j = j.job_id == row.job_id && j.fencing_token == row.fencing_token

pub next_token : JobQueue → Job → ℕ
unfolding counter_of
next_token q row = max (counter_of q.counters row.job_id) row.fencing_token + 1

claim_row : String → ℕ → ℕ → JobQueue → Option Job → Result Error (JobQueue × Option Job)
unfolding set_counter next_token reread
claim_row worker_id expires now q none = ok (q, none)
claim_row worker_id expires now q (some row) = do
  let token = next_token q row
  raise_if (not (count (same_claim row) q.jobs == 1)) lost_update
  (q', j) ← reread "claimed" row.job_id (record q {
    jobs = update_where (same_claim row) (set_claimed worker_id expires token now) q.jobs;
    counters = set_counter q.counters row.job_id token;
  })
  ok (q', some j)

unfoldable pub claim :
    String → String → ℕ → List String → ℕ → JobQueue → Result Error (JobQueue × Option Job)
unfolding claim_row
claim worker_id namespace ttl kinds now q = do
  raise_if (is_blank worker_id || is_blank namespace) invalid
  raise_if (leb ttl 0) invalid
  claim_row worker_id (now + ttl) now q
      (first_by_order (select (claimable namespace kinds now) q.jobs))

unfoldable pub require_current : String → String → ℕ → ℕ → Bool → List Job → Result Error Job
require_current id worker_id token now allow_cancel_requested jobs = do
  row ← or_raise (find (by_id id) jobs) lease_lost
  raise_if (not (is_current worker_id token now allow_cancel_requested row)) lease_lost
  ok row

abbrev pub update_held : String → String → ℕ → (Job → Job) → JobQueue → JobQueue
update_held id worker_id token f q = record q {
  jobs = update_where (held_by id worker_id token) f q.jobs;
}

pub heartbeat : String → String → ℕ → ℕ → ℕ → JobQueue → Result Error (JobQueue × Job)
unfolding require_current reread
heartbeat id worker_id token ttl now q = do
  raise_if (leb ttl 0) invalid
  row ← require_current id worker_id token now false q.jobs
  reread "heartbeat" id (update_held id worker_id token (set_renewed (now + ttl) now) q)

unfoldable pub complete :
    String → String → ℕ → String → ℕ → JobQueue → Result Error (JobQueue × Job)
unfolding require_current reread
complete id worker_id token result now q = do
  row ← require_current id worker_id token now false q.jobs
  reread "completed" id (update_held id worker_id token (set_completed result now) q)

abbrev fail_event : Bool → String
fail_event true = "retry_scheduled"
fail_event false = "failed"

unfoldable pub fail :
    String → String → ℕ → String → Bool → ℕ → ℕ → JobQueue → Result Error (JobQueue × Job)
unfolding require_current reread
fail id worker_id token error retryable delay now q = do
  raise_if (is_blank error) invalid
  existing ← require_current id worker_id token now false q.jobs
  let should_retry = retryable && ltb existing.attempts existing.max_attempts
  reread (fail_event should_retry) id
      (update_held id worker_id token (set_failed should_retry error (now + delay) now) q)

cancel_row : String → ℕ → JobQueue → Job → Result Error (JobQueue × Job)
unfolding reread
cancel_row id now q existing =
    if is_terminal existing.status
    then ok (q, existing)
    else if is_running existing.status
    then reread "cancel_requested" id
        (record q { jobs = update_where (by_id id) (set_cancel_requested now) q.jobs })
    else reread "cancelled" id
        (record q { jobs = update_where (by_id id) (set_cancelled now) q.jobs })

pub cancel : String → ℕ → JobQueue → Result Error (JobQueue × Job)
unfolding cancel_row
cancel id now q = do
  existing ← or_raise (find (by_id id) q.jobs) no_such_job
  cancel_row id now q existing

unfoldable pub acknowledge_cancel :
    String → String → ℕ → ℕ → JobQueue → Result Error (JobQueue × Job)
unfolding require_current reread
acknowledge_cancel id worker_id token now q = do
  row ← require_current id worker_id token now true q.jobs
  raise_if (not row.cancel_requested) not_requested
  reread "cancelled" id (update_held id worker_id token (set_cancel_acknowledged now) q)

abbrev pub expired : ℕ → Job → Bool
expired now j = is_running j.status && reached j.lease_expires_at now

abbrev pub same_lease : Job → Job → Bool
same_lease row j =
    j.job_id == row.job_id && is_running j.status && j.fencing_token == row.fencing_token

-- The loop of `recover_expired` over the selected rows, and its count.
recover_rows : ℕ → List Job → List Job → List Job × ℕ
recover_rows now [] jobs = (jobs, 0)
recover_rows now (row ∷ rows) jobs =
    let changed = count (same_lease row) jobs in
    let (jobs', n) =
      recover_rows now rows
        (update_where (same_lease row) (set_recovered (recovered_status row) now) jobs) in
    (jobs', changed + n)

pub recover_expired : ℕ → JobQueue → JobQueue × ℕ
unfolding recover_rows
recover_expired now q =
    let (jobs, n) = recover_rows now (select (expired now) q.jobs) q.jobs in
    (record q { jobs = jobs }, n)

pub stop_accepting : JobQueue → JobQueue
stop_accepting q = record q { accepting = false }
