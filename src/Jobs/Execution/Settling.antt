-- ===== src/Jobs/Execution/Settling.antt =====
-- How `execute_once` leaves the job that it claimed.
use claude_router.Prelude.{
  ==→≡, Bool, String, ap, dict_get, dict_keys, err, false, find-Member, if◌then◌else◌, is_blank, ok,
  refl, some, sorted_by, str_ltb, subst, sym, true, ℕ, ◌+◌, ◌>>=◌, ◌≡◌, nat_eq, string_eq,
  option_eq,
}
use claude_router.Jobs.{by_id, Job, set_completed, set_failed, set_cancel_acknowledged}
use claude_router.Jobs.Queue.{
  claim, lease_lost, JobQueue, get, acknowledge_cancel, complete, fail, require_current,
}
use claude_router.Jobs.Execution.{
  is_cancel_requested, JobHandler, LocalWorkerExecutor, context_of, execute_once, handle, finished,
  Outcome, returned, raised, error_text, Done, conclude,
}
use claude_router.Jobs.Execution.Held.{
  IsHeld, not_current, fail_held, complete_held, acknowledge_held,
}

-- The row that the outcome of the handler asks for.
unfoldable pub settled_row : Outcome → ℕ → Job → Job
settled_row (raised message type_name) later k =
    set_failed false (error_text message type_name) (later + 0) later k
settled_row (returned result) later k =
    if k.cancel_requested then set_cancel_acknowledged later k else set_completed result later k

-- The queue takes the outcome: it was not asked to cancel a job whose handler raised, and the exception has a
-- text.
unfoldable pub IsTaken : Outcome → Job → Type 0
IsTaken (raised message type_name) k =
    (is_blank (error_text message type_name) ≡ false) × (k.cancel_requested ≡ false)
IsTaken (returned result) k = Unit

abbrev Settled : String → Job → Done → Type 0
Settled id row done = (t : JobQueue) × (done ≡ ok (t, some row)) × (get t id ≡ some row)

conclude_returned :
    (worker_id result : String) (token later : ℕ) (q : JobQueue) (k : Job) (b : Bool)
    → get q k.job_id ≡ some k
    → IsHeld worker_id token later k
    → k.cancel_requested ≡ b
    → Settled k.job_id
        (if b then set_cancel_acknowledged later k else set_completed result later k)
        (if b
          then (acknowledge_cancel k.job_id worker_id token later q >>= finished)
          else (complete k.job_id worker_id token result later q >>= finished))
conclude_returned worker_id result token later q k true f h c =
    let (t, e, stored) = acknowledge_held worker_id token later q k f h c in
    (t, ap (λ x. x >>= finished) e, stored)
conclude_returned worker_id result token later q k false f h c =
    let (t, e, stored) = complete_held worker_id result token later q k f h c in
    (t, ap (λ x. x >>= finished) e, stored)

conclude_lem :
    (worker_id : String) (token later : ℕ) (q : JobQueue) (outcome : Outcome) (k : Job)
    → get q k.job_id ≡ some k
    → IsHeld worker_id token later k
    → IsTaken outcome k
    → Settled k.job_id
        (settled_row outcome later k)
        (conclude worker_id k.job_id token later (q, outcome))
unfolding conclude settled_row IsTaken
conclude_lem worker_id token later q (raised message type_name) k f h (blank, c) =
    let (t, e, stored) =
      fail_held worker_id (error_text message type_name) token later q k f h blank c in
    (t, ap (λ x. x >>= finished) e, stored)
conclude_lem worker_id token later q (returned result) k f h taken =
    let (t, e, stored) =
      conclude_returned worker_id result token later q k k.cancel_requested f h refl in
    (
      t,
      subst
          (λ o.
            (if is_cancel_requested o
              then (acknowledge_cancel k.job_id worker_id token later q >>= finished)
              else (complete k.job_id worker_id token result later q >>= finished))
            ≡ ok (
              t,
              some (
                  if k.cancel_requested
                  then set_cancel_acknowledged later k
                  else set_completed result later k),
            ))
          (sym f) e,
      stored,
    )

found_id : (q : JobQueue) (id : String) (k : Job) → get q id ≡ some k → k.job_id ≡ id
unfolding get
found_id q id k f = ==→≡ k.job_id id (find-Member (by_id id) q.jobs f).1

-- An executor that claims a job for which it has a handler, where the job is still the executor's when the
-- handler is done, settles it: the job that is returned and stored is completed with the result, or
-- cancelled if a cancellation was asked for while the handler ran, or, if the handler raised, failed with
-- the exception's text. After an exception, the text is not blank and no cancellation was asked for.
pub execute_once_settles :
    (e : LocalWorkerExecutor) (now later : ℕ) (q claimed left : JobQueue) (j k : Job)
    (handler : JobHandler) (outcome : Outcome)
    → claim e.worker_id e.namespace e.lease_ttl (sorted_by str_ltb (dict_keys e.handlers)) now q
      ≡ ok (claimed, some j)
    → dict_get j.kind e.handlers ≡ some handler
    → handler j.payload (context_of e.worker_id j) claimed ≡ (left, outcome)
    → get left j.job_id ≡ some k
    → IsHeld e.worker_id j.fencing_token later k
    → IsTaken outcome k
    → (t : JobQueue) × (execute_once e now later q ≡ ok (t, some (settled_row outcome later k)))
      × (get t j.job_id ≡ some (settled_row outcome later k))
unfolding execute_once handle
execute_once_settles e now later q claimed left j k handler outcome c d r f h taken =
    let same_id = found_id left j.job_id k f in
    let (t, s, stored) =
      conclude_lem e.worker_id j.fencing_token later left outcome k
        (subst (λ id. get left id ≡ some k) (sym same_id) f) h taken in
    (
      t,
      rw (c, d, r)
          (subst
            (λ id.
              conclude e.worker_id id j.fencing_token later (left, outcome)
              ≡ ok (t, some (settled_row outcome later k)))
            same_id s),
      subst (λ id. get t id ≡ some (settled_row outcome later k)) same_id stored,
    )

-- A job whose handler raised after its cancellation was asked for is not settled: the call ends in a
-- JobLeaseLostError, whatever the text of the exception that is not blank.
pub raise_after_cancel_is_lost :
    (e : LocalWorkerExecutor) (now later : ℕ) (q claimed left : JobQueue) (j k : Job)
    (handler : JobHandler) (message type_name : String)
    → claim e.worker_id e.namespace e.lease_ttl (sorted_by str_ltb (dict_keys e.handlers)) now q
      ≡ ok (claimed, some j)
    → dict_get j.kind e.handlers ≡ some handler
    → handler j.payload (context_of e.worker_id j) claimed ≡ (left, raised message type_name)
    → get left j.job_id ≡ some k
    → k.cancel_requested ≡ true
    → is_blank (error_text message type_name) ≡ false
    → execute_once e now later q ≡ err lease_lost
unfolding execute_once handle conclude fail require_current get
raise_after_cancel_is_lost e now later q claimed left j k handler message type_name c d r f asked
      text =
    rw (c, d, r, text, f, not_current e.worker_id j.fencing_token later k asked) refl
