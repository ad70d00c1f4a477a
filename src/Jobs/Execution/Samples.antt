-- ===== src/Jobs/Execution/Samples.antt =====
-- A worker with a handler for the kind "build": tests and witnesses.
use claude_router.Prelude.{
  List, String, [], any, arith, count, dict_get, err, false, find, is_blank, none, ok, refl, select,
  some, sorted_by, true, update_where, ◌∷◌, ◌≡◌,
}
use claude_router.Jobs.{first_by_order, claimable, Job, queued, set_claimed, set_cancel_requested}
use claude_router.Jobs.Queue.{JobQueue, get, claim, lease_lost}
use claude_router.Jobs.Execution.{JobHandler, LocalWorkerExecutor, returned, raised, execute_once}
use claude_router.Policy.{permission_error}
use claude_router.Policy.Samples.{env, on_laptop}
use claude_router.Policy.Engine.{default_rules}
use claude_router.Jobs.Execution.Remote.{
  create, claim_remotely, not_activated, refused, no_remote_claim,
}
use claude_router.Jobs.Execution.Settling.{
  IsTaken, settled_row, execute_once_settles, raise_after_cancel_is_lost,
}

abbrev job : Job
job = record {
  job_id = "j1";
  namespace = "local";
  kind = "build";
  idempotency_key = "k1";
  status = queued;
  payload = "{}";
  task_id = none;
  priority = 1;
  attempts = 0;
  max_attempts = 3;
  available_at = 5;
  lease_owner = none;
  lease_expires_at = none;
  fencing_token = 0;
  cancel_requested = false;
  result = "{}";
  error = none;
  created_at = 5;
  updated_at = 5;
  completed_at = none;
}

abbrev one_job : JobQueue
one_job = record { jobs = job ∷ []; counters = []; accepting = true; sink = none }

abbrev claimed_job : Job
claimed_job = set_claimed "w1" 70 1 10 job

abbrev leased : JobQueue
leased = record {
  jobs = claimed_job ∷ [];
  counters = ("j1", 1) ∷ [];
  accepting = true;
  sink = none;
}

-- The handler returns; or it raises, when somebody has asked to cancel the job.
abbrev build : JobHandler
build payload context q = (q, returned "{\"built\":true}")

abbrev interrupted : JobQueue
interrupted = record leased { jobs = set_cancel_requested 20 claimed_job ∷ [] }

abbrev stop : JobHandler
stop payload context q = (interrupted, raised "stopped" "RuntimeError")

abbrev worker : JobHandler → LocalWorkerExecutor
worker handler = record {
  handlers = ("build", handler) ∷ [];
  worker_id = "w1";
  namespace = "local";
  lease_ttl = 60;
}

claims_it : claim "w1" "local" 60 ("build" ∷ []) 10 one_job ≡ ok (leased, some claimed_job)
unfolding claim is_blank first_by_order select claimable any count find update_where
claims_it = refl

execute_once_settles_example :
    (t : JobQueue) × (execute_once (worker build) 10 30 one_job
      ≡ ok (t, some (settled_row (returned "{\"built\":true}") 30 claimed_job)))
    × (get t "j1" ≡ some (settled_row (returned "{\"built\":true}") 30 claimed_job))
execute_once_settles_example =
    execute_once_settles (worker build) 10 30 one_job leased leased claimed_job claimed_job build
      (returned "{\"built\":true}") (unfold sorted_by in claims_it) (unfold dict_get in refl) refl
      (unfold get find in refl)
      (record {
        runs = refl;
        owner = refl;
        same_token = refl;
        expires = 70;
        lease = refl;
        in_time = omega arith;
      })
      (unfold IsTaken in tt)

raise_after_cancel_is_lost_example : execute_once (worker stop) 10 30 one_job ≡ err lease_lost
raise_after_cancel_is_lost_example =
    raise_after_cancel_is_lost (worker stop) 10 30 one_job leased interrupted claimed_job
      (set_cancel_requested 20 claimed_job) stop "stopped" "RuntimeError"
      (unfold sorted_by in claims_it) (unfold dict_get in refl) refl (unfold get find in refl) refl
      (unfold is_blank in refl)

no_remote_claim_example :
    ((missing : List String) × (create on_laptop (default_rules env) 60
        ≡ err (not_activated missing)))
    × (claim_remotely
          (record { deployment = on_laptop; policy = default_rules env; lease_ttl = 60 })
          "w1"
          ("worker" ∷ [])
          "vault://key"
          []
          10
          one_job
        ≡ err (refused permission_error))
no_remote_claim_example =
    no_remote_claim env on_laptop (default_rules env) 60 "w1" "vault://key" ("worker" ∷ []) [] 10
      one_job
