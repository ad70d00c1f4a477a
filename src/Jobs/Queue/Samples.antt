-- ===== src/Jobs/Queue/Samples.antt =====
-- One job, two workers: the second takes the job over when the first one's lease has run out.
use claude_router.Prelude.{
  All, List, String, [], arith, count, err, false, find, is_blank, none, ok, refl, some, true, ◌∷◌,
  ◌≡◌, ◌≢◌, ◌⊎◌,
}
use claude_router.Jobs.{
  Job, queued, set_claimed, cancelled, claimable, running, set_cancel_requested, set_completed,
  by_key,
}
use claude_router.Jobs.Queue.{
  JobQueue, EnqueueArgs, empty, get, acknowledge_cancel, claim, complete, enqueue, expired, fail,
  heartbeat, lease_lost, recover_expired,
}
use claude_router.Jobs.Queue.Table.{Inv, TableSteps-Inv}
use claude_router.Jobs.Queue.History.{
  run, run-Inv, run-TableSteps, terminal_is_final, cancel_request_sticks, Call, call, cancels,
  claims, completes, enqueues, recovers, heartbeats,
}
use claude_router.Jobs.Queue.Fencing.{stale_token_is_refused, live_lease_excludes}
use claude_router.Jobs.Queue.Completion.{IsLeased, IsLost, claimed_can_complete}
use claude_router.Jobs.Queue.Selection.{claim_is_first, claim_total, NotAfter}
use claude_router.Jobs.Queue.Idempotency.{enqueue_is_idempotent, again}
use claude_router.Jobs.Queue.Recovery.{recover_expired_lem}

abbrev build : EnqueueArgs
build = record {
  kind = "build";
  payload = "{}";
  idempotency_key = "k1";
  task_id = none;
  namespace = "local";
  priority = 1;
  max_attempts = 3;
  available_at = none;
  job_id = "j1";
  now = 5;
}

abbrev fresh : JobQueue
fresh = run (empty none) (enqueues build ∷ [])

abbrev first_claim : List Call
first_claim = enqueues build ∷ claims "w1" "local" 60 [] 10 ∷ []

abbrev leased : JobQueue
leased = run (empty none) first_claim

abbrev taken_over : JobQueue
taken_over =
    run (empty none)
      (enqueues build ∷ claims "w1" "local" 60 [] 10 ∷ claims "w2" "local" 60 [] 80 ∷ [])

abbrev job : Job
job = record {
  job_id = "j1";
  namespace = "local";
  kind = "build";
  idempotency_key = "k1";
  status = queued;
  payload = "{}";
  task_id = none;
  priority = 1;
  attempts = 0;
  max_attempts = 3;
  available_at = 5;
  lease_owner = none;
  lease_expires_at = none;
  fencing_token = 0;
  cancel_requested = false;
  result = "{}";
  error = none;
  created_at = 5;
  updated_at = 5;
  completed_at = none;
}

abbrev job1 : Job
job1 = set_claimed "w1" 70 1 10 job

abbrev job2 : Job
job2 = set_claimed "w2" 140 2 80 job1

get-leased : get leased "j1" ≡ some job1
unfolding empty run call get
get-leased = refl

get-taken_over : get taken_over "j1" ≡ some job2
unfolding empty run call get
get-taken_over = refl

leased-Inv : Inv leased.jobs
leased-Inv = run-Inv none first_claim

fresh-Inv : Inv fresh.jobs
fresh-Inv = run-Inv none (enqueues build ∷ [])

run-Inv_example : Inv (run (empty none) first_claim).jobs
run-Inv_example = run-Inv none first_claim

stale_token_is_refused_example :
    (complete "j1" "w1" 1 "{}" 90 (run taken_over (recovers 85 ∷ [])) ≡ err lease_lost)
    × (heartbeat "j1" "w1" 1 60 90 (run taken_over (recovers 85 ∷ [])) ≡ err lease_lost)
    × (fail "j1" "w1" 1 "boom" true 5 90 (run taken_over (recovers 85 ∷ [])) ≡ err lease_lost)
    × (acknowledge_cancel "j1" "w1" 1 90 (run taken_over (recovers 85 ∷ [])) ≡ err lease_lost)
unfolding is_blank
stale_token_is_refused_example =
    stale_token_is_refused taken_over (recovers 85 ∷ []) "j1" "w1" 1 job2 "{}" "boom" true 5 60 90
      (run-Inv none _) get-taken_over (omega arith) refl (omega arith)

abbrev test : EnqueueArgs
test = record build { kind = "test"; idempotency_key = "k2"; job_id = "j2"; priority = 0; now = 6 }

abbrev busy : JobQueue
busy = run (empty none) (enqueues build ∷ enqueues test ∷ claims "w1" "local" 60 [] 10 ∷ [])

abbrev both_busy : JobQueue
both_busy = run busy (claims "w2" "local" 60 [] 20 ∷ [])

abbrev job_two : Job
job_two = set_claimed "w2" 80 1 20 (record job {
  job_id = "j2";
  kind = "test";
  idempotency_key = "k2";
  priority = 0;
  available_at = 6;
  created_at = 6;
  updated_at = 6;
})

busy-claim : claim "w2" "local" 60 [] 20 busy ≡ ok (both_busy, some job_two)
unfolding run call empty
busy-claim = refl

get-busy : get busy "j1" ≡ some job1
unfolding run call empty get
get-busy = refl

live_lease_excludes_example : ◌≢◌ {A = String} "j2" "j1"
live_lease_excludes_example =
    live_lease_excludes busy both_busy "j1" "w2" "local" 60 [] 20 70 job1 job_two (run-Inv none _)
      get-busy refl refl (omega arith) busy-claim

fresh-claim : claim "w1" "local" 60 [] 10 fresh ≡ ok (leased, some job1)
unfolding run call empty
fresh-claim = refl

-- The worker renews its lease, and another worker finds nothing to claim.
abbrev meanwhile : List Call
meanwhile = heartbeats "j1" "w1" 1 60 20 ∷ claims "w2" "local" 60 [] 30 ∷ []

claimed_can_complete_example :
    (get leased "j1" ≡ some job1)
    × IsLeased "w1" 70 job1
    × ((k : Job) × (get (run leased meanwhile) "j1" ≡ some k)
        × (((q'' : JobQueue) × (complete "j1" "w1" 1 "{}" 79 (run leased meanwhile)
                ≡ ok (q'', set_completed "{}" 79 k))
              × (get q'' "j1" ≡ some (set_completed "{}" 79 k)))
            ⊎ IsLost 1 79 k))
claimed_can_complete_example =
    claimed_can_complete fresh leased "w1" "local" "{}" 60 [] 10 79 job1 meanwhile fresh-Inv
      fresh-claim

claim_is_first_example :
    (row : Job) × (get fresh "j1" ≡ some row)
    × (claimable "local" [] 10 row ≡ true)
    × All (λ z. claimable "local" [] 10 z ≡ true → NotAfter row z) fresh.jobs
claim_is_first_example =
    claim_is_first "w1" "local" 60 [] 10 fresh leased job1 fresh-Inv fresh-claim

claim_total_example :
    ((claim "w1" "local" 60 [] 10 fresh ≡ ok (fresh, none))
      × All (λ z. claimable "local" [] 10 z ≡ false) fresh.jobs)
    ⊎ ((q' : JobQueue) × (j : Job) × (claim "w1" "local" 60 [] 10 fresh ≡ ok (q', some j)))
unfolding is_blank
claim_total_example = claim_total "w1" "local" 60 [] 10 fresh fresh-Inv refl refl (omega arith)

build_enqueued : enqueue build (empty none) ≡ ok (fresh, job)
unfolding run call empty
build_enqueued = refl

still_accepting : (run fresh (claims "w1" "local" 60 [] 10 ∷ [])).accepting ≡ true
unfolding run call empty
still_accepting = refl

empty-Inv : Inv (empty none).jobs
unfolding empty run
empty-Inv = run-Inv none []

enqueue_is_idempotent_example :
    (k : Job) × (enqueue
        (again build 7 none "j9" 30)
        (run fresh (claims "w1" "local" 60 [] 10 ∷ []))
      ≡ ok (run fresh (claims "w1" "local" 60 [] 10 ∷ []), k))
    × (k.job_id ≡ "j1")
    × (get (run fresh (claims "w1" "local" 60 [] 10 ∷ [])) "j1" ≡ some k)
    × (find
          (by_key build.namespace build.idempotency_key)
          (run fresh (claims "w1" "local" 60 [] 10 ∷ [])).jobs
        ≡ some k)
enqueue_is_idempotent_example =
    enqueue_is_idempotent build (empty none) fresh job (claims "w1" "local" 60 [] 10 ∷ []) 7 none
      "j9" 30 empty-Inv build_enqueued still_accepting

recover_expired_lem_example :
    All (λ x. expired 100 x ≡ false) (recover_expired 100 leased).0.jobs
    × ((recover_expired 100 leased).1 ≡ count (expired 100) leased.jobs)
recover_expired_lem_example = recover_expired_lem 100 leased leased-Inv

abbrev finished : JobQueue
finished = run leased (completes "j1" "w1" 1 "{}" 20 ∷ [])

finished-Inv : Inv finished.jobs
finished-Inv = TableSteps-Inv (run-TableSteps leased _ leased-Inv) leased-Inv

get-finished : get finished "j1" ≡ some (set_completed "{}" 20 job1)
unfolding run call empty get
get-finished = refl

terminal_is_final_example :
    get (run finished (cancels "j1" 30 ∷ recovers 90 ∷ [])) "j1" ≡ some (set_completed "{}" 20 job1)
terminal_is_final_example =
    terminal_is_final finished (cancels "j1" 30 ∷ recovers 90 ∷ []) "j1"
      (set_completed "{}" 20 job1) finished-Inv get-finished refl

abbrev cancelling : JobQueue
cancelling = run leased (cancels "j1" 20 ∷ [])

get-cancelling : get cancelling "j1" ≡ some (set_cancel_requested 20 job1)
unfolding run call empty get
get-cancelling = refl

cancel_request_sticks_example :
    (k : Job) × (get (run cancelling (completes "j1" "w1" 1 "{}" 30 ∷ recovers 90 ∷ [])) "j1"
      ≡ some k)
    × ((k.status ≡ running) ⊎ (k.status ≡ cancelled))
    × (k.fencing_token ≡ 1)
cancel_request_sticks_example =
    cancel_request_sticks cancelling (completes "j1" "w1" 1 "{}" 30 ∷ recovers 90 ∷ []) "j1"
      (set_cancel_requested 20 job1)
      (TableSteps-Inv (run-TableSteps leased _ leased-Inv) leased-Inv) get-cancelling refl refl
