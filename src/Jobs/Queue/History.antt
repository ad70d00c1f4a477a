-- ===== src/Jobs/Queue/History.antt =====
-- Any sequence of calls on the queue, from any workers: one transaction after the other.
use claude_router.Prelude.{
  Bool, List, Option, Result, String, [], any, ap, count, err, find, inl, is_blank, ok, refl,
  select, some, str_ltb, true, update_where, ℕ, ◌∙◌, ◌∷◌, ◌≡◌, ◌⊎◌,
}
use claude_router.Jobs.{
  Job, by_id, cancelled, is_terminal, running, claimable, first_by_order, is_current,
}
use claude_router.Jobs.Rows.{Evolves, Evolves-IsCancelling, Evolves-terminal, IsCancelling}
use claude_router.Jobs.Queue.{
  JobQueue, EnqueueArgs, Error, JobEvent, acknowledge_cancel, cancel, claim, complete, empty,
  enqueue, fail, get, heartbeat, recover_expired, stop_accepting, event_of, new_job,
}
use claude_router.Jobs.Queue.Table.{
  TableSteps, Inv, TableStep, TableSteps-Inv, TableSteps-find, TableSteps-trans, Unique, done,
  then_step,
}
use claude_router.Jobs.Queue.Methods.{
  claim-TableStep, acknowledge_cancel-TableStep, cancel-TableStep, complete-TableStep,
  enqueue-TableStep, fail-TableStep, heartbeat-TableStep, recover_expired-TableSteps,
}

pub data Call : Type 0 where
  enqueues : EnqueueArgs → Call
  claims : (worker_id namespace : String) (ttl : ℕ) (kinds : List String) (now : ℕ) → Call
  heartbeats : (id worker_id : String) (token ttl now : ℕ) → Call
  completes : (id worker_id : String) (token : ℕ) (result : String) (now : ℕ) → Call
  fails :
      (id worker_id : String) (token : ℕ) (error : String) (retryable : Bool) (delay now : ℕ) → Call
  cancels : (id : String) (now : ℕ) → Call
  acknowledges : (id worker_id : String) (token now : ℕ) → Call
  recovers : (now : ℕ) → Call
  stops : Call

-- A call that raises has rolled its transaction back.
abbrev committed {ℓ} : {A : Type ℓ} → JobQueue → Result Error (JobQueue × A) → JobQueue
committed q (ok (q', a)) = q'
committed q (err e) = q

unfoldable pub call : JobQueue → Call → JobQueue
unfolding enqueue new_job claim claimable first_by_order select find update_where count any is_blank
    str_ltb heartbeat complete fail cancel acknowledge_cancel is_current recover_expired
    stop_accepting event_of
call q (enqueues a) = committed q (enqueue a q)
call q (claims w n t k now) = committed q (claim w n t k now q)
call q (heartbeats i w t ttl now) = committed q (heartbeat i w t ttl now q)
call q (completes i w t r now) = committed q (complete i w t r now q)
call q (fails i w t e r d now) = committed q (fail i w t e r d now q)
call q (cancels i now) = committed q (cancel i now q)
call q (acknowledges i w t now) = committed q (acknowledge_cancel i w t now q)
call q (recovers now) = (recover_expired now q).0
call q stops = stop_accepting q

unfoldable pub run : JobQueue → List Call → JobQueue
run q [] = q
run q (c ∷ cs) = run (call q c) cs

committed-TableSteps {ℓ} :
    {A : Type ℓ} (q : JobQueue) (r : Result Error (JobQueue × A))
    → ((q' : JobQueue) (a : A) → r ≡ ok (q', a) → TableStep q.jobs q'.jobs)
    → TableSteps q.jobs (committed q r).jobs
committed-TableSteps q (ok (q', a)) h = then_step done (h q' a refl)
committed-TableSteps q (err e) h = done

call-TableSteps : (q : JobQueue) (c : Call) → Unique q.jobs → TableSteps q.jobs (call q c).jobs
unfolding call stop_accepting
call-TableSteps q (enqueues a) u =
    committed-TableSteps q (enqueue a q) (λ q' j h. enqueue-TableStep a q q' j h)
call-TableSteps q (claims w n t k now) u =
    committed-TableSteps q (claim w n t k now q) (λ q' j h. claim-TableStep w n t k now q q' j u h)
call-TableSteps q (heartbeats i w t ttl now) u =
    committed-TableSteps q (heartbeat i w t ttl now q)
      (λ q' j h. heartbeat-TableStep i w t now ttl q q' j u h)
call-TableSteps q (completes i w t r now) u =
    committed-TableSteps q (complete i w t r now q)
      (λ q' j h. complete-TableStep i w t now r q q' j u h)
call-TableSteps q (fails i w t e r d now) u =
    committed-TableSteps q (fail i w t e r d now q)
      (λ q' j h. fail-TableStep i w t now e r d q q' j u h)
call-TableSteps q (cancels i now) u =
    committed-TableSteps q (cancel i now q) (λ q' j h. cancel-TableStep i now q q' j u h)
call-TableSteps q (acknowledges i w t now) u =
    committed-TableSteps q (acknowledge_cancel i w t now q)
      (λ q' j h. acknowledge_cancel-TableStep i w t now q q' j u h)
call-TableSteps q (recovers now) u = recover_expired-TableSteps now q u
call-TableSteps q stops u = done

pub run-TableSteps :
    (q : JobQueue) (cs : List Call) → Inv q.jobs → TableSteps q.jobs (run q cs).jobs
unfolding run
run-TableSteps q [] v = done
run-TableSteps q (c ∷ cs) v =
    let s = call-TableSteps q c v.unique in
    TableSteps-trans s (run-TableSteps (call q c) cs (TableSteps-Inv s v))

-- Whatever calls are made on an empty queue, the job ids stay unique, and in every row a lease
-- exists exactly while the job runs, a completion time exactly when it is over, and the attempts
-- never pass the bound.
pub run-Inv : (sink : Option (List JobEvent)) (cs : List Call) → Inv (run (empty sink) cs).jobs
unfolding empty
run-Inv sink cs =
    TableSteps-Inv (run-TableSteps (empty sink) cs (record { unique = tt; coherent = tt }))
      (record { unique = tt; coherent = tt })

-- What became of a job.
pub run-get :
    (q : JobQueue) (cs : List Call) (id : String) {j : Job}
    → Inv q.jobs
    → get q id ≡ some j
    → (k : Job) × (get (run q cs) id ≡ some k) × Evolves j k
unfolding get
run-get q cs id v h = TableSteps-find (by_id id) (λ x y s. rw s.job_id) (run-TableSteps q cs v) h

-- A job that is completed, failed or cancelled is never changed again, whatever calls follow.
pub terminal_is_final :
    (q : JobQueue) (cs : List Call) (id : String) (j : Job)
    → Inv q.jobs
    → get q id ≡ some j
    → is_terminal j.status ≡ true
    → get (run q cs) id ≡ some j
terminal_is_final q cs id j v h t =
    let (k, found, e) = run-get q cs id v h in found ∙ ap some (Evolves-terminal e t)

-- Once cancellation of a running job has been requested, whatever calls follow, the job is still
-- running or is cancelled: it is never completed, failed, retried or claimed under a new token.
pub cancel_request_sticks :
    (q : JobQueue) (cs : List Call) (id : String) (j : Job)
    → Inv q.jobs
    → get q id ≡ some j
    → j.status ≡ running
    → j.cancel_requested ≡ true
    → (k : Job) × (get (run q cs) id ≡ some k)
      × ((k.status ≡ running) ⊎ (k.status ≡ cancelled))
      × (k.fencing_token ≡ j.fencing_token)
cancel_request_sticks q cs id j v h runs asked =
    let (k, found, e) = run-get q cs id v h in
    let c : IsCancelling j.fencing_token k =
      Evolves-IsCancelling e (record { requested = asked; status = inl runs; token_same = refl }) in
    (k, found, c.status, c.token_same)
