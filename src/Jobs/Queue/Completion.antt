-- ===== src/Jobs/Queue/Completion.antt =====
-- The worker that claimed a job completes it, after any calls in between.
use claude_router.Prelude.{
  All-Member, Bool-cases, List, Option, String, ap, arith, false, find-Member, inl, inr, ltb,
  ltb→lt, none, ok, refl, some, subst, sym, true, ℕ, ◌+◌, ◌<◌, ◌∙◌, ◌≡◌, ◌≢◌, ◌≤◌, ◌⊎◌,
}
use mathlib.Core.Bool.{false≢true}
use claude_router.Jobs.{
  by_id, JobStatus, Job, running, is_running, claimable, is_current, set_completed, held_by,
}
use claude_router.Jobs.Rows.{
  is_some, Evolves, Evolves-keeps, Evolves-SameJob, IsCoherent, RowStep, Evolves-IsCoherent,
  acknowledges, cancels, claims, completes, fails, recovers, renews, requests_cancel,
}
use claude_router.Jobs.Queue.{JobQueue, claim, complete, get}
use claude_router.Jobs.Queue.Table.{Inv, TableStep-Inv}
use claude_router.Jobs.Queue.Methods.{claim-TableStep}
use claude_router.Jobs.Queue.History.{Call, run, run-get}
use claude_router.Jobs.Queue.Fencing.{
  Claimed, claim-Claimed, claimable_not_cancelled, complete_current, completed_by,
  holder_is_current,
}

-- While the token stays and the job runs, the row is the worker's.
record IsOwned (worker_id : String) (token : ℕ) (j : Job) : Type 0 where
  token_le : token ≤ j.fencing_token
  owner : j.fencing_token ≡ token → j.status ≡ running → j.lease_owner ≡ some worker_id

RowStep-IsOwned : {w : String} {t : ℕ} {j k : Job} → RowStep j k → IsOwned w t j → IsOwned w t k
unfolding claimable is_current
RowStep-IsOwned (claims namespace kinds w e t now c f l eq) h = rw eq (record {
  token_le = let le = h.token_le in omega arith;
  owner = λ p r. let le = h.token_le in absurd (omega arith);
})
RowStep-IsOwned (renews w e t now c eq) h =
    rw eq (record { token_le = h.token_le; owner = h.owner })
RowStep-IsOwned (completes w r t now c eq) h =
    rw eq (record { token_le = h.token_le; owner = λ p s. cc })
RowStep-IsOwned (fails w e r t a now c eq) h =
    rw eq (record { token_le = h.token_le; owner = λ p s. ground arith })
RowStep-IsOwned (requests_cancel now c eq) h =
    rw eq (record { token_le = h.token_le; owner = h.owner })
RowStep-IsOwned (cancels now c d eq) h = rw eq (record { token_le = h.token_le; owner = λ p s. cc })
RowStep-IsOwned (acknowledges w t now c d eq) h =
    rw eq (record { token_le = h.token_le; owner = λ p s. cc })
RowStep-IsOwned (recovers now c d eq) h =
    rw eq (record { token_le = h.token_le; owner = λ p s. ground arith })

Evolves-IsOwned : {w : String} {t : ℕ} {j k : Job} → Evolves j k → IsOwned w t j → IsOwned w t k
Evolves-IsOwned {w} {t} = Evolves-keeps (IsOwned w t) (λ j k s. RowStep-IsOwned s)

-- Why a worker with this token cannot settle its job any more: the job no longer runs, was claimed again, is
-- being cancelled, or its lease has run out.
pub data IsLost (token later : ℕ) (k : Job) : Type 0 where
  ended : k.status ≢ running → IsLost token later k
  claimed_again : token < k.fencing_token → IsLost token later k
  cancelling : k.cancel_requested ≡ true → IsLost token later k
  ran_out :
      (expires : ℕ) → k.lease_expires_at ≡ some expires → expires ≤ later → IsLost token later k

-- The worker runs the job under a lease.
pub record IsLeased (worker_id : String) (expires : ℕ) (j : Job) : Type 0 where
  pub runs : j.status ≡ running
  pub owner : j.lease_owner ≡ some worker_id
  pub lease : j.lease_expires_at ≡ some expires
  pub wanted : j.cancel_requested ≡ false

Claimed-IsLeased :
    (worker_id namespace : String) (ttl : ℕ) (kinds : List String) (now : ℕ) (q q' : JobQueue)
    (j : Job)
    → Claimed worker_id namespace ttl kinds now q q' j
    → IsLeased worker_id (now + ttl) j
Claimed-IsLeased worker_id namespace ttl kinds now q q' j c =
    let w = c.written in
    record {
      runs = ap (λ z. z.status) w;
      owner = ap (λ z. z.lease_owner) w;
      lease = ap (λ z. z.lease_expires_at) w;
      wanted =
          ap (λ z. z.cancel_requested) w
          ∙ claimable_not_cancelled namespace kinds now c.row c.allowed;
    }

-- A row of the worker's token that is lost, or that the worker holds.
lost_or_held :
    (worker_id : String) (token later : ℕ) (k : Job)
    → IsCoherent k
    → IsOwned worker_id token k
    → IsLost token later k
      ⊎ ((k.fencing_token ≡ token)
          × (is_current worker_id k.fencing_token later false k ≡ true)
          × (held_by k.job_id worker_id k.fencing_token k ≡ true))
lost_or_held worker_id token later k v h = elim (Bool-cases (is_running k.status)) [
  | inr n ↦ inl (ended (λ r. false≢true (sym n ∙ ap is_running r)))
  | inl r ↦ elim (Bool-cases (ltb token k.fencing_token)) [
    | inl l ↦ inl (claimed_again (ltb→lt token k.fencing_token l))
    | inr l ↦ elim (Bool-cases k.cancel_requested) [
      | inl c ↦ inl (cancelling c)
      | inr c ↦
          let runs : k.status ≡ running = is_running-≡ k.status r in
          let current : k.fencing_token ≡ token = le-antisym h.token_le l in
          by_lease runs current c k.lease_expires_at refl (v.expiry ∙ r)
    ]
  ]
]
  where
    is_running-≡ : (s : JobStatus) → is_running s ≡ true → s ≡ running
    is_running-≡ s e = ground arith

    le-antisym :
        token ≤ k.fencing_token → ltb token k.fencing_token ≡ false → k.fencing_token ≡ token
    le-antisym a b = ground arith

    by_lease :
        k.status ≡ running
        → k.fencing_token ≡ token
        → k.cancel_requested ≡ false
        → (o : Option ℕ) → k.lease_expires_at ≡ o
        → is_some o ≡ true
        → IsLost token later k
          ⊎ ((k.fencing_token ≡ token)
              × (is_current worker_id k.fencing_token later false k ≡ true)
              × (held_by k.job_id worker_id k.fencing_token k ≡ true))
    by_lease runs current c none e s = cc
    by_lease runs current c (some expires) e s = elim (Bool-cases (ltb later expires)) [
      | inl l ↦
          let (a, b) =
            holder_is_current worker_id later expires k runs (h.owner current runs) e c
              (ltb→lt later expires l) in
          inr (current, a, b)
      | inr l ↦ inl (ran_out expires e (ground arith))
    ]

stored-IsCoherent : (q : JobQueue) (j : Job) → Inv q.jobs → get q j.job_id ≡ some j → IsCoherent j
unfolding get
stored-IsCoherent q j v f =
    All-Member IsCoherent v.coherent (find-Member (by_id j.job_id) q.jobs f).0

-- The call that the worker makes, with the id and the token that it was given.
settles :
    (q : JobQueue) (k : Job) (worker_id result : String) (later : ℕ) {id : String} {token : ℕ}
    → k.job_id ≡ id
    → k.fencing_token ≡ token
    → (complete k.job_id worker_id k.fencing_token result later q
        ≡ ok (completed_by worker_id result later k q, set_completed result later k))
      × (get (completed_by worker_id result later k q) k.job_id
          ≡ some (set_completed result later k))
    → (q'' : JobQueue) × (complete id worker_id token result later q
        ≡ ok (q'', set_completed result later k))
      × (get q'' id ≡ some (set_completed result later k))
settles q k worker_id result later {id} {token} same_id same_token (done_now, stored) = (
  completed_by worker_id result later k q,
  subst
      (λ t.
        complete id worker_id t result later q
        ≡ ok (completed_by worker_id result later k q, set_completed result later k))
      same_token
      (subst
        (λ i.
          complete i worker_id k.fencing_token result later q
          ≡ ok (completed_by worker_id result later k q, set_completed result later k))
        same_id done_now),
  subst (λ i. get (completed_by worker_id result later k q) i ≡ some (set_completed result later k))
      same_id stored,
)

-- A successful claim stores the job as the worker's, under a lease of `ttl` and without a request to
-- cancel it. After any further calls by anyone, the worker can complete the job with its token: the
-- call succeeds and stores the row of that time as completed with the worker's result; unless the
-- job no longer runs, was claimed again under a newer token, has been asked to be cancelled, or the
-- lease it has at that time has run out.
pub claimed_can_complete :
    (q q' : JobQueue) (worker_id namespace result : String) (ttl : ℕ) (kinds : List String)
    (now later : ℕ) (j : Job) (cs : List Call)
    → Inv q.jobs
    → claim worker_id namespace ttl kinds now q ≡ ok (q', some j)
    → (get q' j.job_id ≡ some j)
      × IsLeased worker_id (now + ttl) j
      × ((k : Job) × (get (run q' cs) j.job_id ≡ some k)
          × (((q'' : JobQueue) × (complete j.job_id worker_id j.fencing_token result later
                    (run q' cs)
                  ≡ ok (q'', set_completed result later k))
                × (get q'' j.job_id ≡ some (set_completed result later k)))
              ⊎ IsLost j.fencing_token later k))
claimed_can_complete q q' worker_id namespace result ttl kinds now later j cs v h =
    let c : Claimed worker_id namespace ttl kinds now q q' j =
      claim-Claimed worker_id namespace ttl kinds now q q' j v h in
    let leased = Claimed-IsLeased worker_id namespace ttl kinds now q q' j c in
    let v' =
      TableStep-Inv (claim-TableStep worker_id namespace ttl kinds now q q' (some j) v.unique h)
        v in
    let (k, found, e) = run-get q' cs j.job_id v' c.stored in
    let same_id = (Evolves-SameJob e).job_id in
    let owned : IsOwned worker_id j.fencing_token k =
      Evolves-IsOwned e (record { token_le = omega arith; owner = λ p r. leased.owner }) in
    let coherent = Evolves-IsCoherent e (stored-IsCoherent q' j v' c.stored) in
    (
      c.stored,
      leased,
      (
        k,
        found,
        elim (lost_or_held worker_id j.fencing_token later k coherent owned) [
          | inl lost ↦ inr lost
          | inr (token, current, held) ↦ inl (
              settles (run q' cs) k worker_id result later same_id token (
                complete_current worker_id result later k (run q' cs)
                  (subst (λ i. get (run q' cs) i ≡ some k) (sym same_id) found) current held))
        ],
      ),
    )
