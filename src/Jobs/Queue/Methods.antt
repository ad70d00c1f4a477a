-- ===== src/Jobs/Queue/Methods.antt =====
-- Each method of the queue is one step of the table, or leaves it as it is.
use claude_router.Prelude.{
  >>=-eq-ok, All, All-of_Member, Bool, Bool-cases, List, Member, Member-update, Option,
  Option-cases, String, [], and-true, any, arith, count, false, find, here, inl, inr, is_blank, leb,
  ltb, none, not, ok, raise_if, refl, select, select-Member, some, subst, sym, there, true,
  update_where, ℕ, ◌&&◌, ◌+◌, ◌<◌, ◌==◌, ◌||◌, ◌∙◌, ◌∷◌, ◌≡◌, nat_eq, string_eq, option_eq,
}
use claude_router.Jobs.{
  Job, by_id, held_by, is_current, set_renewed, by_key, is_running, is_terminal,
  set_cancel_acknowledged, set_cancel_requested, set_cancelled, set_completed, set_failed,
  claimable, comes_before, first_by_order, reached, recovered_status, set_claimed, set_recovered,
}
use claude_router.Jobs.Rows.{
  RowStep, renews, acknowledges, cancels, completes, fails, requests_cancel, claims, recovers,
}
use claude_router.Jobs.Queue.{
  JobQueue, heartbeat, invalid, require_current, reread, EnqueueArgs, Error, acknowledge_cancel,
  cancel, cancel_row, closing, complete, differs, enqueue, fail, fail_event, insert_or_return,
  integrity, key_conflict, no_such_job, not_requested, or_raise, same_claim, claim, claim_row,
  expired, lost_update, next_token, recover_expired, recover_rows, same_lease,
}
use claude_router.Jobs.Queue.Table.{
  TableStep, Unique, find-Unique, updates, idle, inserts, TableStep-Unique, TableSteps,
  TableSteps-cons, Unique-select, done, find_of_Member,
}

pub reread-jobs :
    (t id : String) (q q' : JobQueue) (j : Job)
    → reread t id q ≡ ok (q', j)
    → (q'.jobs ≡ q.jobs) × (find (by_id id) q.jobs ≡ some j)
unfolding reread
reread-jobs t id q q' j h = ground arith

pub current_row :
    (id worker_id : String) (token now : ℕ) (allow : Bool) (jobs : List Job) (row : Job)
    → require_current id worker_id token now allow jobs ≡ ok row
    → (find (by_id id) jobs ≡ some row) × (is_current worker_id token now allow row ≡ true)
unfolding require_current
current_row id worker_id token now allow jobs row h = ground arith

held_by_id :
    (id worker_id : String) (token : ℕ) (j : Job)
    → held_by id worker_id token j ≡ true
    → by_id id j ≡ true
held_by_id id worker_id token j h = ground arith

same_claim_id :
    (row j : Job)
    → same_claim row j ≡ true
    → (by_id row.job_id j ≡ true) × ((j.fencing_token == row.fencing_token) ≡ true)
same_claim_id row j h = ground arith

module _ (id worker_id : String) (token now : ℕ) where
  -- The update that follows a successful `_require_current` touches that row alone.
  held_TableStep :
      (allow : Bool) (f : Job → Job) (jobs : List Job) (row : Job)
      → Unique jobs
      → require_current id worker_id token now allow jobs ≡ ok row
      → RowStep row (f row)
      → TableStep jobs (update_where (held_by id worker_id token) f jobs)
  held_TableStep allow f jobs row u h step =
      updates (held_by id worker_id token) f
        (λ j m t.
          subst (λ z. RowStep z (f z))
            (sym (
              find-Unique id jobs u (current_row id worker_id token now allow jobs row h).0 m
                (held_by_id id worker_id token j t)))
            step)
        refl

  pub heartbeat-TableStep :
      (ttl : ℕ) (q q' : JobQueue) (j : Job)
      → Unique q.jobs
      → heartbeat id worker_id token ttl now q ≡ ok (q', j)
      → TableStep q.jobs q'.jobs
  unfolding heartbeat
  heartbeat-TableStep ttl q q' j u h =
      let (_, _, h1) = >>=-eq-ok (raise_if (leb ttl 0) invalid) _ h in
      let (row, c, h2) = >>=-eq-ok (require_current id worker_id token now false q.jobs) _ h1 in
      rw ((reread-jobs "heartbeat" id _ q' j h2).0) (
        held_TableStep false (set_renewed (now + ttl) now) q.jobs row u c (
          renews worker_id (now + ttl) token now
            (current_row id worker_id token now false q.jobs row c).1 refl))

  pub complete-TableStep :
      (result : String) (q q' : JobQueue) (j : Job)
      → Unique q.jobs
      → complete id worker_id token result now q ≡ ok (q', j)
      → TableStep q.jobs q'.jobs
  unfolding complete
  complete-TableStep result q q' j u h =
      let (row, c, h1) = >>=-eq-ok (require_current id worker_id token now false q.jobs) _ h in
      rw ((reread-jobs "completed" id _ q' j h1).0) (
        held_TableStep false (set_completed result now) q.jobs row u c (
          completes worker_id result token now
            (current_row id worker_id token now false q.jobs row c).1 refl))

  pub fail-TableStep :
      (error : String) (retryable : Bool) (delay : ℕ) (q q' : JobQueue) (j : Job)
      → Unique q.jobs
      → fail id worker_id token error retryable delay now q ≡ ok (q', j)
      → TableStep q.jobs q'.jobs
  unfolding fail
  fail-TableStep error retryable delay q q' j u h =
      let (_, _, h1) = >>=-eq-ok (raise_if (is_blank error) invalid) _ h in
      let (row, c, h2) = >>=-eq-ok (require_current id worker_id token now false q.jobs) _ h1 in
      let again = retryable && ltb row.attempts row.max_attempts in
      rw ((reread-jobs (fail_event again) id _ q' j h2).0) (
        held_TableStep false (set_failed again error (now + delay) now) q.jobs row u c (
          fails worker_id error retryable token (now + delay) now
            (current_row id worker_id token now false q.jobs row c).1 refl))

  pub acknowledge_cancel-TableStep :
      (q q' : JobQueue) (j : Job)
      → Unique q.jobs
      → acknowledge_cancel id worker_id token now q ≡ ok (q', j)
      → TableStep q.jobs q'.jobs
  unfolding acknowledge_cancel
  acknowledge_cancel-TableStep q q' j u h =
      let (row, c, h1) = >>=-eq-ok (require_current id worker_id token now true q.jobs) _ h in
      let (_, asked, h2) = >>=-eq-ok (raise_if (not row.cancel_requested) not_requested) _ h1 in
      rw ((reread-jobs "cancelled" id _ q' j h2).0) (
        held_TableStep true (set_cancel_acknowledged now) q.jobs row u c (
          acknowledges worker_id token now (current_row id worker_id token now true q.jobs row c).1
            (ground arith) refl))

-- A row that is updated alone, by its id.
by_id-TableStep :
    (id : String) (f : Job → Job) (jobs : List Job) (row : Job)
    → Unique jobs
    → find (by_id id) jobs ≡ some row
    → RowStep row (f row)
    → TableStep jobs (update_where (by_id id) f jobs)
by_id-TableStep id f jobs row u h step =
    updates (by_id id) f
      (λ j m t. subst (λ z. RowStep z (f z)) (sym (find-Unique id jobs u h m t)) step) refl

cancel_row-TableStep :
    (id : String) (now : ℕ) (q q' : JobQueue) (row j : Job)
    → Unique q.jobs
    → find (by_id id) q.jobs ≡ some row
    → cancel_row id now q row ≡ ok (q', j)
    → TableStep q.jobs q'.jobs
unfolding cancel_row
cancel_row-TableStep id now q q' row j u f h = elim (Bool-cases (is_terminal row.status)) [
  | inl over ↦ idle (ground (arith, over))
  | inr live ↦ elim (Bool-cases (is_running row.status)) [
    | inl runs ↦ rw ((reread-jobs "cancel_requested" id _ q' j (rw (live, runs) at h)).0) (
        by_id-TableStep id (set_cancel_requested now) q.jobs row u f
          (requests_cancel now runs refl))
    | inr waits ↦
        rw ((reread-jobs "cancelled" id _ q' j (rw (live, waits) at h)).0)
          (by_id-TableStep id (set_cancelled now) q.jobs row u f (cancels now waits live refl))
  ]
]

or_raise-eq-ok : (o : Option Job) (e : Error) (j : Job) → or_raise o e ≡ ok j → o ≡ some j
or_raise-eq-ok o e j h = ground arith

pub cancel-TableStep :
    (id : String) (now : ℕ) (q q' : JobQueue) (j : Job)
    → Unique q.jobs
    → cancel id now q ≡ ok (q', j)
    → TableStep q.jobs q'.jobs
unfolding cancel
cancel-TableStep id now q q' j u h =
    let (row, f, h1) = >>=-eq-ok (or_raise (find (by_id id) q.jobs) no_such_job) _ h in
    cancel_row-TableStep id now q q' row j u (or_raise-eq-ok _ no_such_job row f) h1

insert_or_return-TableStep :
    (a : EnqueueArgs) (q q' : JobQueue) (o : Option Job) (j : Job)
    → insert_or_return a q o ≡ ok (q', j)
    → TableStep q.jobs q'.jobs
unfolding insert_or_return
insert_or_return-TableStep a q q' (some existing) j h =
    let (_, _, h1) = >>=-eq-ok (raise_if (differs a existing) key_conflict) _ h in
    idle (ground arith)
insert_or_return-TableStep a q q' none j h =
    let (_, fresh, h1) = >>=-eq-ok (raise_if (any (by_id a.job_id) q.jobs) integrity) _ h in
    inserts a (ground arith) (reread-jobs "queued" a.job_id _ q' j h1).0

pub enqueue-TableStep :
    (a : EnqueueArgs) (q q' : JobQueue) (j : Job)
    → enqueue a q ≡ ok (q', j)
    → TableStep q.jobs q'.jobs
unfolding enqueue
enqueue-TableStep a q q' j h =
    let (_, _, h1) = >>=-eq-ok (raise_if (not q.accepting) closing) _ h in
    let (_, _, h2) =
      >>=-eq-ok
        (raise_if (is_blank a.kind || is_blank a.idempotency_key || is_blank a.namespace) invalid) _
        h1 in
    let (_, _, h3) = >>=-eq-ok (raise_if (ltb a.max_attempts 1) invalid) _ h2 in
    insert_or_return-TableStep a q q' (find (by_key a.namespace a.idempotency_key) q.jobs) j h3

first_by_order-Member : (xs : List Job) {r : Job} → first_by_order xs ≡ some r → Member r xs
unfolding first_by_order
first_by_order-Member [] h = cc
first_by_order-Member (x ∷ xs) {r} h = elim (Option-cases (first_by_order xs)) [
  | inl e ↦ let same : x ≡ r = ground (arith, e) in subst (λ z. Member z (x ∷ xs)) same here
  | inr (b, e) ↦ elim (Bool-cases (comes_before b x)) [
    | inl t ↦
        let same : b ≡ r = ground (arith, e, t) in
        there (subst (λ z. Member z xs) same (first_by_order-Member xs e))
    | inr t ↦ let same : x ≡ r = ground (arith, e, t) in subst (λ z. Member z (x ∷ xs)) same here
  ]
]

-- The row that `claim` picks is in the table and passes the WHERE clause.
pub picked :
    (namespace : String) (kinds : List String) (now : ℕ) (jobs : List Job) (r : Job)
    → first_by_order (select (claimable namespace kinds now) jobs) ≡ some r
    → Member r jobs × (claimable namespace kinds now r ≡ true)
picked namespace kinds now jobs r h =
    select-Member (claimable namespace kinds now) jobs r (first_by_order-Member _ h)

pub next_token-lt : (q : JobQueue) (row : Job) → row.fencing_token < next_token q row
unfolding next_token
next_token-lt q row = omega arith

claim_row-TableStep :
    (worker_id namespace : String) (kinds : List String) (ttl now : ℕ) (q q' : JobQueue)
    (o : Option Job) (j : Option Job)
    → 0 < ttl
    → Unique q.jobs
    → ((r : Job) → o ≡ some r → Member r q.jobs × (claimable namespace kinds now r ≡ true))
    → claim_row worker_id (now + ttl) now q o ≡ ok (q', j)
    → TableStep q.jobs q'.jobs
unfolding claim_row
claim_row-TableStep worker_id namespace kinds ttl now q q' none j pos u chosen h =
    idle (ground arith)
claim_row-TableStep worker_id namespace kinds ttl now q q' (some row) j pos u chosen h =
    let (_, _, h1) =
      >>=-eq-ok (raise_if (not (count (same_claim row) q.jobs == 1)) lost_update) _ h in
    let ((q'', k), read, h2) = >>=-eq-ok (reread "claimed" row.job_id _) _ h1 in
    let (m, c) = chosen row refl in
    let token = next_token q row in
    let found = find_of_Member q.jobs u m in
    let same : q''.jobs ≡ q'.jobs = ground arith in
    rw ((sym same) ∙ (reread-jobs "claimed" row.job_id _ q'' k read).0) (
      updates (same_claim row) (set_claimed worker_id (now + ttl) token now)
        (λ x mx t.
          subst (λ z. RowStep z (set_claimed worker_id (now + ttl) token now z))
            (sym (find-Unique row.job_id q.jobs u found mx (same_claim_id row x t).0))
            (claims namespace kinds worker_id (now + ttl) token now c (next_token-lt q row)
              (omega arith) refl))
        refl)

pub claim-TableStep :
    (worker_id namespace : String) (ttl : ℕ) (kinds : List String) (now : ℕ) (q q' : JobQueue)
    (j : Option Job)
    → Unique q.jobs
    → claim worker_id namespace ttl kinds now q ≡ ok (q', j)
    → TableStep q.jobs q'.jobs
unfolding claim
claim-TableStep worker_id namespace ttl kinds now q q' j u h =
    let (_, _, h1) = >>=-eq-ok (raise_if (is_blank worker_id || is_blank namespace) invalid) _ h in
    let (_, pos, h2) = >>=-eq-ok (raise_if (leb ttl 0) invalid) _ h1 in
    claim_row-TableStep worker_id namespace kinds ttl now q q' _ j (ground arith) u
      (λ r e. picked namespace kinds now q.jobs r e) h2

recovered_row :
    (now : ℕ) (row : Job)
    → expired now row ≡ true
    → RowStep row (set_recovered (recovered_status row) now row)
recovered_row now row e =
    let (a, b) = and-true (is_running row.status) (reached row.lease_expires_at now) e in
    recovers now a b refl

same_lease_id : (row j : Job) → same_lease row j ≡ true → by_id row.job_id j ≡ true
same_lease_id row j h = ground arith

same_lease_other : (row j : Job) → by_id row.job_id j ≡ false → same_lease row j ≡ false
same_lease_other row j h = ground arith

pub recover_step :
    (now : ℕ) (row : Job) (jobs : List Job)
    → Unique jobs
    → Member row jobs
    → expired now row ≡ true
    → TableStep jobs (update_where (same_lease row) (set_recovered (recovered_status row) now) jobs)
recover_step now row jobs u m e =
    updates (same_lease row) (set_recovered (recovered_status row) now)
      (λ x mx t.
        subst (λ z. RowStep z (set_recovered (recovered_status row) now z))
          (sym (find-Unique row.job_id jobs u (find_of_Member jobs u m) mx (same_lease_id row x t)))
          (recovered_row now row e))
      refl

abbrev pub Pending : ℕ → List Job → Job → Type 0
Pending now jobs r = Member r jobs × (expired now r ≡ true)

pub still_Pending :
    (now : ℕ) (row : Job) (rows jobs : List Job)
    → All (λ k. by_id row.job_id k ≡ false) rows
    → All (Pending now jobs) rows
    → All
        (Pending now
          (update_where (same_lease row) (set_recovered (recovered_status row) now) jobs))
        rows
still_Pending now row [] jobs d h = tt
still_Pending now row (r ∷ rs) jobs d h = (
  (Member-update (same_lease row) _ h.0.0 (same_lease_other row r d.0), h.0.1),
  still_Pending now row rs jobs d.1 h.1,
)

recover_rows-TableSteps :
    (now : ℕ) (rows jobs : List Job)
    → Unique jobs
    → Unique rows
    → All (Pending now jobs) rows
    → TableSteps jobs (recover_rows now rows jobs).0
unfolding recover_rows
recover_rows-TableSteps now [] jobs u v h = done
recover_rows-TableSteps now (row ∷ rows) jobs u v h =
    let step = recover_step now row jobs u h.0.0 h.0.1 in
    TableSteps-cons step (
      recover_rows-TableSteps now rows _ (TableStep-Unique step u) v.1
        (still_Pending now row rows jobs v.0 h.1))

pub recover_expired-TableSteps :
    (now : ℕ) (q : JobQueue) → Unique q.jobs → TableSteps q.jobs (recover_expired now q).0.jobs
unfolding recover_expired
recover_expired-TableSteps now q u =
    recover_rows-TableSteps now (select (expired now) q.jobs) q.jobs u
      (Unique-select (expired now) q.jobs u)
      (All-of_Member (Pending now q.jobs) _ (λ x m. select-Member (expired now) q.jobs x m))
