-- ===== src/Jobs/Queue/Fencing.antt =====
-- Leases and fencing tokens: who may write a job, and until when.
use claude_router.Prelude.{
  ==_refl, >>=-eq-ok, Bool, Bool-cases, List, Option, String, [], ap, arith, count, err, false,
  find, if◌then◌else◌, inl, inr, is_blank, leb, lt→leb-false, none, not, ok, raise_if, refl, select,
  some, subst, sym, true, update_where, ℕ, ◌+◌, ◌<◌, ◌==◌, ◌||◌, ◌∙◌, ◌∷◌, ◌≡◌, ◌≢◌, nat_eq,
  string_eq, option_eq,
}
use claude_router.Jobs.{
  Job, by_id, is_current, claimable, set_claimed, held_by, running, set_completed, first_by_order,
}
use claude_router.Jobs.Rows.{Evolves-SameJob}
use claude_router.Jobs.Queue.{
  JobQueue, acknowledge_cancel, complete, fail, get, heartbeat, lease_lost, require_current,
  claim_row, lost_update, next_token, reread, same_claim, claim, emit, invalid, update_held,
}
use claude_router.Jobs.Queue.Table.{Inv, Unique, find_of_Member}
use claude_router.Jobs.Queue.Methods.{reread-jobs, next_token-lt, picked}
use claude_router.Jobs.Queue.History.{Call, run, run-get}

old_token :
    (worker_id : String) (token now : ℕ) (allow : Bool) (j : Job)
    → token < j.fencing_token
    → is_current worker_id token now allow j ≡ false
unfolding is_current
old_token worker_id token now allow j h = ground arith

refused :
    (id worker_id : String) (token now : ℕ) (allow : Bool) (jobs : List Job) (j : Job)
    → find (by_id id) jobs ≡ some j
    → is_current worker_id token now allow j ≡ false
    → require_current id worker_id token now allow jobs ≡ err lease_lost
unfolding require_current
refused id worker_id token now allow jobs j f h = rw f (rw h)

-- A token below the one that the row carries stays useless for ever: after any further calls,
-- completing, heartbeating, failing or acknowledging with it raises JobLeaseLostError. (A blank
-- error text or an empty lease is refused before the token is looked at.)
pub stale_token_is_refused :
    (q : JobQueue) (cs : List Call) (id worker_id : String) (token : ℕ) (j : Job)
    (result error : String) (retryable : Bool) (delay ttl now : ℕ)
    → Inv q.jobs
    → get q id ≡ some j
    → token < j.fencing_token
    → is_blank error ≡ false
    → 0 < ttl
    → (complete id worker_id token result now (run q cs) ≡ err lease_lost)
      × (heartbeat id worker_id token ttl now (run q cs) ≡ err lease_lost)
      × (fail id worker_id token error retryable delay now (run q cs) ≡ err lease_lost)
      × (acknowledge_cancel id worker_id token now (run q cs) ≡ err lease_lost)
unfolding complete heartbeat fail acknowledge_cancel get
stale_token_is_refused q cs id worker_id token j result error retryable delay ttl now v h old b
      pos =
    let (k, found, e) = run-get q cs id v h in
    let older : token < k.fencing_token = omega (arith, (Evolves-SameJob e).token_le) in
    let no_claim = λ (allow : Bool).
      refused id worker_id token now allow (run q cs).jobs k found
        (old_token worker_id token now allow k older) in
    (
      rw (no_claim false),
      rw (lt→leb-false 0 ttl pos) (rw (no_claim false)),
      rw b (rw (no_claim false)),
      rw (no_claim true),
    )

pub find-update :
    (id : String) (p : Job → Bool) (f : Job → Job) (xs : List Job) {r : Job}
    → ((x : Job) → (f x).job_id ≡ x.job_id)
    → find (by_id id) xs ≡ some r
    → find (by_id id) (update_where p f xs) ≡ some (if p r then f r else r)
unfolding find update_where
find-update id p f [] keeps h = cc
find-update id p f (x ∷ xs) {r} keeps h = elim (Bool-cases (by_id id x)) [
  | inl t ↦
      let same : x ≡ r = ground arith in
      rw (← same) (elim (Bool-cases (p x)) [
        | inl e ↦ rw e (rw (ap (λ i. i == id) (keeps x) ∙ t))
        | inr e ↦ rw e (rw t)
      ])
  | inr t ↦
      let rest = find-update id p f xs keeps (rw t at h) in
      elim (Bool-cases (p x)) [
        | inl e ↦ rw e (rw (ap (λ i. i == id) (keeps x) ∙ t) rest)
        | inr e ↦ rw e (rw t rest)
      ]
]

-- The row behind a successful claim, and what the claim made of it.
pub record Claimed (worker_id namespace : String) (ttl : ℕ) (kinds : List String) (now : ℕ)
    (q q' : JobQueue) (j : Job) : Type 0 where
  pub row : Job
  pub first : first_by_order (select (claimable namespace kinds now) q.jobs) ≡ some row
  pub was : get q j.job_id ≡ some row
  pub allowed : claimable namespace kinds now row ≡ true
  pub newer : row.fencing_token < j.fencing_token
  pub written : j ≡ set_claimed worker_id (now + ttl) j.fencing_token now row
  pub stored : get q' j.job_id ≡ some j

pub same_claim_refl : (row : Job) → same_claim row row ≡ true
same_claim_refl row = rw (==_refl row.job_id) (==_refl row.fencing_token)

claim_row-Claimed :
    (worker_id namespace : String) (kinds : List String) (ttl now : ℕ) (q q' : JobQueue)
    (o : Option Job) (j : Job)
    → Unique q.jobs
    → first_by_order (select (claimable namespace kinds now) q.jobs) ≡ o
    → claim_row worker_id (now + ttl) now q o ≡ ok (q', some j)
    → Claimed worker_id namespace ttl kinds now q q' j
unfolding claim_row get
claim_row-Claimed worker_id namespace kinds ttl now q q' none j u chosen h = cc
claim_row-Claimed worker_id namespace kinds ttl now q q' (some row) j u chosen h =
    let (_, _, h1) =
      >>=-eq-ok (raise_if (not (count (same_claim row) q.jobs == 1)) lost_update) _ h in
    let ((q'', k), read, h2) = >>=-eq-ok (reread "claimed" row.job_id _) _ h1 in
    let token = next_token q row in
    let f = set_claimed worker_id (now + ttl) token now in
    let (m, c) = picked namespace kinds now q.jobs row chosen in
    let (jobs_same, read_back) = reread-jobs "claimed" row.job_id _ q'' k read in
    let found = find_of_Member q.jobs u m in
    let k_is : k ≡ f row = ground (
      arith,
      find-update row.job_id (same_claim row) f q.jobs (λ x. refl) found,
      same_claim_refl row,
      read_back,
    ) in
    let j_is : j ≡ f row = sym (ground (arith, h2)) ∙ k_is in
    let id_same : j.job_id ≡ row.job_id = ap (λ z. z.job_id) j_is in
    record {
      row = row;
      first = chosen;
      was = rw id_same found;
      allowed = c;
      newer = rw j_is (next_token-lt q row);
      written =
          j_is
          ∙ ap (λ n. set_claimed worker_id (now + ttl) n now row)
              (sym (ap (λ z. z.fencing_token) j_is));
      stored =
          subst (λ i. find (by_id i) q'.jobs ≡ some j) (sym id_same)
            (subst (λ js. find (by_id row.job_id) js ≡ some j) (sym jobs_same ∙ ground (arith, h2))
              (read_back ∙ ap some (ground (arith, h2))));
    }

-- A successful claim returns the row that is stored from then on: the worker's, running, with a
-- token above every token that the job had, under a lease of `ttl`; and the row it was before was
-- one that the WHERE clause allows.
pub claim-Claimed :
    (worker_id namespace : String) (ttl : ℕ) (kinds : List String) (now : ℕ) (q q' : JobQueue)
    (j : Job)
    → Inv q.jobs
    → claim worker_id namespace ttl kinds now q ≡ ok (q', some j)
    → Claimed worker_id namespace ttl kinds now q q' j
unfolding claim
claim-Claimed worker_id namespace ttl kinds now q q' j v h =
    let (_, _, h1) = >>=-eq-ok (raise_if (is_blank worker_id || is_blank namespace) invalid) _ h in
    let (_, _, h2) = >>=-eq-ok (raise_if (leb ttl 0) invalid) _ h1 in
    claim_row-Claimed worker_id namespace kinds ttl now q q' _ j v.unique refl h2

leased_not_claimable :
    (namespace : String) (kinds : List String) (now expires : ℕ) (j : Job)
    → j.status ≡ running
    → j.lease_expires_at ≡ some expires
    → now < expires
    → claimable namespace kinds now j ≢ true
unfolding claimable
leased_not_claimable namespace kinds now expires j s e l = ground arith

-- While a job's lease has not expired, no claim by any worker returns that job.
pub live_lease_excludes :
    (q q' : JobQueue) (id worker_id namespace : String) (ttl : ℕ) (kinds : List String)
    (now expires : ℕ) (j k : Job)
    → Inv q.jobs
    → get q id ≡ some j
    → j.status ≡ running
    → j.lease_expires_at ≡ some expires
    → now < expires
    → claim worker_id namespace ttl kinds now q ≡ ok (q', some k)
    → k.job_id ≢ id
live_lease_excludes q q' id worker_id namespace ttl kinds now expires j k v f s e l h same =
    let c : Claimed worker_id namespace ttl kinds now q q' k =
      claim-Claimed worker_id namespace ttl kinds now q q' k v h in
    let row_is : j ≡ c.row =
      ground (arith, c.was, f, same, subst (λ i. get q i ≡ some c.row) same c.was) in
    leased_not_claimable namespace kinds now expires j s e l (rw row_is c.allowed)

-- The columns of a job right after its claim.
pub holder_is_current :
    (worker_id : String) (later expires : ℕ) (j : Job)
    → j.status ≡ running
    → j.lease_owner ≡ some worker_id
    → j.lease_expires_at ≡ some expires
    → j.cancel_requested ≡ false
    → later < expires
    → (is_current worker_id j.fencing_token later false j ≡ true)
      × (held_by j.job_id worker_id j.fencing_token j ≡ true)
unfolding is_current
holder_is_current worker_id later expires j s o e c l =
    ground (arith, ==_refl j.job_id, ==_refl worker_id)

pub claimable_not_cancelled :
    (namespace : String) (kinds : List String) (now : ℕ) (j : Job)
    → claimable namespace kinds now j ≡ true
    → j.cancel_requested ≡ false
unfolding claimable
claimable_not_cancelled namespace kinds now j h = ground arith

pub completed_by : String → String → ℕ → Job → JobQueue → JobQueue
completed_by worker_id result now j q =
    emit "completed" (set_completed result now j)
      (update_held j.job_id worker_id j.fencing_token (set_completed result now) q)

pub complete_current :
    (worker_id result : String) (now : ℕ) (j : Job) (q : JobQueue)
    → get q j.job_id ≡ some j
    → is_current worker_id j.fencing_token now false j ≡ true
    → held_by j.job_id worker_id j.fencing_token j ≡ true
    → (complete j.job_id worker_id j.fencing_token result now q
        ≡ ok (completed_by worker_id result now j q, set_completed result now j))
      × (get (completed_by worker_id result now j q) j.job_id ≡ some (set_completed result now j))
unfolding complete require_current reread get completed_by
complete_current worker_id result now j q f c held =
    let p = held_by j.job_id worker_id j.fencing_token in
    let g = set_completed result now in
    let after_update = find-update j.job_id p g q.jobs (λ x. refl) f in
    let stored : find (by_id j.job_id) (update_where p g q.jobs) ≡ some (g j) =
      after_update ∙ ap (λ b. some (if b then g j else j)) held in
    (rw f (rw c (rw stored)), stored)
