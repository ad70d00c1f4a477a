-- ===== src/Jobs/Execution/Held.antt =====
-- The calls of the queue with which a worker that still holds its job settles it.
use claude_router.Prelude.{
  ==_refl, Bool, Result, String, ap, arith, false, find, if◌then◌else◌, is_blank, not, ok, raise_if,
  refl, some, true, update_where, ℕ, ◌+◌, ◌<◌, ◌>>◌, ◌||◌, ◌∙◌, ◌≡◌, nat_eq, string_eq, option_eq,
}
use claude_router.Jobs.{
  Job, by_id, held_by, is_current, running, set_completed, set_failed, set_cancel_acknowledged,
}
use claude_router.Jobs.Queue.{
  Error, not_requested, JobQueue, emit, reread, get, update_held, acknowledge_cancel, complete,
  fail, require_current,
}
use claude_router.Jobs.Queue.Fencing.{find-update}

-- The row is still the worker's: what it claimed, but that others may have asked to cancel it or renewed it.
pub record IsHeld (worker_id : String) (token : ℕ) (later : ℕ) (k : Job) : Type 0 where
  pub runs : k.status ≡ running
  pub owner : k.lease_owner ≡ some worker_id
  pub same_token : k.fencing_token ≡ token
  pub expires : ℕ
  pub lease : k.lease_expires_at ≡ some expires
  pub in_time : later < expires

held-is_current :
    (worker_id : String) (token later : ℕ) (allow : Bool) (k : Job)
    → IsHeld worker_id token later k
    → is_current worker_id token later allow k ≡ (not k.cancel_requested || allow)
unfolding is_current
held-is_current worker_id token later allow k h =
    let in_time = h.in_time in
    rw (h.runs, h.owner, h.same_token, h.lease, ==_refl worker_id, ==_refl token) (ground arith)

held-held_by :
    (worker_id : String) (token later : ℕ) (k : Job)
    → IsHeld worker_id token later k
    → held_by k.job_id worker_id token k ≡ true
held-held_by worker_id token later k h =
    rw (h.owner, h.same_token, ==_refl k.job_id, ==_refl worker_id, ==_refl token) refl

-- The holder's update of its row, and the row that is read again.
settled :
    (event : String) (g : Job → Job) (worker_id : String) (token later : ℕ) (q : JobQueue) (k : Job)
    → ((x : Job) → (g x).job_id ≡ x.job_id)
    → get q k.job_id ≡ some k
    → IsHeld worker_id token later k
    → let t = emit event (g k) (update_held k.job_id worker_id token g q) in
      (reread event k.job_id (update_held k.job_id worker_id token g q) ≡ ok (t, g k))
      × (get t k.job_id ≡ some (g k))
unfolding reread get
settled event g worker_id token later q k same_id f h =
    let p = held_by k.job_id worker_id token in
    let stored : find (by_id k.job_id) (update_where p g q.jobs) ≡ some (g k) =
      find-update k.job_id p g q.jobs same_id f
      ∙ ap (λ b. some (if b then g k else k)) (held-held_by worker_id token later k h) in
    (rw stored refl, stored)

pub not_current :
    (worker_id : String) (token later : ℕ) (k : Job)
    → k.cancel_requested ≡ true
    → is_current worker_id token later false k ≡ false
unfolding is_current
not_current worker_id token later k h = ground arith

pub fail_held :
    (worker_id text : String) (token later : ℕ) (q : JobQueue) (k : Job)
    → get q k.job_id ≡ some k
    → IsHeld worker_id token later k
    → is_blank text ≡ false
    → k.cancel_requested ≡ false
    → (t : JobQueue) × (fail k.job_id worker_id token text false 0 later q
        ≡ ok (t, set_failed false text (later + 0) later k))
      × (get t k.job_id ≡ some (set_failed false text (later + 0) later k))
unfolding fail require_current get
fail_held worker_id text token later q k f h blank c =
    let g = set_failed false text (later + 0) later in
    let t = emit "failed" (g k) (update_held k.job_id worker_id token g q) in
    let (e, stored) = settled "failed" g worker_id token later q k (λ x. refl) f h in
    let current : is_current worker_id token later false k ≡ true =
      held-is_current worker_id token later false k h ∙ ap (λ b. not b || false) c in
    (t, rw (blank, f, current) e, stored)

pub complete_held :
    (worker_id result : String) (token later : ℕ) (q : JobQueue) (k : Job)
    → get q k.job_id ≡ some k
    → IsHeld worker_id token later k
    → k.cancel_requested ≡ false
    → (t : JobQueue) × (complete k.job_id worker_id token result later q
        ≡ ok (t, set_completed result later k))
      × (get t k.job_id ≡ some (set_completed result later k))
unfolding complete require_current get
complete_held worker_id result token later q k f h c =
    let g = set_completed result later in
    let t = emit "completed" (g k) (update_held k.job_id worker_id token g q) in
    let (e, stored) = settled "completed" g worker_id token later q k (λ x. refl) f h in
    let current : is_current worker_id token later false k ≡ true =
      held-is_current worker_id token later false k h ∙ ap (λ b. not b || false) c in
    (t, rw (f, current) e, stored)

guarded :
    (b : Bool) (x : Result Error (JobQueue × Job)) (e : Error)
    → b ≡ true
    → (raise_if (not b) e >> x) ≡ x
guarded true x e h = refl
guarded false x e h = cc

pub acknowledge_held :
    (worker_id : String) (token later : ℕ) (q : JobQueue) (k : Job)
    → get q k.job_id ≡ some k
    → IsHeld worker_id token later k
    → k.cancel_requested ≡ true
    → (t : JobQueue) × (acknowledge_cancel k.job_id worker_id token later q
        ≡ ok (t, set_cancel_acknowledged later k))
      × (get t k.job_id ≡ some (set_cancel_acknowledged later k))
unfolding acknowledge_cancel require_current get
acknowledge_held worker_id token later q k f h c =
    let g = set_cancel_acknowledged later in
    let t = emit "cancelled" (g k) (update_held k.job_id worker_id token g q) in
    let (e, stored) = settled "cancelled" g worker_id token later q k (λ x. refl) f h in
    let current : is_current worker_id token later true k ≡ true =
      held-is_current worker_id token later true k h ∙ ap (λ b. not b || true) c in
    (t, rw (f, current) (guarded k.cancel_requested _ not_requested c ∙ e), stored)
