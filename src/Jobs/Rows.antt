-- ===== src/Jobs/Rows.antt =====
-- The life of one row of `durable_jobs`: the transitions that the statements make, and what they keep.
use claude_router.Prelude.{
  Bool, List, Option, Steps, String, after, arith, false, ltb, none, refl, some, still, subst, sym,
  true, ℕ, ◌&&◌, ◌<◌, ◌≡◌, ◌≤◌, ◌⊎◌,
}
use claude_router.Jobs.{
  Job, cancelled, claimable, is_current, is_running, is_terminal, reached, recovered_status,
  running, set_cancel_acknowledged, set_cancel_requested, set_cancelled, set_claimed, set_completed,
  set_failed, set_recovered, set_renewed,
}

-- `k` is the row after one statement of the queue has met the row `j`.
pub data RowStep (j k : Job) : Type 0 where
  claims :
      (namespace : String) (kinds : List String) (worker_id : String) (expires token now : ℕ)
      → claimable namespace kinds now j ≡ true
      → j.fencing_token < token
      → now < expires
      → k ≡ set_claimed worker_id expires token now j
      → RowStep j k
  renews :
      (worker_id : String) (expires token now : ℕ)
      → is_current worker_id token now false j ≡ true
      → k ≡ set_renewed expires now j
      → RowStep j k
  completes :
      (worker_id result : String) (token now : ℕ)
      → is_current worker_id token now false j ≡ true
      → k ≡ set_completed result now j
      → RowStep j k
  fails :
      (worker_id error : String) (retryable : Bool) (token available now : ℕ)
      → is_current worker_id token now false j ≡ true
      → k ≡ set_failed (retryable && ltb j.attempts j.max_attempts) error available now j
      → RowStep j k
  requests_cancel :
      (now : ℕ) → is_running j.status ≡ true → k ≡ set_cancel_requested now j → RowStep j k
  cancels :
      (now : ℕ)
      → is_running j.status ≡ false
      → is_terminal j.status ≡ false
      → k ≡ set_cancelled now j
      → RowStep j k
  acknowledges :
      (worker_id : String) (token now : ℕ)
      → is_current worker_id token now true j ≡ true
      → j.cancel_requested ≡ true
      → k ≡ set_cancel_acknowledged now j
      → RowStep j k
  recovers :
      (now : ℕ)
      → is_running j.status ≡ true
      → reached j.lease_expires_at now ≡ true
      → k ≡ set_recovered (recovered_status j) now j
      → RowStep j k

abbrev pub Evolves : Job → Job → Type 0
Evolves = Steps RowStep

abbrev pub is_some {ℓ} : {A : Type ℓ} → Option A → Bool
is_some none = false
is_some (some a) = true

-- The columns of a row agree: a lease exists exactly while the job runs, a completion time exactly
-- when the job is over, and the attempts stay within the bound.
pub record IsCoherent (j : Job) : Type 0 where
  pub attempts_le : j.attempts ≤ j.max_attempts
  pub owner : is_some j.lease_owner ≡ is_running j.status
  pub expiry : is_some j.lease_expires_at ≡ is_running j.status
  pub completion : is_some j.completed_at ≡ is_terminal j.status

pub RowStep-IsCoherent : {j k : Job} → RowStep j k → IsCoherent j → IsCoherent k
unfolding claimable is_current
RowStep-IsCoherent {j} (claims namespace kinds w e t now c f l eq) h = rw eq (ground arith)
RowStep-IsCoherent (renews w e t now c eq) h = rw eq (ground arith)
RowStep-IsCoherent (completes w r t now c eq) h = rw eq (ground arith)
RowStep-IsCoherent (fails w e r t a now c eq) h = rw eq (ground arith)
RowStep-IsCoherent (requests_cancel now c eq) h = rw eq (ground arith)
RowStep-IsCoherent (cancels now c d eq) h = rw eq (ground arith)
RowStep-IsCoherent (acknowledges w t now c d eq) h = rw eq (ground arith)
RowStep-IsCoherent (recovers now c d eq) h = rw eq (ground arith)

-- The columns that identify a job, and those that no statement writes.
pub record SameJob (j k : Job) : Type 0 where
  pub job_id : k.job_id ≡ j.job_id
  pub namespace : k.namespace ≡ j.namespace
  pub kind : k.kind ≡ j.kind
  pub idempotency_key : k.idempotency_key ≡ j.idempotency_key
  pub payload : k.payload ≡ j.payload
  pub task_id : k.task_id ≡ j.task_id
  pub max_attempts : k.max_attempts ≡ j.max_attempts
  pub token_le : j.fencing_token ≤ k.fencing_token

pub RowStep-SameJob : {j k : Job} → RowStep j k → SameJob j k
RowStep-SameJob (claims namespace kinds w e t now c f l eq) = rw eq (ground arith)
RowStep-SameJob (renews w e t now c eq) = rw eq (ground arith)
RowStep-SameJob (completes w r t now c eq) = rw eq (ground arith)
RowStep-SameJob (fails w e r t a now c eq) = rw eq (ground arith)
RowStep-SameJob (requests_cancel now c eq) = rw eq (ground arith)
RowStep-SameJob (cancels now c d eq) = rw eq (ground arith)
RowStep-SameJob (acknowledges w t now c d eq) = rw eq (ground arith)
RowStep-SameJob (recovers now c d eq) = rw eq (ground arith)

-- A completed, failed or cancelled row makes no step.
pub terminal_has_no_step : {j k : Job} → is_terminal j.status ≡ true → ¬ RowStep j k
unfolding claimable is_current
terminal_has_no_step h (claims namespace kinds w e t now c f l eq) = ground arith
terminal_has_no_step h (renews w e t now c eq) = ground arith
terminal_has_no_step h (completes w r t now c eq) = ground arith
terminal_has_no_step h (fails w e r t a now c eq) = ground arith
terminal_has_no_step h (requests_cancel now c eq) = ground arith
terminal_has_no_step h (cancels now c d eq) = ground arith
terminal_has_no_step h (acknowledges w t now c d eq) = ground arith
terminal_has_no_step h (recovers now c d eq) = ground arith

-- A row whose cancellation was requested while it ran.
pub record IsCancelling (token : ℕ) (j : Job) : Type 0 where
  pub requested : j.cancel_requested ≡ true
  pub status : (j.status ≡ running) ⊎ (j.status ≡ cancelled)
  pub token_same : j.fencing_token ≡ token

pub RowStep-IsCancelling : {t : ℕ} {j k : Job} → RowStep j k → IsCancelling t j → IsCancelling t k
unfolding claimable is_current
RowStep-IsCancelling (claims namespace kinds w e t now c f l eq) h = rw eq (ground arith)
RowStep-IsCancelling (renews w e t now c eq) h = rw eq (ground arith)
RowStep-IsCancelling (completes w r t now c eq) h = rw eq (ground arith)
RowStep-IsCancelling (fails w e r t a now c eq) h = rw eq (ground arith)
RowStep-IsCancelling (requests_cancel now c eq) h = rw eq (ground arith)
RowStep-IsCancelling (cancels now c d eq) h = rw eq (ground arith)
RowStep-IsCancelling (acknowledges w t now c d eq) h = rw eq (ground arith)
RowStep-IsCancelling (recovers now c d eq) h = rw eq (ground arith)

module _ {κ} (P : Job → Type κ) (step : (j k : Job) → RowStep j k → P j → P k) where
  pub Evolves-keeps : {j k : Job} → Evolves j k → P j → P k
  Evolves-keeps still h = h
  Evolves-keeps (after {y} {z} e s) h = step y z s (Evolves-keeps e h)

pub Evolves-SameJob : {j k : Job} → Evolves j k → SameJob j k
Evolves-SameJob still = ground arith
Evolves-SameJob (after e s) = ground (arith, Evolves-SameJob e, RowStep-SameJob s)

pub Evolves-terminal : {j k : Job} → Evolves j k → is_terminal j.status ≡ true → k ≡ j
Evolves-terminal still h = refl
Evolves-terminal {j} (after {y} e s) h = absurd (
    terminal_has_no_step (subst (λ z. is_terminal z.status ≡ true) (sym (Evolves-terminal e h)) h)
      s)

pub Evolves-IsCoherent : {j k : Job} → Evolves j k → IsCoherent j → IsCoherent k
Evolves-IsCoherent = Evolves-keeps IsCoherent (λ j k s. RowStep-IsCoherent s)

pub Evolves-IsCancelling : {t : ℕ} {j k : Job} → Evolves j k → IsCancelling t j → IsCancelling t k
Evolves-IsCancelling {t} = Evolves-keeps (IsCancelling t) (λ j k s. RowStep-IsCancelling s)

pub Evolves-trans : {i j k : Job} → Evolves i j → Evolves j k → Evolves i k
Evolves-trans e still = e
Evolves-trans e (after d s) = after (Evolves-trans e d) s
