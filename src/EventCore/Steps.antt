-- ===== src/EventCore/Steps.antt =====
-- One event, and a list of them, applied to a projection.
use claude_router.Prelude.{
  ==→≡, >>=-eq-ok, Bool-cases, List, String, [], arith, inl, inr, length, ok, refl, subst, suc, ℕ,
  ≡→==, ◌+◌, ◌==◌, ◌∙◌, ◌∷◌, ◌≡◌, ◌⊎◌, nat_eq, string_eq, option_eq,
}
use claude_router.EventCore.{
  Event, TaskProjection, transition, stamp, apply_event, apply_all, one_of, start_stream,
  end_stream, update_call, update_job,
}

-- The event leaves the identity and the counters of the projection.
abbrev Keeps : TaskProjection → TaskProjection → Type 0
Keeps p q = (q.task_id ≡ p.task_id) × (q.session_id ≡ p.session_id)

start_stream-Keeps : (e : Event) (p : TaskProjection) → Keeps p (start_stream e p)
unfolding start_stream
start_stream-Keeps e p = (refl, refl)

end_stream-Keeps : (e : Event) (p : TaskProjection) → Keeps p (end_stream e p)
unfolding end_stream
end_stream-Keeps e p = (refl, refl)

update_call-Keeps : (e : Event) (p : TaskProjection) → Keeps p (update_call e p)
unfolding update_call
update_call-Keeps e p = (refl, refl)

update_job-Keeps : (e : Event) (p : TaskProjection) → Keeps p (update_job e p)
unfolding update_job
update_job-Keeps e p = (refl, refl)

transition-Keeps : (e : Event) (p : TaskProjection) → Keeps p (transition e p)
unfolding transition
transition-Keeps e p =
    let a = start_stream-Keeps e p in
    let b = end_stream-Keeps e p in
    let c = update_call-Keeps e p in let d = update_job-Keeps e p in ground arith

-- The events carry the task's names and the numbers after `n`, in order.
abbrev pub Continues : String → String → ℕ → List Event → Type 0
Continues t s n [] = Unit
Continues t s n (e ∷ es) =
    (e.task_id ≡ t) × (e.session_id ≡ s) × (e.sequence ≡ suc n) × Continues t s (suc n) es

-- What an accepted event is, and what it makes of the projection.
pub apply_event-ok :
    (p q : TaskProjection) (e : Event)
    → apply_event p e ≡ ok q
    → (e.task_id ≡ p.task_id)
      × (e.session_id ≡ p.session_id)
      × (e.sequence ≡ suc p.sequence)
      × (q ≡ stamp e p.event_count (transition e p))
unfolding apply_event
apply_event-ok p q e h = elim (Bool-cases (e.task_id == p.task_id)) [
  | inr a ↦ absurd (ground arith)
  | inl a ↦ elim (Bool-cases (e.session_id == p.session_id)) [
    | inr b ↦ absurd (ground arith)
    | inl b ↦ elim (Bool-cases (e.sequence == suc p.sequence)) [
      | inr c ↦ absurd (ground arith)
      | inl c ↦ (
        ==→≡ e.task_id p.task_id a,
        ==→≡ e.session_id p.session_id b,
        ==→≡ e.sequence (suc p.sequence) c,
        ground arith,
      )
    ]
  ]
]

-- The projection after an accepted event.
abbrev after_event : Event → TaskProjection → TaskProjection
after_event e p = stamp e p.event_count (transition e p)

after_event-Keeps : (e : Event) (p : TaskProjection) → Keeps p (after_event e p)
unfolding stamp
after_event-Keeps e p = transition-Keeps e p

after_event-counts :
    (e : Event) (p : TaskProjection)
    → ((after_event e p).sequence ≡ e.sequence)
      × ((after_event e p).event_count ≡ suc p.event_count)
unfolding stamp
after_event-counts e p = (refl, refl)

apply_event-accepts :
    (p : TaskProjection) (e : Event)
    → e.task_id ≡ p.task_id
    → e.session_id ≡ p.session_id
    → e.sequence ≡ suc p.sequence
    → apply_event p e ≡ ok (after_event e p)
unfolding apply_event
apply_event-accepts p e a b c =
    rw (≡→== e.task_id p.task_id a)
      (rw (≡→== e.session_id p.session_id b) (rw (≡→== e.sequence (suc p.sequence) c) refl))

-- The projection `q` is `p` after `n` more events.
abbrev pub Advances : TaskProjection → TaskProjection → ℕ → Type 0
Advances p q n = (q.sequence ≡ p.sequence + n) × (q.event_count ≡ p.event_count + n) × Keeps p q

pub apply_all-ok :
    (es : List Event) (p q : TaskProjection)
    → apply_all p es ≡ ok q
    → Continues p.task_id p.session_id p.sequence es × Advances p q (length es)
unfolding apply_all
apply_all-ok [] p q h = let e : q ≡ p = cc in rw e (tt, (omega arith, omega arith, (refl, refl)))
apply_all-ok (e ∷ es) p q h =
    let (r, h1, h2) = >>=-eq-ok (apply_event p e) (λ x. apply_all x es) h in
    let (a, b, n, m) = apply_event-ok p r e h1 in
    let rest : apply_all (after_event e p) es ≡ ok q = rw m at h2 in
    let (c, (s, k, (i, j))) = apply_all-ok es (after_event e p) q rest in
    let (t, u) = after_event-Keeps e p in
    let (x, y) = after_event-counts e p in
    let c' : Continues p.task_id p.session_id (suc p.sequence) es =
      subst (λ z. Continues p.task_id p.session_id z es) (x ∙ n) (rw t at (rw u at c)) in
    ((a, b, n, c'), (omega arith, omega arith, (i ∙ t, j ∙ u)))

pub apply_all-accepts :
    (es : List Event) (p : TaskProjection)
    → Continues p.task_id p.session_id p.sequence es
    → (q : TaskProjection) × (apply_all p es ≡ ok q)
unfolding apply_all
apply_all-accepts [] p c = (p, refl)
apply_all-accepts (e ∷ es) p (a, b, n, rest) =
    let (t, s) = after_event-Keeps e p in
    let (k, m) = after_event-counts e p in
    rw (apply_event-accepts p e a b n)
      (apply_all-accepts es (after_event e p) (rw t (rw s (rw (k ∙ n) rest))))

job_cancel-transition :
    (e : Event) (p : TaskProjection)
    → (e.event_type ≡ "job.cancel_requested") ⊎ (e.event_type ≡ "job.cancelled")
    → transition e p ≡ update_job e p
unfolding transition one_of
job_cancel-transition e p (inl h) = rw h refl
job_cancel-transition e p (inr h) = rw h refl

-- An accepted `job.cancel_requested` or `job.cancelled` leaves the status and the cancellation flag
-- of the task as they were: the branch of all `job.` events comes first.
pub job_cancel_is_not_projected :
    (p q : TaskProjection) (e : Event)
    → apply_event p e ≡ ok q
    → (e.event_type ≡ "job.cancel_requested") ⊎ (e.event_type ≡ "job.cancelled")
    → (q.status ≡ p.status)
      × (q.cancellation_requested ≡ p.cancellation_requested)
      × (q.phase ≡ "execution")
job_cancel_is_not_projected p q e h k =
    let (a, b, c, d) = apply_event-ok p q e h in
    rw d (rw (job_cancel-transition e p k) (unfold stamp update_job in (refl, refl, refl)))
