-- ===== src/Jobs/Queue/Idempotency.antt =====
-- `enqueue` under one idempotency key, and what `recover_expired` leaves.
use claude_router.Prelude.{
  ==_refl, >>=-eq-ok, Bool, Bool-cases, List, Option, String, [], any, arith, false, find,
  find-Member, inl, inr, is_blank, ltb, none, not, ok, or-false, raise_if, refl, some, some_inj,
  subst, sym, true, ℕ, ◌++◌, ◌||◌, ◌∙◌, ◌∷◌, ◌≡◌, nat_eq, string_eq, option_eq,
}
use claude_router.Jobs.{Job, by_id, by_key}
use claude_router.Jobs.Rows.{SameJob, Evolves-SameJob}
use claude_router.Jobs.Queue.{
  get, JobQueue, EnqueueArgs, closing, differs, enqueue, insert_or_return, integrity, invalid,
  key_conflict, new_job, Error,
}
use claude_router.Jobs.Queue.Table.{
  Inv, TableSteps-find, TableStep-Inv, TableSteps-Inv, find_of_Member,
}
use claude_router.Jobs.Queue.Methods.{reread-jobs, enqueue-TableStep}
use claude_router.Jobs.Queue.History.{Call, run, run-TableSteps}

find-append_none :
    (p : Job → Bool) (xs : List Job) (x : Job)
    → find p xs ≡ none
    → p x ≡ true
    → find p (xs ++ x ∷ []) ≡ some x
unfolding find
find-append_none p [] x h e = rw e
find-append_none p (y ∷ ys) x h e = elim (Bool-cases (p y)) [
  | inl t ↦ absurd (cc (rw t at h))
  | inr t ↦ rw t (find-append_none p ys x (rw t at h) e)
]

any-false-find : (p : Job → Bool) (xs : List Job) → any p xs ≡ false → find p xs ≡ none
unfolding any find
any-false-find p [] h = refl
any-false-find p (x ∷ xs) h =
    let (a, b) = or-false (p x) (any p xs) h in rw a (any-false-find p xs b)

new_job_key : (a : EnqueueArgs) → by_key a.namespace a.idempotency_key (new_job a) ≡ true
unfolding new_job
new_job_key a = rw (==_refl a.namespace) (==_refl a.idempotency_key)

-- The job that an accepted `enqueue` answers with holds its key, and is the job asked for.
pub record Keyed (a : EnqueueArgs) (q' : JobQueue) (j : Job) : Type 0 where
  pub held : find (by_key a.namespace a.idempotency_key) q'.jobs ≡ some j
  pub asked : differs a j ≡ false

new_job_same : (a : EnqueueArgs) → differs a (new_job a) ≡ false
unfolding new_job
new_job_same a =
    ground (arith, ==_refl a.kind, ==_refl a.task_id, ==_refl a.payload, ==_refl a.max_attempts)

insert_or_return-Keyed :
    (a : EnqueueArgs) (q q' : JobQueue) (o : Option Job) (j : Job)
    → find (by_key a.namespace a.idempotency_key) q.jobs ≡ o
    → insert_or_return a q o ≡ ok (q', j)
    → Keyed a q' j
unfolding insert_or_return
insert_or_return-Keyed a q q' (some existing) j f h =
    let (_, same, h1) = >>=-eq-ok (raise_if (differs a existing) key_conflict) _ h in
    let e : existing ≡ j = ground arith in
    let d : differs a existing ≡ false = ground arith in
    record { held = ground (arith, f, e); asked = subst (λ z. differs a z ≡ false) e d }
insert_or_return-Keyed a q q' none j f h =
    let (_, fresh, h1) = >>=-eq-ok (raise_if (any (by_id a.job_id) q.jobs) integrity) _ h in
    let (table, back) = reread-jobs "queued" a.job_id _ q' j h1 in
    let untaken = any-false-find (by_id a.job_id) q.jobs (ground arith) in
    let id_new : by_id a.job_id (new_job a) ≡ true = unfold new_job in ==_refl a.job_id in
    let e : new_job a ≡ j =
      some_inj _ j
        (sym (find-append_none (by_id a.job_id) q.jobs (new_job a) untaken id_new) ∙ back) in
    record {
      held =
          subst (λ z. find (by_key a.namespace a.idempotency_key) q'.jobs ≡ some z) e
            (rw table (
              find-append_none (by_key a.namespace a.idempotency_key) q.jobs (new_job a) f
                (new_job_key a)));
      asked = subst (λ z. differs a z ≡ false) e (new_job_same a);
    }

enqueue-Keyed :
    (a : EnqueueArgs) (q q' : JobQueue) (j : Job) → enqueue a q ≡ ok (q', j) → Keyed a q' j
unfolding enqueue
enqueue-Keyed a q q' j h =
    let (_, _, h1) = >>=-eq-ok (raise_if (not q.accepting) closing) _ h in
    let (_, _, h2) =
      >>=-eq-ok
        (raise_if (is_blank a.kind || is_blank a.idempotency_key || is_blank a.namespace) invalid) _
        h1 in
    let (_, _, h3) = >>=-eq-ok (raise_if (ltb a.max_attempts 1) invalid) _ h2 in
    insert_or_return-Keyed a q q' (find (by_key a.namespace a.idempotency_key) q.jobs) j refl h3

by_key_respects :
    (namespace key : String) (x y : Job)
    → SameJob x y
    → by_key namespace key y ≡ by_key namespace key x
by_key_respects namespace key x y s = rw (s.namespace, s.idempotency_key)

differs_respects : (a : EnqueueArgs) (x y : Job) → SameJob x y → differs a y ≡ differs a x
differs_respects a x y s = rw (s.kind, s.task_id, s.payload, s.max_attempts)

-- The same request again, with another priority, start time, fresh identifier and clock.
abbrev pub again : EnqueueArgs → ℕ → Option ℕ → String → ℕ → EnqueueArgs
again a priority available_at job_id now = record a {
  priority = priority;
  available_at = available_at;
  job_id = job_id;
  now = now;
}

raised_not : (b : Bool) (e : Error) {u : Unit {0}} → raise_if b e ≡ ok u → b ≡ false
raised_not b e h = ground arith

enqueue_found :
    (a : EnqueueArgs) (q : JobQueue) (k : Job)
    → q.accepting ≡ true
    → (is_blank a.kind || is_blank a.idempotency_key || is_blank a.namespace) ≡ false
    → ltb a.max_attempts 1 ≡ false
    → find (by_key a.namespace a.idempotency_key) q.jobs ≡ some k
    → differs a k ≡ false
    → enqueue a q ≡ ok (q, k)
unfolding enqueue insert_or_return
enqueue_found a q k acc b m f d = simp (acc, b, m, f, d)

enqueue_valid :
    (a : EnqueueArgs) (q q' : JobQueue) (j : Job)
    → enqueue a q ≡ ok (q', j)
    → ((is_blank a.kind || is_blank a.idempotency_key || is_blank a.namespace) ≡ false)
      × (ltb a.max_attempts 1 ≡ false)
unfolding enqueue
enqueue_valid a q q' j h =
    let (_, _, h1) = >>=-eq-ok (raise_if (not q.accepting) closing) _ h in
    let (_, b, h2) =
      >>=-eq-ok
        (raise_if (is_blank a.kind || is_blank a.idempotency_key || is_blank a.namespace) invalid) _
        h1 in
    let (_, m, h3) = >>=-eq-ok (raise_if (ltb a.max_attempts 1) invalid) _ h2 in
    (raised_not _ invalid b, raised_not _ invalid m)

-- In a table with unique ids the row found under a key is the row stored under its id.
found-get :
    (p : Job → Bool) (q : JobQueue) {k : Job}
    → Inv q.jobs
    → find p q.jobs ≡ some k
    → get q k.job_id ≡ some k
unfolding get
found-get p q v f = find_of_Member q.jobs v.unique (find-Member p q.jobs f).0

-- An accepted `enqueue` is idempotent for ever: after any further calls, as long as the queue
-- accepts, the same request changes nothing and answers with the row that is stored at that time
-- under the id of the job that the first call returned, and under its key; no second job is made.
pub enqueue_is_idempotent :
    (a : EnqueueArgs) (q q' : JobQueue) (j : Job) (cs : List Call) (priority : ℕ)
    (available_at : Option ℕ) (job_id : String) (now : ℕ)
    → Inv q.jobs
    → enqueue a q ≡ ok (q', j)
    → (run q' cs).accepting ≡ true
    → (k : Job) × (enqueue (again a priority available_at job_id now) (run q' cs)
        ≡ ok (run q' cs, k))
      × (k.job_id ≡ j.job_id)
      × (get (run q' cs) j.job_id ≡ some k)
      × (find (by_key a.namespace a.idempotency_key) (run q' cs).jobs ≡ some k)
enqueue_is_idempotent a q q' j cs priority available_at job_id now v h acc =
    let key = enqueue-Keyed a q q' j h in
    let (b, m) = enqueue_valid a q q' j h in
    let after_it = TableStep-Inv (enqueue-TableStep a q q' j h) v in
    let steps = run-TableSteps q' cs after_it in
    let p = by_key a.namespace a.idempotency_key in
    let (k, found, e) =
      TableSteps-find p (by_key_respects a.namespace a.idempotency_key) steps key.held in
    let same = Evolves-SameJob e in
    (
      k,
      enqueue_found (again a priority available_at job_id now) (run q' cs) k acc b m found
          (differs_respects a j k same ∙ key.asked),
      same.job_id,
      subst (λ id. get (run q' cs) id ≡ some k) same.job_id
          (found-get p (run q' cs) (TableSteps-Inv steps after_it) found),
      found,
    )
