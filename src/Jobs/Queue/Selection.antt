-- ===== src/Jobs/Queue/Selection.antt =====
-- Which job `claim` picks.
use claude_router.Prelude.{
  ==_comm, ==_refl, All, All-Member, All-map, All-of_Member, Bool, Bool-cases, List, Member,
  Member-select, Option-cases, String, [], ap, arith, count, false, find, here, if◌then◌else◌, inl,
  inr, is_blank, lt→leb-false, none, not, ok, refl, select, some, some_inj, subst, sym, there, true,
  update_where, ℕ, ◌+◌, ◌<◌, ◌==◌, ◌∙◌, ◌∷◌, ◌≡◌, ◌≢◌, ◌≤◌, ◌⊎◌, nat_eq, string_eq, option_eq,
}
use claude_router.Jobs.{Job, better, by_id, claimable, first_by_order, set_claimed}
use claude_router.Jobs.Queue.{
  JobQueue, claim, get, same_claim, claim_row, next_token, reread, emit, set_counter,
}
use claude_router.Jobs.Queue.Table.{Inv, Unique, find_of_Member}
use claude_router.Jobs.Queue.Methods.{picked}
use claude_router.Jobs.Queue.Fencing.{Claimed, claim-Claimed, find-update, same_claim_refl}

-- `r` has a higher priority than `z`, or the same and was created no later.
abbrev pub NotAfter : Job → Job → Type 0
NotAfter r z =
    (z.priority < r.priority) ⊎ ((r.priority ≡ z.priority) × (r.created_at ≤ z.created_at))

NotAfter-trans : (a b c : Job) → NotAfter a b → NotAfter b c → NotAfter a c
NotAfter-trans a b c h k = ground arith

NotAfter-refl : (a : Job) → NotAfter a a
NotAfter-refl a = ground arith

better-NotAfter : (a b : Job) → NotAfter (better a (some b)) a × NotAfter (better a (some b)) b
better-NotAfter a b = ground arith

first_by_order-NotAfter :
    (xs : List Job) (r : Job) → first_by_order xs ≡ some r → All (NotAfter r) xs
unfolding first_by_order
first_by_order-NotAfter [] r h = tt
first_by_order-NotAfter (x ∷ xs) r h = elim (Option-cases (first_by_order xs)) [
  | inl e ↦
      let same : x ≡ r = ground (arith, e) in
      (subst (λ z. NotAfter z x) same (NotAfter-refl x), none_left xs e)
  | inr (b, e) ↦
      let same : better x (some b) ≡ r = some_inj _ r ((ap (λ o. some (better x o)) (sym e)) ∙ h) in
      let both = better-NotAfter x b in
      (
        subst (λ z. NotAfter z x) same both.0,
        All-map (NotAfter b) (NotAfter r) xs
            (λ z below.
              subst (λ y. NotAfter y z) same (NotAfter-trans (better x (some b)) b z both.1 below))
            (first_by_order-NotAfter xs b e),
      )
]
  where
    none_left : (ys : List Job) → first_by_order ys ≡ none → All (NotAfter r) ys
    none_left [] e = tt
    none_left (y ∷ ys) e = absurd (cc e)

All-claimable :
    (P : Job → Type 0) (p : Job → Bool) (xs : List Job)
    → All P (select p xs)
    → All (λ z. p z ≡ true → P z) xs
All-claimable P p xs h =
    All-of_Member (λ z. p z ≡ true → P z) xs (λ z m e. All-Member P h (Member-select p m e))

-- The job that `claim` returns has the highest priority among the jobs that the WHERE clause
-- allows, and among those of its priority it was created first.
pub claim_is_first :
    (worker_id namespace : String) (ttl : ℕ) (kinds : List String) (now : ℕ) (q q' : JobQueue)
    (j : Job)
    → Inv q.jobs
    → claim worker_id namespace ttl kinds now q ≡ ok (q', some j)
    → (row : Job) × (get q j.job_id ≡ some row)
      × (claimable namespace kinds now row ≡ true)
      × All (λ z. claimable namespace kinds now z ≡ true → NotAfter row z) q.jobs
claim_is_first worker_id namespace ttl kinds now q q' j v h =
    let c : Claimed worker_id namespace ttl kinds now q q' j =
      claim-Claimed worker_id namespace ttl kinds now q q' j v h in
    (
      c.row,
      c.was,
      c.allowed,
      All-claimable (NotAfter c.row) (claimable namespace kinds now) q.jobs
          (first_by_order-NotAfter _ c.row c.first),
    )

count_others :
    (row : Job) (xs : List Job)
    → All (λ k. by_id row.job_id k ≡ false) xs
    → count (same_claim row) xs ≡ 0
unfolding count
count_others row [] h = refl
count_others row (x ∷ xs) h = ground (arith, h.0, count_others row xs h.1)

count_same : (row : Job) {xs : List Job} → Unique xs → Member row xs → count (same_claim row) xs ≡ 1
unfolding count
count_same row u here = ground (arith, ==_refl row.job_id, count_others row _ u.0)
count_same row u (there {y} {xs} m) =
    let other : by_id y.job_id row ≡ false = All-Member (λ k. by_id y.job_id k ≡ false) u.0 m in
    ground (arith, count_same row u.1 m, ==_comm y.job_id row.job_id, other)

first_by_order-some : (x : Job) (xs : List Job) → first_by_order (x ∷ xs) ≢ none
unfolding first_by_order
first_by_order-some x xs h = cc

first_of_none : (xs : List Job) → first_by_order xs ≡ none → xs ≡ []
first_of_none [] h = refl
first_of_none (x ∷ xs) h = absurd (first_by_order-some x xs h)

select-nil-All : (p : Job → Bool) (xs : List Job) → select p xs ≡ [] → All (λ z. p z ≡ false) xs
unfolding select
select-nil-All p [] h = tt
select-nil-All p (x ∷ xs) h = elim (Bool-cases (p x)) [
  | inl e ↦ absurd (cc (rw e at h))
  | inr e ↦ (e, select-nil-All p xs (rw e at h))
]

select_of_All : (p : Job → Bool) (xs : List Job) → All (λ z. p z ≡ false) xs → select p xs ≡ []
unfolding select
select_of_All p [] h = refl
select_of_All p (x ∷ xs) h = rw h.0 (select_of_All p xs h.1)

claim_some_row :
    (worker_id : String) (expires now : ℕ) (q : JobQueue) (row : Job)
    → Unique q.jobs
    → Member row q.jobs
    → (q' : JobQueue) × (j : Job) × (claim_row worker_id expires now q (some row) ≡ ok (q', some j))
unfolding claim_row reread
claim_some_row worker_id expires now q row u m =
    let one : not (count (same_claim row) q.jobs == 1) ≡ false = rw (count_same row u m) refl in
    let token = next_token q row in
    let found =
      find-update row.job_id (same_claim row) (set_claimed worker_id expires token now) q.jobs
        (λ x. refl) (find_of_Member q.jobs u m) in
    let f = set_claimed worker_id expires token now in
    let q' = record q {
      jobs = update_where (same_claim row) f q.jobs;
      counters = set_counter q.counters row.job_id token;
    } in
    let stored : find (by_id row.job_id) (update_where (same_claim row) f q.jobs) ≡ some (f row) =
      found ∙ ap (λ b. some (if b then f row else row)) (same_claim_refl row) in
    (emit "claimed" (f row) q', f row, rw one (rw stored))

-- With a worker id, a namespace and a positive lease, `claim` never raises: it answers None, and
-- changes nothing, if the WHERE clause allows no job, and claims a job otherwise.
pub claim_total :
    (worker_id namespace : String) (ttl : ℕ) (kinds : List String) (now : ℕ) (q : JobQueue)
    → Inv q.jobs
    → is_blank worker_id ≡ false
    → is_blank namespace ≡ false
    → 0 < ttl
    → ((claim worker_id namespace ttl kinds now q ≡ ok (q, none))
        × All (λ z. claimable namespace kinds now z ≡ false) q.jobs)
      ⊎ ((q' : JobQueue) × (j : Job) × (claim worker_id namespace ttl kinds now q
            ≡ ok (q', some j)))
unfolding claim claim_row
claim_total worker_id namespace ttl kinds now q v bw bn pos =
    elim (Option-cases (first_by_order (select (claimable namespace kinds now) q.jobs))) [
      | inl e ↦ inl (
        rw (bw, bn) (rw (lt→leb-false 0 ttl pos) (rw e)),
        select-nil-All (claimable namespace kinds now) q.jobs (first_of_none _ e),
      )
      | inr (row, e) ↦
          let (q', j, r) =
            claim_some_row worker_id (now + ttl) now q row v.unique
              (picked namespace kinds now q.jobs row e).0 in
          inr (q', j, rw (bw, bn) (rw (lt→leb-false 0 ttl pos) (rw e r)))
    ]
