-- ===== src/Jobs/Queue/Recovery.antt =====
-- What `recover_expired` leaves behind.
use mathlib.Core.Bool.{false≢true}
use claude_router.Prelude.{
  ==_comm, ==_refl, All, All-Member, All-of_Member, Bool, Bool-cases, List, Member, Member-select,
  [], ap, arith, count, false, here, if◌then◌else◌, inl, inr, length, not_true, refl, select,
  select-Member, subst, sym, there, true, update_where, ℕ, ◌∙◌, ◌∷◌, ◌≡◌, ◌≢◌, nat_eq, string_eq,
  option_eq,
}
use claude_router.Jobs.{Job, by_id, recovered_status, set_recovered}
use claude_router.Jobs.Queue.{JobQueue, expired, recover_expired, recover_rows, same_lease}
use claude_router.Jobs.Queue.Table.{Inv, TableStep-Unique, Unique, Unique-select}
use claude_router.Jobs.Queue.Methods.{Pending, recover_step, still_Pending}

update-Member :
    (p : Job → Bool) (f : Job → Job) (xs : List Job) {y : Job}
    → Member y (update_where p f xs)
    → (x : Job) × Member x xs × (y ≡ (if p x then f x else x))
unfolding update_where
update-Member p f [] m = elim m [ ]
update-Member p f (x ∷ xs) here = (x, here, refl)
update-Member p f (x ∷ xs) (there m) = let (z, k, e) = update-Member p f xs m in (z, there k, e)

-- The expired rows of the table that are still to be visited.
abbrev Covers : ℕ → List Job → List Job → Type 0
Covers now rows jobs = (x : Job) → Member x jobs → expired now x ≡ true → Member x rows

recovered_not_expired :
    (now : ℕ) (row x : Job) → expired now (set_recovered (recovered_status row) now x) ≡ false
recovered_not_expired now row x = ground arith

same_lease_self : (now : ℕ) (row : Job) → expired now row ≡ true → same_lease row row ≡ true
same_lease_self now row h = ground (arith, ==_refl row.job_id)

drop_visited :
    (now : ℕ) (row : Job) (rows : List Job) {x : Job}
    → Member x (row ∷ rows)
    → expired now x ≡ true
    → same_lease row x ≡ false
    → Member x rows
drop_visited now row rows here e f = absurd (false≢true (sym f ∙ same_lease_self now row e))
drop_visited now row rows (there m) e f = m

Covers-step :
    (now : ℕ) (row : Job) (rows jobs : List Job)
    → Covers now (row ∷ rows) jobs
    → Covers now rows
        (update_where (same_lease row) (set_recovered (recovered_status row) now) jobs)
Covers-step now row rows jobs c y m e =
    let (x, k, same) =
      update-Member (same_lease row) (set_recovered (recovered_status row) now) jobs m in
    elim (Bool-cases (same_lease row x)) [
      | inl t ↦
          let y_is : y ≡ set_recovered (recovered_status row) now x =
            same ∙ ap (λ b. if b then set_recovered (recovered_status row) now x else x) t in
          absurd
            (false≢true (sym (recovered_not_expired now row x) ∙ sym (ap (expired now) y_is) ∙ e))
      | inr t ↦
          let y_is : y ≡ x =
            same ∙ ap (λ b. if b then set_recovered (recovered_status row) now x else x) t in
          let e' : expired now x ≡ true = sym (ap (expired now) y_is) ∙ e in
          subst (λ z. Member z rows) (sym y_is) (drop_visited now row rows (c x k e') e' t)
    ]

count_others :
    (row : Job) (xs : List Job)
    → All (λ k. by_id row.job_id k ≡ false) xs
    → count (same_lease row) xs ≡ 0
unfolding count
count_others row [] h = refl
count_others row (x ∷ xs) h = ground (arith, h.0, count_others row xs h.1)

count_same :
    (now : ℕ) (row : Job) {xs : List Job}
    → Unique xs
    → Member row xs
    → expired now row ≡ true
    → count (same_lease row) xs ≡ 1
unfolding count
count_same now row u here e = rw (same_lease_self now row e) (rw (count_others row _ u.0))
count_same now row u (there {y} {xs} m) e =
    let other : by_id y.job_id row ≡ false = All-Member (λ k. by_id y.job_id k ≡ false) u.0 m in
    ground (arith, count_same now row u.1 m e, ==_comm y.job_id row.job_id, other)

length-select : (p : Job → Bool) (xs : List Job) → length (select p xs) ≡ count p xs
unfolding select count
length-select p [] = refl
length-select p (x ∷ xs) = ground (arith, length-select p xs)

recover_rows_lem :
    (now : ℕ) (rows jobs : List Job)
    → Unique jobs
    → Unique rows
    → All (Pending now jobs) rows
    → Covers now rows jobs
    → ((x : Job) → Member x (recover_rows now rows jobs).0 → expired now x ≢ true)
      × ((recover_rows now rows jobs).1 ≡ length rows)
unfolding recover_rows
recover_rows_lem now [] jobs u v h c = (λ x m e. elim (c x m e) [ ], refl)
recover_rows_lem now (row ∷ rows) jobs u v h c =
    let step = recover_step now row jobs u h.0.0 h.0.1 in
    let (none_left, n) =
      recover_rows_lem now rows _ (TableStep-Unique step u) v.1
        (still_Pending now row rows jobs v.0 h.1) (Covers-step now row rows jobs c) in
    (none_left, omega (arith, n, count_same now row u h.0.0 h.0.1))

-- After `recover_expired` no running job has an expired lease, and the returned number is how many
-- running jobs had one.
pub recover_expired_lem :
    (now : ℕ) (q : JobQueue)
    → Inv q.jobs
    → All (λ x. expired now x ≡ false) (recover_expired now q).0.jobs
      × ((recover_expired now q).1 ≡ count (expired now) q.jobs)
unfolding recover_expired
recover_expired_lem now q v =
    let rows = select (expired now) q.jobs in
    let (none_left, n) =
      recover_rows_lem now rows q.jobs v.unique (Unique-select (expired now) q.jobs v.unique)
        (All-of_Member (Pending now q.jobs) rows (λ x m. select-Member (expired now) q.jobs x m))
        (λ x m e. Member-select (expired now) m e) in
    (
      All-of_Member (λ x. expired now x ≡ false) _
          (λ x m. not_true (expired now x) (none_left x m)),
      n ∙ length-select (expired now) q.jobs,
    )
