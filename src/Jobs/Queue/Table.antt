-- ===== src/Jobs/Queue/Table.antt =====
-- What one transaction does to the table of jobs, and what that keeps.
use mathlib.Core.Bool.{false≢true}
use claude_router.Prelude.{
  ==_comm, ==_refl, ==→≡, All, All-Member, All-append, All-select, Bool, Bool-cases, Extends,
  Extends-append, Extends-find, Extends-refl, Extends-update, List, Member, String, [], after, any,
  arith, false, find, here, inl, inr, or-false, select, some, still, subst, sym, there, true,
  update_where, ≡→==, ◌++◌, ◌==◌, ◌∙◌, ◌∷◌, ◌≡◌, nat_eq, string_eq, option_eq,
}
use claude_router.Jobs.{Job, by_id}
use claude_router.Jobs.Queue.{EnqueueArgs, new_job}
use claude_router.Jobs.Rows.{
  RowStep, Evolves, IsCoherent, RowStep-IsCoherent, RowStep-SameJob, Evolves-SameJob, Evolves-trans,
  SameJob,
}

-- Job ids are a primary key.
abbrev pub Unique : List Job → Type 0
Unique [] = Unit
Unique (j ∷ js) = All (λ k. by_id j.job_id k ≡ false) js × Unique js

pub data TableStep (xs ys : List Job) : Type 0 where
  idle : ys ≡ xs → TableStep xs ys
  inserts :
      (a : EnqueueArgs)
      → any (by_id a.job_id) xs ≡ false
      → ys ≡ xs ++ new_job a ∷ []
      → TableStep xs ys
  updates :
      (p : Job → Bool) (f : Job → Job)
      → ((j : Job) → Member j xs → p j ≡ true → RowStep j (f j))
      → ys ≡ update_where p f xs
      → TableStep xs ys

pub data TableSteps (xs : List Job) : List Job → Type 0 where
  done : TableSteps xs xs
  then_step : {ys zs : List Job} → TableSteps xs ys → TableStep ys zs → TableSteps xs zs

-- In a table with unique ids the row that is found is the only one with its id.
pub find-Unique :
    (id : String) (xs : List Job) {r x : Job}
    → Unique xs
    → find (by_id id) xs ≡ some r
    → Member x xs
    → by_id id x ≡ true
    → x ≡ r
unfolding find
find-Unique id [] u h m e = elim m [ ]
find-Unique id (y ∷ ys) u h here e = ground arith
find-Unique id (y ∷ ys) {r} {x} u h (there m) e = elim (Bool-cases (by_id id y)) [
  | inl t ↦
      let other : by_id y.job_id x ≡ false = All-Member (λ k. by_id y.job_id k ≡ false) u.0 m in
      let same : x.job_id ≡ y.job_id = ==→≡ x.job_id id e ∙ sym (==→≡ y.job_id id t) in
      absurd (false≢true (sym other ∙ ≡→== x.job_id y.job_id same))
  | inr t ↦ find-Unique id ys u.1 (rw t at h) m e
]

any-false-All : (p : Job → Bool) (xs : List Job) → any p xs ≡ false → All (λ x. p x ≡ false) xs
unfolding any
any-false-All p [] h = tt
any-false-All p (x ∷ xs) h = let (a, b) = or-false (p x) (any p xs) h in (a, any-false-All p xs b)

Unique-append :
    (xs : List Job) (x : Job)
    → Unique xs
    → All (λ y. by_id x.job_id y ≡ false) xs
    → Unique (xs ++ x ∷ [])
Unique-append [] x u h = (tt, tt)
Unique-append (y ∷ ys) x u h = (
  All-append (λ k. by_id y.job_id k ≡ false) ys (x ∷ []) u.0
      ((==_comm x.job_id y.job_id ∙ h.0), tt),
  Unique-append ys x u.1 h.1,
)

ids-update :
    (id : String) (p : Job → Bool) (f : Job → Job) (xs : List Job)
    → ((j : Job) → Member j xs → p j ≡ true → (f j).job_id ≡ j.job_id)
    → All (λ k. by_id id k ≡ false) xs
    → All (λ k. by_id id k ≡ false) (update_where p f xs)
unfolding update_where
ids-update id p f [] keeps h = tt
ids-update id p f (x ∷ xs) keeps h =
    let rest = ids-update id p f xs (λ j m. keeps j (there m)) h.1 in
    elim (Bool-cases (p x)) [
      | inl e ↦ rw e (subst (λ i. (i == id) ≡ false) (sym (keeps x here e)) h.0, rest)
      | inr e ↦ rw e (h.0, rest)
    ]

Unique-update :
    (p : Job → Bool) (f : Job → Job) (xs : List Job)
    → ((j : Job) → Member j xs → p j ≡ true → (f j).job_id ≡ j.job_id)
    → Unique xs
    → Unique (update_where p f xs)
unfolding update_where
Unique-update p f [] keeps u = tt
Unique-update p f (x ∷ xs) keeps u =
    let below = λ (j : Job) (m : Member j xs). keeps j (there m) in
    let others = ids-update x.job_id p f xs below u.0 in
    let rest = Unique-update p f xs below u.1 in
    elim (Bool-cases (p x)) [
      | inl e ↦ rw e (
        subst (λ i. All (λ k. by_id i k ≡ false) (update_where p f xs)) (sym (keeps x here e))
            others,
        rest,
      )
      | inr e ↦ rw e (others, rest)
    ]

All-update {κ} :
    (P : Job → Type κ) (p : Job → Bool) (f : Job → Job) (xs : List Job)
    → ((j : Job) → Member j xs → p j ≡ true → P j → P (f j))
    → All P xs
    → All P (update_where p f xs)
unfolding update_where
All-update P p f [] keep h = tt
All-update P p f (x ∷ xs) keep h =
    let rest = All-update P p f xs (λ j m. keep j (there m)) h.1 in
    elim (Bool-cases (p x)) [ inl e ↦ rw e (keep x here e h.0, rest) | inr e ↦ rw e (h.0, rest) ]

-- What every table of the queue satisfies.
pub record Inv (xs : List Job) : Type 0 where
  pub unique : Unique xs
  pub coherent : All IsCoherent xs

new_job-IsCoherent : (a : EnqueueArgs) → IsCoherent (new_job a)
unfolding new_job
new_job-IsCoherent a = ground arith

pub TableStep-Inv : {xs ys : List Job} → TableStep xs ys → Inv xs → Inv ys
unfolding new_job
TableStep-Inv (idle e) v = rw e v
TableStep-Inv {xs} (inserts a fresh e) v = rw e (record {
  unique = Unique-append xs (new_job a) v.unique (any-false-All (by_id a.job_id) xs fresh);
  coherent = All-append IsCoherent xs (new_job a ∷ []) v.coherent (new_job-IsCoherent a, tt);
})
TableStep-Inv {xs} (updates p f step e) v = rw e (record {
  unique = Unique-update p f xs (λ j m t. (RowStep-SameJob (step j m t)).job_id) v.unique;
  coherent = All-update IsCoherent p f xs (λ j m t. RowStep-IsCoherent (step j m t)) v.coherent;
})

TableStep-Extends : {xs ys : List Job} → TableStep xs ys → Extends Evolves xs ys
TableStep-Extends {xs} (idle e) = rw e (Extends-refl Evolves (λ x. still) xs)
TableStep-Extends {xs} (inserts a fresh e) =
    rw e (Extends-append Evolves (λ x. still) xs (new_job a ∷ []))
TableStep-Extends {xs} (updates p f step e) =
    rw e (Extends-update Evolves (λ x. still) p f xs (λ j m t. after still (step j m t)))

pub TableSteps-Inv : {xs ys : List Job} → TableSteps xs ys → Inv xs → Inv ys
TableSteps-Inv done v = v
TableSteps-Inv (then_step s t) v = TableStep-Inv t (TableSteps-Inv s v)

pub find_of_Member :
    (xs : List Job) {x : Job} → Unique xs → Member x xs → find (by_id x.job_id) xs ≡ some x
unfolding find
find_of_Member [] u m = elim m [ ]
find_of_Member (y ∷ ys) u here = rw (==_refl y.job_id)
find_of_Member (y ∷ ys) {x} u (there m) =
    rw (==_comm y.job_id x.job_id ∙ All-Member (λ k. by_id y.job_id k ≡ false) u.0 m)
      (find_of_Member ys u.1 m)

pub Unique-select : (p : Job → Bool) (xs : List Job) → Unique xs → Unique (select p xs)
unfolding select
Unique-select p [] u = tt
Unique-select p (x ∷ xs) u = elim (Bool-cases (p x)) [
  | inl e ↦ rw e (All-select (λ k. by_id x.job_id k ≡ false) p xs u.0, Unique-select p xs u.1)
  | inr e ↦ rw e (Unique-select p xs u.1)
]

pub TableStep-Unique : {xs ys : List Job} → TableStep xs ys → Unique xs → Unique ys
unfolding new_job
TableStep-Unique (idle e) v = rw e v
TableStep-Unique {xs} (inserts a fresh e) v =
    rw e (Unique-append xs (new_job a) v (any-false-All (by_id a.job_id) xs fresh))
TableStep-Unique {xs} (updates p f step e) v =
    rw e (Unique-update p f xs (λ j m t. (RowStep-SameJob (step j m t)).job_id) v)

pub TableSteps-cons : {xs ys zs : List Job} → TableStep xs ys → TableSteps ys zs → TableSteps xs zs
TableSteps-cons s done = then_step done s
TableSteps-cons s (then_step t r) = then_step (TableSteps-cons s t) r

-- A row is found again after any number of steps, as its successor.
pub TableSteps-find :
    (p : Job → Bool)
    → ((x y : Job) → SameJob x y → p y ≡ p x)
    → {xs ys : List Job} → TableSteps xs ys
    → {x : Job} → find p xs ≡ some x
    → (y : Job) × (find p ys ≡ some y) × Evolves x y
TableSteps-find p respects done {x} h = (x, h, still)
TableSteps-find p respects (then_step s t) h =
    let (y, found, e) = TableSteps-find p respects s h in
    let (z, found', e') =
      Extends-find Evolves p (λ a b r. respects a b (Evolves-SameJob r)) (TableStep-Extends t)
        found in
    (z, found', Evolves-trans e e')

pub TableSteps-trans :
    {xs ys zs : List Job} → TableSteps xs ys → TableSteps ys zs → TableSteps xs zs
TableSteps-trans s done = s
TableSteps-trans s (then_step t r) = then_step (TableSteps-trans s t) r
