-- ===== src/EventCore/Replay.antt =====
-- What a replay of a task's events yields.
use mathlib.Core.Bool.{false≢true}
use claude_router.Prelude.{
  ==→≡, >>=-eq-ok, Bool-cases, List, Option, String, [], ap, arith, false, inl, inr, is_blank,
  length, ok, refl, some, subst, suc, sym, ℕ, ≡→==, ◌==◌, ◌||◌, ◌∙◌, ◌∷◌, ◌≡◌, nat_eq, string_eq,
  option_eq,
}
use claude_router.EventCore.{
  Event, TaskProjection, initial, apply_all, sorted, insert, project_sorted, project_events,
  or_else,
}
use claude_router.EventCore.Steps.{Continues, apply_all-ok, apply_all-accepts}

length-insert : (e : Event) (es : List Event) → length (insert e es) ≡ suc (length es)
unfolding insert
length-insert e [] = refl
length-insert e (d ∷ ds) = ground (arith, length-insert e ds)

length-sorted : (es : List Event) → length (sorted es) ≡ length es
unfolding sorted
length-sorted [] = refl
length-sorted (e ∷ es) = length-insert e (sorted es) ∙ ap suc (length-sorted es)

initial-ok :
    (t s : String) (p : TaskProjection)
    → initial t s ≡ ok p
    → (p.task_id ≡ t) × (p.session_id ≡ s) × (p.sequence ≡ 0) × (p.event_count ≡ 0)
unfolding initial
initial-ok t s p h = ground arith

from_start :
    (es : List Event) (p q : TaskProjection)
    → p.sequence ≡ 0
    → p.event_count ≡ 0
    → apply_all p es ≡ ok q
    → Continues q.task_id q.session_id 0 es × (q.sequence ≡ length es) × (q.event_count ≡ length es)
from_start es p q z m h =
    let (c, (k, l, (i, j))) = apply_all-ok es p q h in
    let c' : Continues p.task_id p.session_id 0 es =
      subst (λ n. Continues p.task_id p.session_id n es) z c in
    (rw i (rw j c'), omega arith, omega arith)

project_sorted-ok :
    (es : List Event) (t s : Option String) (q : TaskProjection)
    → project_sorted es t s ≡ ok q
    → Continues q.task_id q.session_id 0 es × (q.sequence ≡ length es) × (q.event_count ≡ length es)
unfolding project_sorted
project_sorted-ok [] t s q h = elim (Bool-cases (or_else t "" == "" || or_else s "" == "")) [
  | inl b ↦ absurd (ground arith)
  | inr b ↦ let (x, y, n, m) = initial-ok (or_else t "") (or_else s "") q (rw b at h) in (tt, n, m)
]
project_sorted-ok (e ∷ es) t s q h = elim (Bool-cases (e.sequence == 1)) [
  | inr b ↦ absurd (ground arith)
  | inl b ↦
      let (p, h1, h2) =
        >>=-eq-ok (initial (or_else t e.task_id) (or_else s e.session_id))
          (λ x. apply_all x (e ∷ es)) (rw b at h) in
      let (x, y, n, m) = initial-ok (or_else t e.task_id) (or_else s e.session_id) p h1 in
      from_start (e ∷ es) p q n m h2
]

-- A replay that succeeds has read, in the order of their numbers, the events 1, 2, … of the
-- projection's own task and session, each once; `sequence` and `event_count` are their number.
pub replay_is_contiguous :
    (es : List Event) (t s : Option String) (q : TaskProjection)
    → project_events es t s ≡ ok q
    → Continues q.task_id q.session_id 0 (sorted es)
      × (q.sequence ≡ length es)
      × (q.event_count ≡ length es)
unfolding project_events
replay_is_contiguous es t s q h =
    let (c, n, m) = project_sorted-ok (sorted es) t s q h in
    (c, n ∙ length-sorted es, m ∙ length-sorted es)

named : (t d : String) → is_blank t ≡ false → or_else (some t) d ≡ t
unfolding or_else is_blank
named t d h = elim (Bool-cases (t == "")) [
  | inl e ↦ absurd (false≢true (sym h ∙ ap is_blank (==→≡ t "" e)))
  | inr e ↦ rw e refl
]

-- A fresh projection for two names that are not blank.
initial-accepts :
    (t s : String)
    → is_blank t ≡ false
    → is_blank s ≡ false
    → (p : TaskProjection) × (initial t s ≡ ok p)
unfolding initial
initial-accepts t s bt bs = rw bt (rw bs (_, refl))

run_from_start :
    (es : List Event) (t s : String) (p : TaskProjection)
    → initial t s ≡ ok p
    → Continues t s 0 es
    → (q : TaskProjection) × (apply_all p es ≡ ok q) × (q.task_id ≡ t) × (q.session_id ≡ s)
run_from_start es t s p h c =
    let (i, j, z, m) = initial-ok t s p h in
    let (q, k) = apply_all-accepts es p (rw i (rw j (rw z c))) in
    let (d, (x, y, (u, v))) = apply_all-ok es p q k in (q, k, u ∙ i, v ∙ j)

project_sorted-accepts :
    (xs : List Event) (n : ℕ) (t s : String)
    → length xs ≡ suc n
    → is_blank t ≡ false
    → is_blank s ≡ false
    → Continues t s 0 xs
    → (q : TaskProjection) × (project_sorted xs (some t) (some s) ≡ ok q)
      × (q.task_id ≡ t)
      × (q.session_id ≡ s)
unfolding project_sorted
project_sorted-accepts [] n t s l bt bs c = absurd (omega arith)
project_sorted-accepts (e ∷ es) n t s l bt bs (a, b, one, rest) =
    let (p, h) = initial-accepts t s bt bs in
    let (q, k, u, v) = run_from_start (e ∷ es) t s p h (a, b, one, rest) in
    (
      q,
      rw (≡→== e.sequence 1 one)
          (rw (named t e.task_id bt) (rw (named s e.session_id bs) (rw h k))),
      u,
      v,
    )

-- A replay of a non-empty history succeeds when its sorted events are the events 1, 2, … of the
-- named task and session, and the names are not blank.
pub replay_accepts :
    (e : Event) (es : List Event) (t s : String)
    → is_blank t ≡ false
    → is_blank s ≡ false
    → Continues t s 0 (sorted (e ∷ es))
    → (q : TaskProjection) × (project_events (e ∷ es) (some t) (some s) ≡ ok q)
      × (q.task_id ≡ t)
      × (q.session_id ≡ s)
unfolding project_events
replay_accepts e es t s bt bs c =
    project_sorted-accepts (sorted (e ∷ es)) (length es) t s (length-sorted (e ∷ es)) bt bs c
