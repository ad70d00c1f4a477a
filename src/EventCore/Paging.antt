-- ===== src/EventCore/Paging.antt =====
-- `rebuild` of TaskEventCore (orchestrator/event_core.py), over `replay_events` of
-- orchestrator/state_repository.py. `stored` is the task's rows of `events` in the order of their
-- numbers, as `ORDER BY sequence ASC` returns them.
use mathlib.Core.Option
use claude_router.Prelude.{
  Bool-cases, List, Option, Result, String, [], ap, arith, drop, err, false, if◌then◌else◌, inl,
  inr, length, ltb, lt→ltb, none, refl, select, some, suc, sym, take, zero, ℕ, ◌++◌, ◌<◌, ◌==◌, ◌∙◌,
  ◌∷◌, ◌≡◌, ◌≤◌, nat_eq, string_eq, option_eq,
}
use claude_router.EventCore.{Event, TaskProjection, Error, project_events, value_error}

-- `replay_events(task_id, after_sequence=cursor, limit=limit)`
unfoldable pub replay_events : ℕ → ℕ → List Event → List Event
unfolding select
replay_events cursor limit stored = take limit (select (λ e. ltb cursor e.sequence) stored)

-- `page[-1].sequence`; the cursor stays where there is no page.
unfoldable pub last_sequence : ℕ → List Event → ℕ
last_sequence c [] = c
last_sequence c (e ∷ es) = last_sequence e.sequence es

-- The `while True` loop on fuel; `none` is a run that is not over.
unfoldable pub read_pages : ℕ → ℕ → ℕ → List Event → Option (List Event)
unfolding replay_events last_sequence
read_pages zero size cursor stored = none
read_pages (suc fuel) size cursor stored =
    let page = replay_events cursor size stored in
    let rest = read_pages fuel size (last_sequence cursor page) stored in
    if length page == 0
    then some []
    else if ltb (length page) size
    then some page
    else Option.map (λ later. page ++ later) rest

unfoldable pub rebuild :
    ℕ → String → Option String → ℕ → List Event → Option (Result Error TaskProjection)
rebuild fuel t s page_size stored =
    if ltb page_size 1
    then some (err value_error)
    else Option.map (λ events. project_events events (some t) s)
        (read_pages fuel page_size 0 stored)

-- The numbers grow from above `c`.
abbrev pub Ascending : ℕ → List Event → Type 0
Ascending c [] = Unit
Ascending c (e ∷ es) = (c < e.sequence) × Ascending e.sequence es

select_later :
    (c d : ℕ) (es : List Event) → c ≤ d → Ascending d es → select (λ e. ltb c e.sequence) es ≡ es
unfolding select
select_later c d [] le a = refl
select_later c d (e ∷ es) le (lt, a) =
    rw (lt→ltb c e.sequence (omega arith))
      (ap (λ x. e ∷ x) (select_later c e.sequence es (omega arith) a))

select_twice :
    (c d : ℕ) (es : List Event)
    → c ≤ d
    → select (λ e. ltb d e.sequence) (select (λ e. ltb c e.sequence) es)
      ≡ select (λ e. ltb d e.sequence) es
unfolding select
select_twice c d [] le = refl
select_twice c d (e ∷ es) le = ground (arith, select_twice c d es le)

-- What is left after a page.
after_page :
    (n c : ℕ) (es : List Event)
    → Ascending c es
    → (select (λ e. ltb (last_sequence c (take n es)) e.sequence) es ≡ drop n es)
      × Ascending (last_sequence c (take n es)) (drop n es)
      × (c ≤ last_sequence c (take n es))
unfolding select last_sequence
after_page zero c es a = (select_later c c es (omega arith) a, a, omega arith)
after_page (suc n) c [] a = (refl, tt, omega arith)
after_page (suc n) c (e ∷ es) (lt, a) =
    let (s, b, le) = after_page n e.sequence es a in
    let low : ltb (last_sequence e.sequence (take n es)) e.sequence ≡ false = ground arith in
    (rw low s, b, omega arith)

take_short {ℓ} : {A : Type ℓ} (n : ℕ) (xs : List A) → length (take n xs) < n → take n xs ≡ xs
take_short zero xs h = absurd (omega arith)
take_short (suc n) [] h = refl
take_short (suc n) (x ∷ xs) h = ap (λ r. x ∷ r) (take_short n xs (omega arith))

take-drop {ℓ} : {A : Type ℓ} (n : ℕ) (xs : List A) → take n xs ++ drop n xs ≡ xs
take-drop zero xs = refl
take-drop (suc n) [] = refl
take-drop (suc n) (x ∷ xs) = ap (λ r. x ∷ r) (take-drop n xs)

length-drop {ℓ} : {A : Type ℓ} (n : ℕ) (xs : List A) → length (drop n xs) ≤ length xs
length-drop zero xs = omega arith
length-drop (suc n) [] = omega arith
length-drop (suc n) (x ∷ xs) = omega (arith, length-drop n xs)

-- With the rest of the rows after the cursor known, and fuel for each of them, the loop reads them.
read_pages_lem :
    (fuel size c : ℕ) (stored left : List Event)
    → 1 ≤ size
    → select (λ e. ltb c e.sequence) stored ≡ left
    → Ascending c left
    → length left < fuel
    → read_pages fuel size c stored ≡ some left
unfolding read_pages replay_events
read_pages_lem zero size c stored left pos h a enough = absurd (omega arith)
read_pages_lem (suc fuel) zero c stored left pos h a enough = absurd (omega arith)
read_pages_lem (suc fuel) (suc n) c stored [] pos h a enough = rw h refl
read_pages_lem (suc fuel) (suc n) c stored (e ∷ es) pos h a enough =
    let (s, b, le) = after_page (suc n) c (e ∷ es) a in
    let next : select (λ x. ltb (last_sequence c (take (suc n) (e ∷ es))) x.sequence) stored
        ≡ drop (suc n) (e ∷ es) =
      sym (select_twice c (last_sequence c (take (suc n) (e ∷ es))) stored le)
      ∙ ap (select (λ x. ltb (last_sequence c (take (suc n) (e ∷ es))) x.sequence)) h
      ∙ s in
    let rest =
      read_pages_lem fuel (suc n) (last_sequence c (take (suc n) (e ∷ es))) stored
        (drop (suc n) (e ∷ es)) pos next b (omega (arith, length-drop n es, enough)) in
    let some_row : (suc (length (take n es)) == 0) ≡ false = ground arith in
    rw h (
      rw some_row (elim (Bool-cases (ltb (suc (length (take n es))) (suc n))) [
        | inl short ↦ rw short (ap (λ x. some (e ∷ x)) (take_short n es (ground arith)))
        | inr full ↦ rw full (rw rest (ap (λ x. some (e ∷ x)) (take-drop n es)))
      ]))

-- For every page size, with more fuel than rows, `rebuild` projects the whole stored history.
pub rebuild_reads_everything :
    (fuel page_size : ℕ) (t : String) (s : Option String) (stored : List Event)
    → 1 ≤ page_size
    → Ascending 0 stored
    → length stored < fuel
    → rebuild fuel t s page_size stored ≡ some (project_events stored (some t) s)
unfolding rebuild
rebuild_reads_everything fuel page_size t s stored pos a enough =
    let pages =
      read_pages_lem fuel page_size 0 stored stored pos (select_later 0 0 stored (omega arith) a) a
        enough in
    let valid : ltb page_size 1 ≡ false = ground arith in rw valid (rw pages refl)
