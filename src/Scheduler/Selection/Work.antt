-- ===== src/Scheduler/Selection/Work.antt =====
-- What a round of work selection takes, and what it leaves.
use claude_router.Prelude.{
  All, All-append, All-of_Member, Bool, Bool-cases, List, Member, Member-append, Member-append_left,
  Member-append_right, Member-cons, Member-sorted_by, Sorted, Sorted-append, String, [], any,
  any-false-Member, any-true-Member, any-true_of_Member, arith, false, here, if◌then◌else◌, inl,
  inr, leb, leb-false→lt, leb→le, length, length-append, map, not, or-false, refl, sorted_by,
  sorted_by-Member, suc, there, true, ℕ, ◌&&◌, ◌++◌, ◌+◌, ◌∷◌, ◌≡◌, ◌≤◌, ◌⊎◌,
}
use claude_router.Scheduler.Limits.{SchedulerLimits, worker_parallel_cap}
use claude_router.Scheduler.Depth.{critical_path_depth}
use claude_router.Scheduler.Admission.{item_node}
use claude_router.Models.{WorkItem, Workstream}
use claude_router.Scheduler.Scopes.{PathText, scopes_conflict}
use claude_router.Scheduler.Selection.{
  clashes, fill_slots, scopes_of, Ages, Statuses, item_first, ready_work_items, select_work_items,
  worker_slots,
}

module _ (wide : Bool) (fold : PathText → PathText) (slots : ℕ) (occupied : List (List PathText))
    (stops : ℕ → Bool) where
  -- The scopes of two items are apart.
  abbrev Apart : WorkItem → WorkItem → Type 0
  Apart i j = scopes_conflict fold (scopes_of j) (scopes_of i) ≡ false

  -- At most `slots` items; and unless `wide`, apart from each other and from the occupied scopes.
  pub record IsSelection (items : List WorkItem) : Type 0 where
    pub bounded : length items ≤ slots
    pub apart : wide ≡ false → Sorted Apart items
    pub free :
        wide ≡ false → All (λ i. any (scopes_conflict fold (scopes_of i)) occupied ≡ false) items

  none-IsSelection : IsSelection []
  none-IsSelection = record { bounded = omega arith; apart = λ n. tt; free = λ n. tt }

  added-IsSelection :
      (items : List WorkItem) (item : WorkItem)
      → IsSelection items
      → (wide ≡ false → clashes fold occupied items item ≡ false)
      → leb slots (length items) ≡ false
      → IsSelection (items ++ item ∷ [])
  unfolding clashes
  added-IsSelection items item s free_of room = record {
    bounded =
        omega (arith, length-append items (item ∷ []), leb-false→lt slots (length items) room);
    apart = λ n. Sorted-append Apart items item (s.apart n) (
        All-of_Member (λ i. Apart i item) items
          (λ i m. any-false-Member _ m (or-false _ _ (free_of n)).1));
    free = λ n. All-append _ items (item ∷ []) (s.free n) ((or-false _ _ (free_of n)).0, tt);
  }

  fill_slots-IsSelection :
      (n : ℕ) (items rest : List WorkItem)
      → IsSelection items
      → IsSelection (fill_slots wide fold slots occupied stops n items rest)
  unfolding fill_slots
  fill_slots-IsSelection n items [] s = s
  fill_slots-IsSelection n items (item ∷ rest) s = elim (Bool-cases (stops n)) [
    | inl e ↦ rw e none-IsSelection
    | inr e ↦ elim (Bool-cases (leb slots (length items))) [
      | inl full ↦ rw e (rw full s)
      | inr room ↦ rw e (
          rw room (elim (Bool-cases (not wide && clashes fold occupied items item)) [
            | inl c ↦ rw c (fill_slots-IsSelection (suc n) items rest s)
            | inr c ↦ rw c (
                fill_slots-IsSelection (suc n) (items ++ item ∷ []) rest
                  (added-IsSelection items item s (λ narrow. ground arith) room))
          ]))
    ]
  ]

  -- Only items of the two lists are taken.
  fill_slots-Member :
      (n : ℕ) (items rest : List WorkItem) (x : WorkItem)
      → Member x (fill_slots wide fold slots occupied stops n items rest)
      → Member x items ⊎ Member x rest
  unfolding fill_slots
  fill_slots-Member n items [] x m = inl m
  fill_slots-Member n items (item ∷ rest) x m = elim (Bool-cases (stops n)) [
    | inl e ↦ elim (rw e at m) [ ]
    | inr e ↦ elim (Bool-cases (leb slots (length items))) [
      | inl full ↦ inl (rw (e, full) at m)
      | inr room ↦ elim (Bool-cases (not wide && clashes fold occupied items item)) [
        | inl c ↦ elim (fill_slots-Member (suc n) items rest x (rw (e, room, c) at m)) [
          | inl k ↦ inl k
          | inr k ↦ inr (there k)
        ]
        | inr c ↦
            elim (fill_slots-Member (suc n) (items ++ item ∷ []) rest x (rw (e, room, c) at m)) [
              | inl k ↦ elim (Member-append items k) [
                | inl l ↦ inl l
                | inr l ↦ elim (Member-cons l) [ inl p ↦ inr (rw p here) | inr l' ↦ elim l' [ ] ]
              ]
              | inr k ↦ inr (there k)
            ]
      ]
    ]
  ]

  module _ (runs : (n : ℕ) → stops n ≡ false) where
    -- What is taken stays taken.
    fill_slots-keeps :
        (n : ℕ) (items rest : List WorkItem) (x : WorkItem)
        → Member x items
        → Member x (fill_slots wide fold slots occupied stops n items rest)
    unfolding fill_slots
    fill_slots-keeps n items [] x m = m
    fill_slots-keeps n items (item ∷ rest) x m =
        rw (runs n) (elim (Bool-cases (leb slots (length items))) [
          | inl full ↦ rw full m
          | inr room ↦ rw room (elim (Bool-cases (not wide && clashes fold occupied items item)) [
            | inl c ↦ rw c (fill_slots-keeps (suc n) items rest x m)
            | inr c ↦ rw c (
                fill_slots-keeps (suc n) (items ++ item ∷ []) rest x
                  (Member-append_left (item ∷ []) m))
          ])
        ])

    clashes-more :
        (items more : List WorkItem) (x : WorkItem)
        → ((y : WorkItem) → Member y items → Member y more)
        → clashes fold occupied items x ≡ true
        → clashes fold occupied more x ≡ true
    unfolding clashes
    clashes-more items more x sub h =
        elim (Bool-cases (any (scopes_conflict fold (scopes_of x)) occupied)) [
          | inl e ↦ rw e refl
          | inr e ↦
              let (y, m, q) = any-true-Member _ items (rw e at h) in
              rw e (any-true_of_Member _ (sub y m) q)
        ]

    still_clashes :
        (items more : List WorkItem) (x : WorkItem)
        → ((y : WorkItem) → Member y items → Member y more)
        → (not wide && clashes fold occupied items x) ≡ true
        → (not wide && clashes fold occupied more x) ≡ true
    still_clashes items more x sub h = elim (Bool-cases wide) [
      | inl e ↦ let absurd : false ≡ true = rw e at h in cc
      | inr e ↦ rw e (clashes-more items more x sub (rw e at h))
    ]

    -- An item that is left out found no slot, or clashes.
    fill_slots-conserves :
        (n : ℕ) (items rest : List WorkItem) (x : WorkItem)
        → Member x rest
        → let taken = fill_slots wide fold slots occupied stops n items rest in
          Member x taken
          ⊎ ((slots ≤ length taken) ⊎ ((not wide && clashes fold occupied taken x) ≡ true))
    unfolding fill_slots
    fill_slots-conserves n items [] x m = elim m [ ]
    fill_slots-conserves n items (item ∷ rest) x m =
        rw (runs n) (elim (Bool-cases (leb slots (length items))) [
          | inl full ↦ rw full (inr (inl (leb→le slots (length items) full)))
          | inr room ↦ rw room (elim (Bool-cases (not wide && clashes fold occupied items item)) [
            | inl c ↦ rw c (elim (Member-cons m) [
              | inl p ↦
                  inr (inr (still_clashes items _ x (fill_slots-keeps (suc n) items rest) (rw p c)))
              | inr k ↦ fill_slots-conserves (suc n) items rest x k
            ])
            | inr c ↦ rw c (elim (Member-cons m) [
              | inl p ↦ inl (
                  fill_slots-keeps (suc n) (items ++ item ∷ []) rest x
                    (Member-append_right items (rw p here)))
              | inr k ↦ fill_slots-conserves (suc n) (items ++ item ∷ []) rest x k
            ])
          ])
        ])

-- At most `slots` of the ready items are taken; unless `wide`, no two of them and none of them and the
-- occupied scopes conflict; and an item is left out only when the slots are full or it clashes.
pub record IsRound (wide : Bool) (fold : PathText → PathText) (slots : ℕ)
    (occupied : List (List PathText)) (waiting taken : List WorkItem) : Type 0 where
  pub of_ready : (i : WorkItem) → Member i taken → Member i waiting
  pub selection : IsSelection wide fold slots occupied (λ n. false) taken
  pub conserving :
      (i : WorkItem)
      → Member i waiting
      → Member i taken
        ⊎ ((slots ≤ length taken) ⊎ ((not wide && clashes fold occupied taken i) ≡ true))

pub select_work_items_lem :
    (wide : Bool) (fold : PathText → PathText) (limits : SchedulerLimits) (ages : Ages)
    (w : Workstream) (active_for_manager active_global : ℕ) (statuses : Statuses)
    (occupied : List (List PathText))
    → IsRound wide fold
        (worker_slots wide limits w active_for_manager active_global)
        occupied
        (ready_work_items wide statuses w)
        (select_work_items wide fold limits ages w active_for_manager active_global statuses
          occupied false
          (λ n. false)).0
unfolding select_work_items
select_work_items_lem wide fold limits ages w active_for_manager active_global statuses occupied =
    let slots = worker_slots wide limits w active_for_manager active_global in
    let depth =
      λ (id : String). if wide then 0 else critical_path_depth (map item_node w.work_items) id in
    let first = item_first ages depth in
    let waiting = ready_work_items wide statuses w in
    record {
      of_ready = λ i m.
          elim (fill_slots-Member wide fold slots occupied (λ n. false) 0 []
            (sorted_by first waiting) i m) [
              | inl k ↦ elim k [ ]
              | inr k ↦ Member-sorted_by first i waiting k
            ];
      selection =
          fill_slots-IsSelection wide fold slots occupied (λ n. false) 0 []
            (sorted_by first waiting) (none-IsSelection wide fold slots occupied (λ n. false));
      conserving = λ i m.
          fill_slots-conserves wide fold slots occupied (λ n. false) (λ n. refl) 0 []
            (sorted_by first waiting) i (sorted_by-Member first i waiting m);
    }

-- When the running workers are within the limits, they still are after the round, for the Manager and
-- in all; `wide` is off.
pub running_stays_bounded :
    (fold : PathText → PathText) (limits : SchedulerLimits) (ages : Ages) (w : Workstream)
    (active_for_manager active_global : ℕ) (statuses : Statuses) (occupied : List (List PathText))
    → active_for_manager ≤ worker_parallel_cap limits
    → active_global ≤ limits.max_parallel_workers
    → let taken =
        (select_work_items false fold limits ages w active_for_manager active_global statuses
          occupied false
          (λ n. false)).0 in
      (active_for_manager + length taken ≤ worker_parallel_cap limits)
      × (active_global + length taken ≤ limits.max_parallel_workers)
unfolding worker_slots
running_stays_bounded fold limits ages w active_for_manager active_global statuses occupied h k =
    let round =
      (select_work_items_lem false fold limits ages w active_for_manager active_global statuses
        occupied).selection.bounded in
    ground arith
