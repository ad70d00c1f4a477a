-- ===== src/Broker/Replay.antt =====
-- What a subscriber gets from `events_after`, and what a repeated batch does.
use claude_router.Prelude.{
  All, Bool-cases, List, Member, Member-select, Result, [], ap, arith, err, false, inl, inr, ltb,
  ltb→lt, lt→ltb, none, ok, refl, select, select-All, select-Member, subst, sym, true, ℕ, ◌+◌, ◌-◌,
  ◌<◌, ◌↔◌, ◌∙◌, ◌∷◌, ◌≡◌, ◌≢◌, ◌≤◌,
}
use claude_router.Broker.{
  Event, Stored, Broker, stamp, store, publish, is_after, opens_gap, events_after, admit, finish,
  put_many, run_admitted, Error,
}
use claude_router.Broker.Chain.{Linked, Chain, last_seq, Inv}

select-Linked : (s p : ℕ) (xs : List Stored) → s ≤ p → Linked p xs → select (is_after s) xs ≡ xs
unfolding select
select-Linked s p [] h l = refl
select-Linked s p (x ∷ xs) h l =
    rw (lt→ltb s x.seq (omega arith))
      (ap (λ (r : List Stored). x ∷ r) (select-Linked s x.seq xs (omega arith) l.1))

select-Chain : (s : ℕ) (xs : List Stored) → Chain xs → Chain (select (is_after s) xs)
unfolding select
select-Chain s [] h = tt
select-Chain s (x ∷ xs) h = elim (Bool-cases (ltb s x.seq)) [
  | inl e ↦ rw (e, select-Linked s x.seq xs (omega (arith, ltb→lt s x.seq e)) h) h
  | inr e ↦ rw e (select-Chain s xs (Linked-Chain x.seq xs h))
]
  where
    Linked-Chain : (p : ℕ) (ys : List Stored) → Linked p ys → Chain ys
    Linked-Chain p [] l = tt
    Linked-Chain p (y ∷ ys) l = l.1

last_seq-select :
    (s d p : ℕ) (xs : List Stored)
    → Linked p xs
    → p ≤ s
    → s ≤ last_seq p xs
    → last_seq s (select (is_after s) xs) ≡ last_seq p xs
unfolding select
last_seq-select s d p [] l h k = omega arith
last_seq-select s d p (x ∷ xs) l h k = elim (Bool-cases (ltb s x.seq)) [
  | inl e ↦ rw (e, select-Linked s x.seq xs (omega (arith, ltb→lt s x.seq e)) l.1)
  | inr e ↦ rw e (last_seq-select s d x.seq xs l.1 (ground arith) k)
]

newest-select :
    (s d : ℕ) (xs : List Stored)
    → xs ≢ []
    → Chain xs
    → s ≤ last_seq d xs
    → last_seq s (select (is_after s) xs) ≡ last_seq d xs
unfolding select
newest-select s d [] n h k = absurd (n refl)
newest-select s d (x ∷ xs) n h k = elim (Bool-cases (ltb s x.seq)) [
  | inl e ↦ rw (e, select-Linked s x.seq xs (omega (arith, ltb→lt s x.seq e)) h)
  | inr e ↦ rw e (last_seq-select s d x.seq xs h (ground arith) k)
]

opens-Linked :
    (s : ℕ) (xs : List Stored)
    → Chain xs
    → All (λ x. is_after s x ≡ true) xs
    → opens_gap s xs ≡ false
    → Linked s xs
opens-Linked s [] h a g = tt
opens-Linked s (x ∷ xs) h a g = ((ltb→lt s x.seq a.0, inl (ground (arith, a.0))), h)

-- The first event has the number after `s`.
abbrev pub StartsAfter : ℕ → List Stored → Type 0
StartsAfter s [] = Unit
StartsAfter s (x ∷ xs) = x.seq ≡ s + 1

opens-StartsAfter :
    (s : ℕ) (xs : List Stored)
    → All (λ x. is_after s x ≡ true) xs
    → opens_gap s xs ≡ false
    → StartsAfter s xs
opens-StartsAfter s [] a g = tt
opens-StartsAfter s (x ∷ xs) a g = let after_it = ltb→lt s x.seq a.0 in ground arith

Member-later :
    (s : ℕ) (xs : List Stored) (x : Stored)
    → Member x (select (is_after s) xs) ↔ (Member x xs × (s < x.seq))
Member-later s xs x = (
  λ m. let (k, e) = select-Member (is_after s) xs x m in (k, ltb→lt s x.seq e),
  λ k. Member-select (is_after s) k.0 (lt→ltb s x.seq k.1),
)

-- On a well-formed broker, the first event that a contiguous request returns has the number right
-- after the subscriber's, every later hole is marked by `_gap_after`, what is
-- returned are the buffered events with a later number than the subscriber's, and the last number returned is the cursor if
-- the buffer is not empty and the subscriber is not ahead of the cursor.
pub events_after_contiguous :
    (b : Broker) (s : ℕ) (es : List Stored)
    → Inv b
    → events_after b s true ≡ ok es
    → StartsAfter s es
      × Linked s es
      × ((x : Stored) → Member x es ↔ (Member x b.events × (s < x.seq)))
      × (b.events ≢ [] → s ≤ b.sequence → last_seq s es ≡ b.sequence)
unfolding events_after
events_after_contiguous b s es v h =
    let found = select (is_after s) b.events in
    elim (Bool-cases (opens_gap s found)) [
      | inl e ↦ ground (arith, e)
      | inr e ↦
          let stored : found ≡ es = ground (arith, e) in
          let later = select-All (is_after s) b.events in
          (
            subst (StartsAfter s) stored (opens-StartsAfter s found later e),
            subst (Linked s) stored
                (opens-Linked s found (select-Chain s b.events v.chain) later e),
            λ x.
                subst (λ zs. Member x zs ↔ (Member x b.events × (s < x.seq))) stored
                  (Member-later s b.events x),
            λ some_event reached.
                subst (λ zs. last_seq s zs ≡ b.sequence) stored
                  (newest-select s b.sequence b.events some_event v.chain (rw v.newest reached)
                    ∙ v.newest),
          )
    ]

-- Every event of the batch has a durable number.
abbrev pub IsDurable : Event → Type 0
IsDurable e = 0 < e.sequence

publish-le : (b : Broker) (es : List Event) → b.sequence ≤ (publish b es).0.sequence
unfolding publish stamp store
publish-le b [] = omega arith
publish-le b (e ∷ es) = ground (arith, publish-le (store b (stamp b.sequence e)) es)

store_covers :
    (b : Broker) (e : Event) → IsDurable e → e.sequence ≤ (store b (stamp b.sequence e)).sequence
unfolding stamp store
store_covers b e h = ground arith

publish_covers :
    (b : Broker) (es : List Event)
    → All IsDurable es
    → All (λ e. e.sequence ≤ (publish b es).0.sequence) es
unfolding publish
publish_covers b [] h = tt
publish_covers b (e ∷ es) h =
    let b' = store b (stamp b.sequence e) in
    (omega (arith, store_covers b e h.0, publish-le b' es), publish_covers b' es h.1)

stamp_stale :
    (current : ℕ) (e : Event) → IsDurable e → e.sequence ≤ current → stamp current e ≡ none
unfolding stamp
stamp_stale current e h k = ground arith

store-none : (b : Broker) → store b none ≡ b
unfolding store
store-none b = refl

publish_stale :
    (b : Broker) (es : List Event)
    → All IsDurable es
    → All (λ e. e.sequence ≤ b.sequence) es
    → publish b es ≡ (b, 0)
unfolding publish
publish_stale b [] h k = refl
publish_stale b (e ∷ es) h k =
    rw (stamp_stale b.sequence e h.0 k.0, store-none b, publish_stale b es h.1 k.1) refl

finish-admit : (b b' : Broker) → admit b ≡ ok b' → finish b' ≡ b
unfolding admit finish
finish-admit b b' h = ground arith

admit-sequence : (b b' : Broker) → admit b ≡ ok b' → b'.sequence ≡ b.sequence
unfolding admit
admit-sequence b b' h = ground arith

run_admitted_stale :
    (b b' : Broker) (es : List Event)
    → admit b ≡ ok b'
    → All IsDurable es
    → All (λ e. e.sequence ≤ b.sequence) es
    → run_admitted es (admit b) ≡ ok (b, 0)
unfolding run_admitted
run_admitted_stale b b' es a h k = rw a (
    rw
      (publish_stale b' es h
        (subst (λ n. All (λ e. e.sequence ≤ n) es) (sym (admit-sequence b b' a)) k))
      (rw (finish-admit b b' a)))

-- Publishing leaves the flags that admission reads.
publish_flags :
    (b : Broker) (es : List Event)
    → ((publish b es).0.accepting ≡ b.accepting) × ((publish b es).0.closed ≡ b.closed)
unfolding publish stamp store
publish_flags b [] = (refl, refl)
publish_flags b (e ∷ es) = ground (arith, publish_flags (store b (stamp b.sequence e)) es)

admits_again :
    (b c : Broker) (es : List Event)
    → admit b ≡ ok c
    → (d : Broker) × (admit (finish (publish c es).0) ≡ ok d)
unfolding admit finish
admits_again b c es h =
    let p = (publish c es).0 in
    (
      record p { active_publishers = (p.active_publishers - 1) + 1 },
      ground (arith, publish_flags c es),
    )

finish-sequence : (b : Broker) → (finish b).sequence ≡ b.sequence
unfolding finish
finish-sequence b = refl

republish_from :
    (b b' : Broker) (es : List Event) (n : ℕ) (r : Result Error Broker)
    → admit b ≡ r
    → All IsDurable es
    → run_admitted es r ≡ ok (b', n)
    → run_admitted es (admit b') ≡ ok (b', 0)
unfolding run_admitted
republish_from b b' es n (err x) f h e = cc
republish_from b b' es n (ok c) f h e =
    let same : finish (publish c es).0 ≡ b' = ground arith in
    let (d, again) = admits_again b c es f in
    let settled = finish (publish c es).0 in
    subst (λ z. run_admitted es (admit z) ≡ ok (z, 0)) same
      (run_admitted_stale settled d es again h (
        subst (λ m. All (λ e. e.sequence ≤ m) es) (sym (finish-sequence (publish c es).0))
          (publish_covers c es h)))

-- A batch of durable events that was published once publishes nothing the second time: the broker
-- is left as it is, and the count is 0.
republish_is_idle :
    (b b' : Broker) (es : List Event) (n : ℕ)
    → All IsDurable es
    → put_many b es ≡ ok (b', n)
    → put_many b' es ≡ ok (b', 0)
unfolding put_many
republish_is_idle b b' [] n h e = refl
republish_is_idle b b' (x ∷ xs) n h e = republish_from b b' (x ∷ xs) n (admit b) refl h e
