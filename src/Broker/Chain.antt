-- ===== src/Broker/Chain.antt =====
-- The stored events form a chain: numbers grow, and every hole between two neighbours is marked.
use claude_router.Prelude.{
  Bool-cases, List, Option-cases, [], arith, drop, inl, inr, length, length-append, ltb, ltb→lt,
  some, ℕ, ◌++◌, ◌+◌, ◌<◌, ◌∷◌, ◌≡◌, ◌≤◌, ◌⊎◌,
}
use claude_router.Broker.{Event, Stored, Broker, append_bounded, stamp, store, publish}

-- `y` comes right after number `p`, or is marked with the hole behind `p`.
abbrev pub Follows : ℕ → Stored → Type 0
Follows p y = (p < y.seq) × ((y.seq ≡ p + 1) ⊎ (y.gap_after ≡ some p))

abbrev pub Linked : ℕ → List Stored → Type 0
Linked p [] = Unit
Linked p (y ∷ ys) = Follows p y × Linked y.seq ys

abbrev pub Chain : List Stored → Type 0
Chain [] = Unit
Chain (x ∷ xs) = Linked x.seq xs

-- the number of the newest event
abbrev pub last_seq : ℕ → List Stored → ℕ
last_seq d [] = d
last_seq d (x ∷ xs) = last_seq x.seq xs

pub record Inv (b : Broker) : Type 0 where
  pub room : 0 < b.max_events
  pub bounded : length b.events ≤ b.max_events
  pub chain : Chain b.events
  pub newest : last_seq b.sequence b.events ≡ b.sequence

Linked-append :
    (p : ℕ) (xs : List Stored) (y : Stored)
    → Linked p xs
    → Follows (last_seq p xs) y
    → Linked p (xs ++ y ∷ [])
Linked-append p [] y h f = (f, tt)
Linked-append p (x ∷ xs) y h f = (h.0, Linked-append x.seq xs y h.1 f)

last_seq-append : (d : ℕ) (xs : List Stored) (y : Stored) → last_seq d (xs ++ y ∷ []) ≡ y.seq
last_seq-append d [] y = omega arith
last_seq-append d (x ∷ xs) y = last_seq-append x.seq xs y

last_seq_cons : (d : ℕ) (x : Stored) (xs : List Stored) → last_seq d (x ∷ xs) ≡ last_seq x.seq xs
last_seq_cons d x xs = omega arith

Chain-append :
    (d : ℕ) (xs : List Stored) (y : Stored)
    → Chain xs
    → Follows (last_seq d xs) y
    → Chain (xs ++ y ∷ [])
Chain-append d [] y h f = tt
Chain-append d (x ∷ xs) y h f = Linked-append x.seq xs y h f

Chain-drop : (xs : List Stored) → Chain xs → Chain (drop 1 xs)
Chain-drop [] h = tt
Chain-drop (x ∷ []) h = tt
Chain-drop (x ∷ y ∷ xs) h = h.1

last_seq-drop :
    (d : ℕ) (xs : List Stored) (y : Stored) → last_seq y.seq (drop 1 (xs ++ y ∷ [])) ≡ y.seq
last_seq-drop d [] y = omega arith
last_seq-drop d (x ∷ xs) y = last_seq-append y.seq xs y

length-drop_one : (xs : List Stored) (y : Stored) → length (drop 1 (xs ++ y ∷ [])) ≡ length xs
length-drop_one [] y = omega arith
length-drop_one (x ∷ xs) y = omega (arith, length-append xs (y ∷ []))

-- The event that is stored at a cursor follows it.
stamp-Follows :
    (current : ℕ) (e : Event) (x : Stored) → stamp current e ≡ some x → Follows current x
unfolding stamp
stamp-Follows current e x h = ground arith

module _ (b : Broker) (x : Stored) (v : Inv b) (f : Follows b.sequence x) where
  full_Chain : Chain (b.events ++ x ∷ [])
  full_Chain = Chain-append b.sequence b.events x v.chain (rw (v.newest) f)

  append_bounded-Chain : Chain (append_bounded b.max_events b.events x)
  unfolding append_bounded
  append_bounded-Chain = elim (Bool-cases (ltb (length b.events) b.max_events)) [
    | inl e ↦ rw e full_Chain
    | inr e ↦ rw e (Chain-drop (b.events ++ x ∷ []) full_Chain)
  ]

  append_bounded-newest : last_seq x.seq (append_bounded b.max_events b.events x) ≡ x.seq
  unfolding append_bounded
  append_bounded-newest = elim (Bool-cases (ltb (length b.events) b.max_events)) [
    | inl e ↦ rw e (last_seq-append x.seq b.events x)
    | inr e ↦ rw e (last_seq-drop x.seq b.events x)
  ]

  append_bounded-le : length (append_bounded b.max_events b.events x) ≤ b.max_events
  unfolding append_bounded
  append_bounded-le = elim (Bool-cases (ltb (length b.events) b.max_events)) [
    | inl e ↦ rw e (omega (arith, length-append b.events (x ∷ []), ltb→lt _ _ e))
    | inr e ↦ rw e (omega (arith, length-drop_one b.events x, v.bounded))
  ]

  stored-Inv : Inv (store b (some x))
  unfolding store
  stored-Inv = record {
    room = v.room;
    bounded = append_bounded-le;
    chain = append_bounded-Chain;
    newest = append_bounded-newest;
  }

store-Inv : (b : Broker) (e : Event) → Inv b → Inv (store b (stamp b.sequence e))
store-Inv b e v = elim (Option-cases (stamp b.sequence e)) [
  | inl h ↦ rw h (unfold store in v)
  | inr (x, h) ↦ rw h (stored-Inv b x v (stamp-Follows b.sequence e x h))
]

-- A batch, whatever its numbers, keeps the stream a chain that ends at the cursor and fits.
pub publish-Inv : (b : Broker) (es : List Event) → Inv b → Inv (publish b es).0
unfolding publish
publish-Inv b [] v = v
publish-Inv b (e ∷ es) v = publish-Inv (store b (stamp b.sequence e)) es (store-Inv b e v)
