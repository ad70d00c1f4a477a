-- ===== src/Broker/Publishers.antt =====
-- Publishers, the closer and subscribers interleave: each `with self._condition` block is a step.
use claude_router.Prelude.{List, [], arith, false, ok, refl, true, ℕ, ◌+◌, ◌∷◌, ◌≡◌}
use claude_router.Broker.{
  stamp, store, Event, Broker, publish, admit, finish, create, stop_accepting, mark_closed, drained,
}
use claude_router.Broker.Chain.{Inv, publish-Inv}

-- The broker and the threads that are inside `put_many`: those whose admission block is over and whose
-- publishing block is not, and those that are about to run the `finally` block.
pub record System : Type 0 where
  pub broker : Broker
  pub publishing : ℕ
  pub finishing : ℕ

-- The system before any thread has called the broker.
abbrev pub idle : Broker → System
idle b = record { broker = b; publishing = 0; finishing = 0 }

-- One atomic block of some thread. A thread takes the blocks of `put_many` one after the other, and may
-- raise before the second, which leads to the `finally` block; `close` sets `_closed` after
-- `stop_accepting`. No step reads the broker's own count of the publishers.
pub data Step (x y : System) : Type 0 where
  admits :
      (b : Broker)
      → admit x.broker ≡ ok b
      → y ≡ record { broker = b; publishing = x.publishing + 1; finishing = x.finishing }
      → Step x y
  publishes :
      (es : List Event) (others : ℕ)
      → x.publishing ≡ others + 1
      → y ≡ record {
        broker = (publish x.broker es).0;
        publishing = others;
        finishing = x.finishing + 1;
      }
      → Step x y
  raises :
      (others : ℕ)
      → x.publishing ≡ others + 1
      → y ≡ record { broker = x.broker; publishing = others; finishing = x.finishing + 1 }
      → Step x y
  finishes :
      (others : ℕ)
      → x.finishing ≡ others + 1
      → y ≡ record { broker = finish x.broker; publishing = x.publishing; finishing = others }
      → Step x y
  stops : y ≡ record x { broker = stop_accepting x.broker } → Step x y
  closes : x.broker.accepting ≡ false → y ≡ record x { broker = mark_closed x.broker } → Step x y

pub data Reach (x : System) : System → Type 0 where
  start : Reach x x
  next : {y z : System} → Reach x y → Step y z → Reach x z

-- The broker is well formed, and its count is the number of threads inside `put_many`.
record IsCounted (x : System) : Type 0 where
  formed : Inv x.broker
  count : x.broker.active_publishers ≡ x.publishing + x.finishing

create-IsCounted : (m n : ℕ) (b : Broker) → create m n ≡ ok b → IsCounted (idle b)
unfolding create
create-IsCounted m n b h = record { formed = ground arith; count = ground arith }

admit-Inv : (b b' : Broker) → Inv b → admit b ≡ ok b' → Inv b'
unfolding admit
admit-Inv b b' v h = ground arith

admit-count : (b b' : Broker) → admit b ≡ ok b' → b'.active_publishers ≡ b.active_publishers + 1
unfolding admit
admit-count b b' h = ground arith

publish-count :
    (b : Broker) (es : List Event)
    → ((publish b es).0.active_publishers ≡ b.active_publishers)
      × ((publish b es).0.accepting ≡ b.accepting)
unfolding publish stamp store
publish-count b [] = (refl, refl)
publish-count b (e ∷ es) = ground (arith, publish-count (store b (stamp b.sequence e)) es)

finish-Inv : (b : Broker) → Inv b → Inv (finish b)
unfolding finish
finish-Inv b v = ground arith

stop_accepting-Inv : (b : Broker) → Inv b → Inv (stop_accepting b)
unfolding stop_accepting
stop_accepting-Inv b v = ground arith

mark_closed-Inv : (b : Broker) → Inv b → Inv (mark_closed b)
unfolding mark_closed
mark_closed-Inv b v = ground arith

Step-IsCounted : {x y : System} → Step x y → IsCounted x → IsCounted y
Step-IsCounted {x} (admits b h e) v = rw e (record {
  formed = admit-Inv x.broker b v.formed h;
  count = omega (arith, admit-count x.broker b h, v.count);
})
Step-IsCounted {x} (publishes es others k e) v = rw e (record {
  formed = publish-Inv x.broker es v.formed;
  count = omega (arith, (publish-count x.broker es).0, v.count);
})
Step-IsCounted {x} (raises others k e) v =
    rw e (record { formed = v.formed; count = omega (arith, v.count) })
Step-IsCounted {x} (finishes others k e) v = rw e (record {
  formed = finish-Inv x.broker v.formed;
  count = unfold finish in omega (arith, v.count);
})
Step-IsCounted {x} (stops e) v = rw e (record {
  formed = stop_accepting-Inv x.broker v.formed;
  count = unfold stop_accepting in v.count;
})
Step-IsCounted {x} (closes off e) v =
    rw e
      (record { formed = mark_closed-Inv x.broker v.formed; count = unfold mark_closed in v.count })

Reach-IsCounted : {x y : System} → Reach x y → IsCounted x → IsCounted y
Reach-IsCounted start v = v
Reach-IsCounted (next r s) v = Step-IsCounted s (Reach-IsCounted r v)

-- However publishers and the closer interleave after `create`, the buffer holds at most
-- `max_events` events, their numbers grow, every hole between two neighbours is marked by
-- `_gap_after`, and the cursor is the newest number; and `_active_publishers` is the number of
-- threads inside `put_many`.
pub created_Reach-Inv :
    (max_events initial : ℕ) {b : Broker} {x : System}
    → create max_events initial ≡ ok b
    → Reach (idle b) x
    → Inv x.broker × (x.broker.active_publishers ≡ x.publishing + x.finishing)
created_Reach-Inv m n {b} h r =
    let v = Reach-IsCounted r (create-IsCounted m n b h) in (v.formed, v.count)

-- What the buffer, the cursor and the threads look like once intake has stopped and drained.
record IsQuiet (x y : System) : Type 0 where
  stopped : y.broker.accepting ≡ false
  no_publishing : y.publishing ≡ 0
  no_finishing : y.finishing ≡ 0
  same_count : y.broker.active_publishers ≡ 0
  same_events : y.broker.events ≡ x.broker.events
  same_sequence : y.broker.sequence ≡ x.broker.sequence

admit-stopped : (b c : Broker) → b.accepting ≡ false → ¬ (admit b ≡ ok c)
unfolding admit
admit-stopped b c off h = ground arith

Step-IsQuiet : {x y z : System} → IsQuiet x y → Step y z → IsQuiet x z
Step-IsQuiet {x} {y} q (admits b h e) = absurd (admit-stopped y.broker b q.stopped h)
Step-IsQuiet q (publishes es others k e) = let n = q.no_publishing in absurd (omega arith)
Step-IsQuiet q (raises others k e) = let n = q.no_publishing in absurd (omega arith)
Step-IsQuiet q (finishes others k e) = let n = q.no_finishing in absurd (omega arith)
Step-IsQuiet q (stops e) = rw e (unfold stop_accepting in ground arith)
Step-IsQuiet q (closes off e) = rw e (unfold mark_closed in ground arith)

Reach-IsQuiet : {x y : System} → IsQuiet x x → Reach x y → IsQuiet x y
Reach-IsQuiet q start = q
Reach-IsQuiet q (next r s) = Step-IsQuiet (Reach-IsQuiet q r) s

drained-count : (b : Broker) → drained b ≡ true → b.active_publishers ≡ 0
unfolding drained
drained-count b d = ground arith

-- In any interleaving after `create`: once intake has stopped and `drain` has answered true, no
-- later interleaving changes the buffer or the cursor, and no thread is inside `put_many`, then or
-- later.
pub drained_is_final :
    (max_events initial : ℕ) {b : Broker} {x y : System}
    → create max_events initial ≡ ok b
    → Reach (idle b) x
    → x.broker.accepting ≡ false
    → drained x.broker ≡ true
    → Reach x y
    → (y.broker.events ≡ x.broker.events)
      × (y.broker.sequence ≡ x.broker.sequence)
      × (y.broker.active_publishers ≡ 0)
      × (y.publishing ≡ 0)
      × (y.finishing ≡ 0)
drained_is_final m n {b} {x} {y} h before off d r =
    (q.same_events, q.same_sequence, q.same_count, q.no_publishing, q.no_finishing)
  where
    none_left : x.broker.active_publishers ≡ 0
    none_left = drained-count x.broker d

    c : x.broker.active_publishers ≡ x.publishing + x.finishing
    c = (created_Reach-Inv m n h before).1

    q : IsQuiet x y
    q =
        Reach-IsQuiet
          (record {
            stopped = off;
            no_publishing = omega (arith, none_left, c);
            no_finishing = omega (arith, none_left, c);
            same_count = none_left;
            same_events = refl;
            same_sequence = refl;
          })
          r
