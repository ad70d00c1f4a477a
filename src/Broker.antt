-- ===== src/Broker.antt =====
-- orchestrator/event_broker.py: the in-memory event stream of one task.
-- Each `with self._condition` block is one atomic operation here. A Python event is a dict: its
-- `sequence` entry is the number that `int(… or 0)` reads, clipped at 0 as the code's test does, and
-- the other entries are the opaque `body`. `deepcopy` is the identity on values.
pub mod Chain
pub mod Replay
pub mod Publishers
mod Samples
use claude_router.Prelude.{
  Bool, List, Option, Result, String, [], any, drop, err, false, if◌then◌else◌, leb, length, ltb,
  none, not, ok, select, some, true, ℕ, ◌&&◌, ◌++◌, ◌+◌, ◌-◌, ◌||◌, ◌∷◌,
}

pub record Event : Type 0 where
  pub sequence : ℕ
  pub body : String

-- A stored event: `_seq` and `_gap_after` are written into the copy.
pub record Stored : Type 0 where
  pub event : Event
  pub seq : ℕ
  pub gap_after : Option ℕ

pub record Broker : Type 0 where
  pub max_events : ℕ
  pub events : List Stored  -- the deque, oldest first
  pub sequence : ℕ
  pub active_publishers : ℕ
  pub accepting : Bool
  pub closed : Bool

pub data Error : Type 0 where
  invalid_argument broker_closing replay_gap : Error

-- `__init__`; a negative initial sequence is no value of ℕ.
unfoldable pub create : ℕ → ℕ → Result Error Broker
create max_events initial_sequence =
    if ltb max_events 1
    then err invalid_argument
    else ok (record {
      max_events = max_events;
      events = [];
      sequence = initial_sequence;
      active_publishers = 0;
      accepting = true;
      closed = false;
    })

-- `deque.append` under `maxlen`: a full deque drops its oldest element.
append_bounded : ℕ → List Stored → Stored → List Stored
append_bounded maxlen xs x = if ltb (length xs) maxlen then xs ++ x ∷ [] else drop 1 (xs ++ x ∷ [])

-- What the loop of `put_many` stores for one event at the cursor; `none` is `continue`.
pub stamp : ℕ → Event → Option Stored
stamp current e =
    if ltb 0 e.sequence
    then (if leb e.sequence current
        then none
        else some (record {
          event = e;
          seq = e.sequence;
          gap_after = if ltb (current + 1) e.sequence then some current else none;
        }))
    else some (record { event = e; seq = current + 1; gap_after = none })

pub store : Broker → Option Stored → Broker
unfolding append_bounded
store b none = b
store b (some x) = record b { sequence = x.seq; events = append_bounded b.max_events b.events x }

abbrev counted : Option Stored → ℕ
counted none = 0
counted (some x) = 1

-- The loop of `put_many`, and how many events it has published.
pub publish : Broker → List Event → Broker × ℕ
publish b [] = (b, 0)
publish b (e ∷ es) =
    let x = stamp b.sequence e in let (b', n) = publish (store b x) es in (b', counted x + n)

-- The admission block of `put_many`.
pub admit : Broker → Result Error Broker
admit b =
    if not b.accepting || b.closed
    then err broker_closing
    else ok (record b { active_publishers = b.active_publishers + 1 })

-- The `finally` block; only an admitted publisher runs it, so the count is not 0 there.
pub finish : Broker → Broker
finish b = record b { active_publishers = b.active_publishers - 1 }

run_admitted : List Event → Result Error Broker → Result Error (Broker × ℕ)
run_admitted es (err e) = err e
run_admitted es (ok b) = let (b', n) = publish b es in ok (finish b', n)

-- `put_many` with nothing between its three blocks; `Publishers` interleaves them.
pub put_many : Broker → List Event → Result Error (Broker × ℕ)
unfolding run_admitted
put_many b [] = ok (b, 0)
put_many b (e ∷ es) = run_admitted (e ∷ es) (admit b)

pub put : Broker → Event → Result Error (Broker × ℕ)
unfolding put_many
put b e = put_many b (e ∷ [])

abbrev pub is_after : ℕ → Stored → Bool
is_after s x = ltb s x.seq

abbrev opens_gap : ℕ → List Stored → Bool
opens_gap s [] = false
opens_gap s (x ∷ xs) = ltb (s + 1) x.seq

-- The tail of `events_after` and of `wait_after`.
checked : ℕ → Bool → List Stored → Result Error (List Stored)
checked s require_contiguous available =
    if require_contiguous && opens_gap s available then err replay_gap else ok available

pub events_after : Broker → ℕ → Bool → Result Error (List Stored)
unfolding checked
events_after b s require_contiguous = checked s require_contiguous (select (is_after s) b.events)

-- `woken` is the broker when `wait_for` returns, by its predicate or by the timeout.
pub wait_after : Broker → Broker → ℕ → Bool → Result Error (List Stored)
unfolding checked
wait_after b woken s require_contiguous =
    if any (is_after s) b.events
    then checked s require_contiguous (select (is_after s) b.events)
    else checked s require_contiguous (select (is_after s) woken.events)

pub has_gap_after : Broker → ℕ → Bool
has_gap_after b s = opens_gap s (select (is_after s) b.events)

pub stop_accepting : Broker → Broker
stop_accepting b = record b { accepting = false }

-- The answer of `drain` when its wait ends at this state.
pub drained : Broker → Bool
drained b = leb b.active_publishers 0

-- `close`: `woken` is the broker when the wait of `drain` ends.
pub mark_closed : Broker → Broker
mark_closed b = record b { closed = true }

pub close : Broker → Broker → Broker × Bool
unfolding mark_closed drained
close b woken = if b.closed then (b, true) else (mark_closed woken, drained woken)
