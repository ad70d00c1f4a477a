-- ===== src/Broker/Samples.antt =====
-- A stream of two live events and one durable event that leaves a hole.
use claude_router.Prelude.{
  List, Member, [], false, none, ok, refl, select, some, true, ◌<◌, ◌↔◌, ◌∷◌, ◌≡◌, ◌≢◌, ◌≤◌,
}
use claude_router.Broker.{
  Stored, stop_accepting, Event, Broker, admit, append_bounded, create, drained, events_after,
  finish, mark_closed, publish, put_many, run_admitted, stamp, store,
}
use claude_router.Broker.Chain.{Inv, Linked, last_seq}
use claude_router.Broker.Replay.{StartsAfter, events_after_contiguous}
use claude_router.Broker.Publishers.{
  Reach, start, next, admits, publishes, finishes, stops, idle, created_Reach-Inv, drained_is_final,
  closes,
}

abbrev started : Broker
started = record {
  max_events = 2;
  events = [];
  sequence = 3;
  active_publishers = 0;
  accepting = true;
  closed = false;
}

started_lem : create 2 3 ≡ ok started
unfolding create
started_lem = refl

abbrev batch : List Event
batch = record { sequence = 4; body = "a" } ∷ record { sequence = 7; body = "b" } ∷ []

abbrev filled : Broker
filled = record started {
  sequence = 7;
  events =
      record { event = record { sequence = 4; body = "a" }; seq = 4; gap_after = none }
      ∷ record { event = record { sequence = 7; body = "b" }; seq = 7; gap_after = some 4 }
      ∷ [];
}

published : put_many started batch ≡ ok (filled, 2)
unfolding put_many admit run_admitted publish stamp store append_bounded finish
published = refl

run_to_filled : Reach (idle started) (idle filled)
unfolding admit publish stamp store append_bounded finish
run_to_filled =
    next
      {y = record {
        broker = record filled { active_publishers = 1 };
        publishing = 0;
        finishing = 1;
      }}
      (next
        {y = record {
          broker = record started { active_publishers = 1 };
          publishing = 1;
          finishing = 0;
        }}
        (next start (admits (record started { active_publishers = 1 }) refl refl))
        (publishes batch 0 refl refl))
      (finishes 0 refl refl)

created_Reach-Inv_example : Inv filled × (filled.active_publishers ≡ 0)
created_Reach-Inv_example = created_Reach-Inv 2 3 started_lem run_to_filled

filled-Inv : Inv filled
filled-Inv = (created_Reach-Inv 2 3 started_lem run_to_filled).0

replayed : events_after filled 3 true ≡ ok filled.events
unfolding events_after select
replayed = refl

events_after_contiguous_example :
    StartsAfter 3 filled.events
    × Linked 3 filled.events
    × ((x : Stored) → Member x filled.events ↔ (Member x filled.events × (3 < x.seq)))
    × (filled.events ≢ [] → 3 ≤ 7 → last_seq 3 filled.events ≡ 7)
events_after_contiguous_example = events_after_contiguous filled 3 filled.events filled-Inv replayed

abbrev quiet : Broker
quiet = record filled { accepting = false }

quiet-drained : drained quiet ≡ true
unfolding drained
quiet-drained = refl

run_to_quiet : Reach (idle started) (idle quiet)
unfolding stop_accepting
run_to_quiet = next run_to_filled (stops refl)

quiet_closes : Reach (idle quiet) (idle (mark_closed quiet))
quiet_closes = next start (closes refl refl)

drained_is_final_example :
    ((mark_closed quiet).events ≡ filled.events)
    × ((mark_closed quiet).sequence ≡ 7)
    × ((mark_closed quiet).active_publishers ≡ 0)
    × ((idle (mark_closed quiet)).publishing ≡ 0)
    × ((idle (mark_closed quiet)).finishing ≡ 0)
drained_is_final_example =
    drained_is_final 2 3 started_lem run_to_quiet refl quiet-drained quiet_closes
