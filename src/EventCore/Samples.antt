-- ===== src/EventCore/Samples.antt =====
-- Tests and witnesses: a task that starts and whose job is cancelled.
use claude_router.Prelude.{
  List, String, [], arith, dict_get, dict_set, false, if◌then◌else◌, inr, is_blank, length, none,
  ok, refl, some, ℕ, ◌==◌, ◌∷◌, ◌≡◌, nat_eq, string_eq, option_eq,
}
use claude_router.EventCore.{
  Event, TaskProjection, apply_event, apply_all, initial, transition, one_of, update_job, stamp,
  sorted, project_sorted, project_events, or_else, remove_prefix,
}
use claude_router.EventCore.Paging.{rebuild, rebuild_reads_everything}
use claude_router.EventCore.Steps.{Continues, job_cancel_is_not_projected}
use claude_router.EventCore.Replay.{replay_is_contiguous, replay_accepts}

abbrev event : ℕ → String → Event
event n type = record {
  task_id = "t";
  session_id = "s";
  event_id = type;
  event_type = type;
  timestamp = "now";
  sequence = n;
  workstream_id = none;
  call_id = none;
  agent_instance_id = none;
  payload = λ key. if key == "job_id" then some "j" else none;
}

abbrev history : List Event
history = event 2 "job.cancelled" ∷ event 1 "task.started" ∷ []

abbrev running : TaskProjection
running = record {
  task_id = "t";
  session_id = "s";
  sequence = 1;
  status = "running";
  phase = "running";
  cancellation_requested = false;
  event_count = 1;
  workstreams = [];
  calls = [];
  jobs = [];
  last_error = none;
  last_event_type = some "task.started";
  last_event_at = some "now";
}

abbrev replayed : TaskProjection
replayed = record running {
  sequence = 2;
  phase = "execution";
  event_count = 2;
  jobs =
      (
        "j",
        record {
          job_id = "j";
          state = "cancelled";
          attempt = none;
          fencing_token = none;
          sequence = 2;
        },
      )
      ∷ [];
  last_event_type = some "job.cancelled";
}

applied : apply_event running (event 2 "job.cancelled") ≡ ok replayed
unfolding apply_event transition one_of update_job stamp dict_set dict_get or_else remove_prefix
    is_blank
applied = refl

projected : project_events history none none ≡ ok replayed
unfolding project_events project_sorted sorted initial apply_all apply_event transition one_of
    update_job stamp dict_set dict_get or_else remove_prefix is_blank
projected = refl

in_order : sorted history ≡ event 1 "task.started" ∷ event 2 "job.cancelled" ∷ []
unfolding sorted
in_order = refl

replay_is_contiguous_example :
    Continues "t" "s" 0 (sorted history) × (2 ≡ length history) × (2 ≡ length history)
replay_is_contiguous_example = replay_is_contiguous history none none replayed projected

history-Continues : Continues "t" "s" 0 (sorted history)
unfolding sorted
history-Continues = (refl, refl, refl, (refl, refl, refl, tt))

replay_accepts_example :
    (q : TaskProjection) × (project_events history (some "t") (some "s") ≡ ok q)
    × (q.task_id ≡ "t")
    × (q.session_id ≡ "s")
replay_accepts_example =
    replay_accepts (event 2 "job.cancelled") (event 1 "task.started" ∷ []) "t" "s"
      (unfold is_blank in refl) (unfold is_blank in refl) history-Continues

job_cancel_is_not_projected_example :
    (replayed.status ≡ "running")
    × (replayed.cancellation_requested ≡ false)
    × (replayed.phase ≡ "execution")
job_cancel_is_not_projected_example =
    job_cancel_is_not_projected running replayed (event 2 "job.cancelled") applied (inr refl)

abbrev stored : List Event
stored = event 1 "task.started" ∷ event 2 "job.cancelled" ∷ []

rebuild_reads_everything_example :
    rebuild 3 "t" none 1 stored ≡ some (project_events stored (some "t") none)
rebuild_reads_everything_example =
    rebuild_reads_everything 3 1 "t" none stored (omega arith) (omega arith, (omega arith, tt))
      (omega arith)
