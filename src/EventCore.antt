-- ===== src/EventCore.antt =====
-- `apply_event` and `project_events` of orchestrator/event_core.py, and `rebuild` of TaskEventCore.
-- The values of a payload are texts; a missing key and `None` are the same. `payload` is
-- `payload.get`.
pub mod Steps
pub mod Replay
pub mod Paging
pub mod Samples
use Prim.Native.String.{slice, len}
use text.Mathlib.Text.{starts_with}
use claude_router.Prelude.{
  Bool, List, Option, Result, String, [], any, dict_get, dict_set, err, false, if◌then◌else◌,
  is_blank, ltb, none, not, ok, some, str_ltb, suc, true, ℕ, ◌&&◌, ◌==◌, ◌>>=◌, ◌>>◌, ◌||◌, ◌∷◌,
  nat_eq, string_eq, option_eq,
}

-- The fields of EventEnvelope that the projection reads.
pub record Event : Type 0 where
  pub task_id : String
  pub session_id : String
  pub event_id : String
  pub event_type : String
  pub timestamp : String
  pub sequence : ℕ
  pub workstream_id : Option String
  pub call_id : Option String
  pub agent_instance_id : Option String
  pub payload : String → Option String

pub record StreamEntry : Type 0 where
  pub status : String
  pub summary : Option String
  pub sequence : ℕ

pub record CallEntry : Type 0 where
  pub call_id : String
  pub state : String
  pub attempt_id : Option String
  pub agent_instance_id : Option String
  pub sequence : ℕ

pub record JobEntry : Type 0 where
  pub job_id : String
  pub state : String
  pub attempt : Option String
  pub fencing_token : Option String
  pub sequence : ℕ

pub record TaskProjection : Type 0 where
  pub task_id : String
  pub session_id : String
  pub sequence : ℕ
  pub status : String
  pub phase : String
  pub cancellation_requested : Bool
  pub event_count : ℕ
  pub workstreams : List (String × StreamEntry)
  pub calls : List (String × CallEntry)
  pub jobs : List (String × JobEntry)
  pub last_error : Option String
  pub last_event_type : Option String
  pub last_event_at : Option String

pub data Error : Type 0 where
  other_task : Error
  other_session : Error
  wrong_sequence : Error
  not_from_start : Error
  value_error : Error

-- `TaskProjection(task_id=…, session_id=…)`
unfoldable pub initial : String → String → Result Error TaskProjection
initial t s =
    if is_blank t || is_blank s
    then err value_error
    else ok (record {
      task_id = t;
      session_id = s;
      sequence = 0;
      status = "pending";
      phase = "pending";
      cancellation_requested = false;
      event_count = 0;
      workstreams = [];
      calls = [];
      jobs = [];
      last_error = none;
      last_event_type = none;
      last_event_at = none;
    })

abbrev is_empty : String → Bool
is_empty s = s == ""

-- `x or y`, for a text or `None`
unfoldable pub or_else : Option String → String → String
or_else none y = y
or_else (some x) y = if is_empty x then y else x

-- `s.removeprefix(prefix)`
unfoldable pub remove_prefix : String → String → String
remove_prefix s prefix = if starts_with s prefix then slice s (len prefix) (len s) else s

unfoldable pub one_of : String → List String → Bool
unfolding any
one_of s names = any (λ n. s == n) names

-- `str(event.workstream_id or payload.get("workstream_id") or "")`
unfoldable pub stream_id : Event → String
unfolding or_else
stream_id e = or_else e.workstream_id (or_else (e.payload "workstream_id") "")

-- `{**workstreams.get(stream_id, {}), …}`: the summary of the entry before stays.
unfoldable pub start_stream : Event → TaskProjection → TaskProjection
start_stream e p =
    let id = stream_id e in
    let old_summary : Option String = elim (dict_get id p.workstreams) [
      | none ↦ none
      | some old ↦ old.summary
    ] in
    record p {
      workstreams =
          if is_empty id
          then p.workstreams
          else dict_set id
              (record { status = "running"; summary = old_summary; sequence = e.sequence })
              p.workstreams;
      status = "running";
      phase = "managing";
    }

unfoldable pub end_stream : Event → TaskProjection → TaskProjection
end_stream e p =
    let id = stream_id e in
    let completed = e.event_type == "workstream_completed" in
    let stream_status = if completed then "completed" else "failed" in
    record p {
      workstreams =
          if is_empty id
          then p.workstreams
          else dict_set id
              (record {
                status = stream_status;
                summary = e.payload "summary";
                sequence = e.sequence;
              })
              p.workstreams;
      last_error =
          if completed
          then p.last_error
          else some (or_else (e.payload "summary") "workstream failed");
    }

unfoldable pub call_key : Event → String
unfolding or_else
call_key e =
    or_else e.call_id (or_else (e.payload "logical_request_id") (or_else (e.payload "call_id") ""))

unfoldable pub update_call : Event → TaskProjection → TaskProjection
update_call e p =
    let key = call_key e in
    let call : CallEntry = record {
      call_id = elim (dict_get key p.calls) [ none ↦ key | some old ↦ old.call_id ];
      state = remove_prefix e.event_type "model_request_";
      attempt_id = e.payload "attempt_id";
      agent_instance_id = e.agent_instance_id;
      sequence = e.sequence;
    } in
    record p {
      calls = if is_empty key then p.calls else dict_set key call p.calls;
      phase = "model";
      last_error =
          if e.event_type == "model_request_failed"
          then some (or_else (e.payload "error") "model request failed")
          else p.last_error;
    }

unfoldable pub update_job : Event → TaskProjection → TaskProjection
update_job e p =
    let key = or_else (e.payload "job_id") "" in
    let job : JobEntry = record {
      job_id = elim (dict_get key p.jobs) [ none ↦ key | some old ↦ old.job_id ];
      state = remove_prefix e.event_type "job.";
      attempt = e.payload "attempt";
      fencing_token = e.payload "fencing_token";
      sequence = e.sequence;
    } in
    record p {
      jobs = if is_empty key then p.jobs else dict_set key job p.jobs;
      phase = "execution";
    }

-- The `if` chain of `apply_event`, in its order.
unfoldable pub transition : Event → TaskProjection → TaskProjection
transition e p =
    let type = e.event_type in
    if one_of type ("task.started" ∷ "resume" ∷ [])
    then record p { status = "running"; phase = "running"; cancellation_requested = false }
    else if one_of type ("plan.created" ∷ "plan_created" ∷ [])
    then record p { status = "running"; phase = "planning" }
    else if type == "workstream_started"
    then start_stream e p
    else if one_of type ("workstream_completed" ∷ "workstream_failed" ∷ [])
    then end_stream e p
    else if starts_with type "model_request_"
    then update_call e p
    else if starts_with type "job."
    then update_job e p
    else if one_of type ("task.cancel_requested" ∷ "job.cancel_requested" ∷ [])
    then record p { cancellation_requested = true; status = "cancelling"; phase = "cancelling" }
    else if one_of type ("hierarchy_completed" ∷ "task.completed" ∷ [])
    then record p { status = "completed"; phase = "finished" }
    else if one_of type ("hierarchy_failed" ∷ "task.failed" ∷ "project_lease_lost" ∷ [])
    then record p {
      status = "failed";
      phase = "finished";
      last_error = some (or_else (e.payload "error") (or_else (e.payload "summary") type));
    }
    else if one_of type ("task.cancelled" ∷ "job.cancelled" ∷ [])
    then record p { status = "cancelled"; phase = "finished"; cancellation_requested = true }
    else p

-- the closing `replace(projection, …)`
unfoldable pub stamp : Event → ℕ → TaskProjection → TaskProjection
stamp e n p = record p {
  sequence = e.sequence;
  event_count = suc n;
  last_event_type = some e.event_type;
  last_event_at = some e.timestamp;
}

unfoldable pub apply_event : TaskProjection → Event → Result Error TaskProjection
apply_event p e =
    if not (e.task_id == p.task_id)
    then err other_task
    else if not (e.session_id == p.session_id)
    then err other_session
    else if not (e.sequence == suc p.sequence)
    then err wrong_sequence
    else ok (stamp e p.event_count (transition e p))

-- `for event in ordered: projection = apply_event(projection, event)`
unfoldable pub apply_all : TaskProjection → List Event → Result Error TaskProjection
apply_all p [] = ok p
apply_all p (e ∷ es) = do q ← apply_event p e; apply_all q es

-- `sorted(events, key=lambda item: (item.sequence, item.event_id))`
unfoldable pub before : Event → Event → Bool
before d e =
    ltb d.sequence e.sequence || (d.sequence == e.sequence && str_ltb d.event_id e.event_id)

unfoldable pub insert : Event → List Event → List Event
unfolding before
insert e [] = e ∷ []
insert e (d ∷ ds) = let rest = insert e ds in if before d e then d ∷ rest else e ∷ d ∷ ds

unfoldable pub sorted : List Event → List Event
unfolding insert
sorted [] = []
sorted (e ∷ es) = insert e (sorted es)

-- `project_events` of the sorted events; the names are the optional arguments.
unfoldable pub project_sorted :
    List Event → Option String → Option String → Result Error TaskProjection
project_sorted [] t s =
    if is_empty (or_else t "") || is_empty (or_else s "")
    then err value_error
    else initial (or_else t "") (or_else s "")
project_sorted (e ∷ es) t s =
    if not (e.sequence == 1)
    then err not_from_start
    else do p ← initial (or_else t e.task_id) (or_else s e.session_id); apply_all p (e ∷ es)

unfoldable pub project_events :
    List Event → Option String → Option String → Result Error TaskProjection
project_events events t s = project_sorted (sorted events) t s
