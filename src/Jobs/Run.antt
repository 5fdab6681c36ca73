-- ===== src/Jobs/Run.antt =====
-- `_run_job` and `stream` of services/integration-api/app/main.py: the task of a job and the stream
-- of its events take turns, so that a job is a sequence of moves.
use stpp_connector.Base.{
  ◌≡◌, Bool, true, false, not, Option, some, List, [], ◌∷◌, ◌++◌, Text, codes, text_eq, get_elem?,
  length, if◌then◌else◌,
}
use stpp_connector.Sink.{
  JobEvent, SinkState, SinkCall, job, ping, done, status, error, StoreWorks, perform,
}

-- The job's row and its sink.
pub record JobState : Type 0 where
  pub status : Text
  pub sink : SinkState

-- A call of the sink or, for a status, of the store.
unfoldable pub perform_call : SinkCall → StoreWorks → JobState → Bool × JobState
perform_call (status text) w j = (w.0, if w.0 then record j { status = text } else j)
perform_call call w j =
    let (works, sink) = perform call w j.sink in (works, record j { sink = sink })

-- How the agent's run ends: with an outcome, at the limit of time, or with an exception.
pub data Ended : Type 0 where
  returned : Text → Ended
  timed_out : Ended
  raised : Ended

unfoldable pub final_of : Ended → Text
final_of (returned outcome) =
    if text_eq outcome (codes "complete") then codes "complete" else codes "failed"
final_of timed_out = codes "failed"
final_of raised = codes "failed"

-- What `_run_job` still does then, in its order.
unfoldable pub closing_calls : Ended → List SinkCall
closing_calls (returned outcome) =
    status (final_of (returned outcome)) ∷ done (final_of (returned outcome)) ∷ []
closing_calls timed_out =
    error (codes "budget_exceeded") (codes "job exceeded JOB_MAX_SECONDS wall clock")
    ∷ status (codes "failed")
    ∷ done (codes "failed")
    ∷ []
closing_calls raised =
    error (codes "internal_error") (codes "unexpected error; details logged server-side")
    ∷ status (codes "failed")
    ∷ done (codes "failed")
    ∷ []

-- The methods of agent.EventSink.
unfoldable pub is_agent_call : SinkCall → Bool
is_agent_call job = false
is_agent_call ping = false
is_agent_call (done final) = false
is_agent_call call = true

-- The task: the agent runs, `_run_job` has calls left, or an exception has ended it.
pub data Phase : Type 0 where
  running : Phase
  closing : List SinkCall → Phase
  broken : Phase

-- A job with the stream of its client. `sent` is what the stream has yielded.
pub record System : Type 0 where
  pub job : JobState
  pub phase : Phase
  pub sent : List JobEvent
  pub streaming : Bool

abbrev pub is_done : JobEvent → Bool
is_done e = text_eq e.type (codes "done")

unfoldable pub after_call : SinkCall → StoreWorks → System → System
after_call call w s = record s { job = (perform_call call w s.job).1 }

-- A call of `_run_job`, after which `left` is to do; if it raises, the task ends.
unfoldable pub after_closing : SinkCall → List SinkCall → StoreWorks → System → System
after_closing call left w s =
    let (works, after) = perform_call call w s.job in
    record s { job = after; phase = if works then closing left else broken }

-- No event for a while: the stream calls `ping`; if that raises, the stream ends.
unfoldable pub after_ping : StoreWorks → System → System
after_ping w s =
    let (works, after) = perform_call ping w s.job in record s { job = after; streaming = works }

-- The stream yields an event, and returns after `done`.
unfoldable pub after_event : JobEvent → System → System
after_event e s = record s { sent = s.sent ++ e ∷ []; streaming = not (is_done e) }

abbrev pub next_event : System → Option JobEvent
next_event s = get_elem? s.job.sink.queued (length s.sent)

pub data Moves (s : System) : System → Type 0 where
  called :
      (call : SinkCall) (w : StoreWorks)
      → is_agent_call call ≡ true
      → s.phase ≡ running
      → Moves s (after_call call w s)
  ended : (e : Ended) → s.phase ≡ running → Moves s (record s { phase = closing (closing_calls e) })
  closed :
      (call : SinkCall) (left : List SinkCall) (w : StoreWorks)
      → s.phase ≡ closing (call ∷ left)
      → Moves s (after_closing call left w s)
  pinged : (w : StoreWorks) → s.streaming ≡ true → Moves s (after_ping w s)
  yielded : (e : JobEvent) → s.streaming ≡ true → next_event s ≡ some e → Moves s (after_event e s)
  -- The client disconnects; the task goes on.
  dropped : Moves s (record s { streaming = false })

-- Moves one after the other.
pub data Runs (s : System) : System → Type 0 where
  here : Runs s s
  more : {t u : System} → Runs s t → Moves t u → Runs s u

-- The job as `submit_query` starts it: the event `job` is stored before the stream opens.
abbrev pub new_sink : SinkState
new_sink = record { seq = 0; stored = []; queued = [] }

unfoldable pub started : System
started = record {
  job = record { status = codes "planning"; sink = (perform job (true, true) new_sink).1 };
  phase = running;
  sent = [];
  streaming = true;
}
