-- ===== src/Sink.antt =====
-- `JobEventSink` of services/integration-api/app/sink.py: each event is stored, then sent. The job
-- store writes to a database: a call of it works or raises, which a flag says for each call.
pub mod Order
use stpp_connector.Base.{
  ℕ, suc, Bool, true, false, Option, none, some, List, [], ◌∷◌, ◌++◌, Text, codes, if◌then◌else◌,
}
use stpp_connector.Json.{Value, Fields, int, pos, bool, str, end, field}

-- One event of a job: its number, type and fields.
pub record JobEvent : Type 0 where
  pub seq : ℕ
  pub type : Text
  pub fields : Fields

-- `self._seq`, the rows of job_events, and the queue of the stream.
pub record SinkState : Type 0 where
  pub seq : ℕ
  pub stored : List JobEvent
  pub queued : List JobEvent

-- `_emit`: true where it returns, false where the store raises. The number is used up either way.
unfoldable pub emit_event : Text → Fields → Bool → SinkState → Bool × SinkState
emit_event type fields works s =
    let event : JobEvent = record { seq = suc s.seq; type = type; fields = fields } in
    if works
    then (
      true,
      record { seq = suc s.seq; stored = s.stored ++ event ∷ []; queued = s.queued ++ event ∷ [] },
    )
    else (false, record s { seq = suc s.seq })

-- The calls of a sink; `status` writes the job row only.
pub data SinkCall : Type 0 where
  job : SinkCall
  ping : SinkCall
  done : Text → SinkCall
  status : Text → SinkCall
  plan : Value → SinkCall
  -- step, status, summary, rows, truncated
  step : ℕ → Text → Option Text → Option Value → Option Bool → SinkCall
  answer : Text → SinkCall
  error : Text → Text → SinkCall

-- `if value is not None: fields[key] = value`
abbrev pub optional : Text → Option Value → Fields → Fields
optional key none fs = fs
optional key (some v) fs = field key v fs

abbrev pub as_str : Option Text → Option Value
as_str none = none
as_str (some s) = some (str s)

abbrev pub as_bool : Option Bool → Option Value
as_bool none = none
as_bool (some b) = some (bool b)

-- What the store does in a call: the write of the job, plan or step row, and the one of the event.
abbrev pub StoreWorks : Type 0
StoreWorks = Bool × Bool

-- A write to the store, and the event after it.
unfoldable pub after_write : StoreWorks → Text → Fields → SinkState → Bool × SinkState
after_write (true, event) type fields s = emit_event type fields event s
after_write (false, event) type fields s = (false, s)

unfoldable pub perform : SinkCall → StoreWorks → SinkState → Bool × SinkState
perform job w s =
    emit_event (codes "job") (field (codes "status") (str (codes "planning")) end) w.1 s
perform ping w s = emit_event (codes "ping") end w.1 s
perform (done final) w s = emit_event (codes "done") (field (codes "status") (str final) end) w.1 s
perform (status text) w s = (w.0, s)
perform (plan p) w s = after_write w (codes "plan") (field (codes "plan") p end) s
perform (step n text summary rows truncated) w s =
    after_write w (codes "step")
      (field (codes "step_id") (int (pos n)) (
        field (codes "status") (str text) (
          optional (codes "summary") (as_str summary)
            (optional (codes "rows") rows (optional (codes "truncated") (as_bool truncated) end)))))
      s
perform (answer text) w s = emit_event (codes "answer") (field (codes "text") (str text) end) w.1 s
perform (error code message) w s =
    emit_event (codes "error")
      (field (codes "code") (str code) (field (codes "message") (str message) end)) w.1 s

-- The calls of a job in the order in which the lock lets them in; a call that raises ends only
-- itself.
unfoldable pub perform_all : List (SinkCall × StoreWorks) → SinkState → SinkState
perform_all [] s = s
perform_all ((call, works) ∷ calls) s = perform_all calls (perform call works s).1
