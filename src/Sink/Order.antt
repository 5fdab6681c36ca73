-- ===== src/Sink/Order.antt =====
-- The order of a job's events.
use stpp_connector.Base.{ℕ, suc, ◌≤◌, ◌<◌, ◌≡◌, refl, true, false, List, [], ◌∷◌, ◌++◌, Text, arith}
use stpp_connector.Json.{Fields}
use stpp_connector.Sink.{
  JobEvent, SinkState, emit_event, SinkCall, job, ping, done, status, plan, step, answer, error,
  StoreWorks, after_write, perform, perform_all,
}

-- The numbers grow, from above `low` up to `high` at most.
abbrev pub Growing : ℕ → List JobEvent → ℕ → Type 0
Growing low [] high = low ≤ high
Growing low (e ∷ es) high = (low < e.seq) × Growing e.seq es high

Growing-append :
    (low : ℕ) (es : List JobEvent) (high : ℕ) (e : JobEvent)
    → Growing low es high
    → high < e.seq
    → Growing low (es ++ e ∷ []) e.seq
Growing-append low [] high e h k = (omega arith, omega arith)
Growing-append low (x ∷ es) high e h k = (h.0, Growing-append x.seq es high e h.1 k)

Growing-higher :
    (low : ℕ) (es : List JobEvent) (high more : ℕ)
    → Growing low es high
    → high ≤ more
    → Growing low es more
Growing-higher low [] high more h k = omega arith
Growing-higher low (x ∷ es) high more h k = (h.0, Growing-higher x.seq es high more h.1 k)

-- The stream has what the store has, in the order of the numbers.
pub record IsInStep (s : SinkState) : Type 0 where
  pub same : s.queued ≡ s.stored
  pub growing : Growing 0 s.stored s.seq

emit_event-IsInStep :
    (type : Text) (fields : Fields) (works : StoreWorks) (s : SinkState)
    → IsInStep s
    → IsInStep (emit_event type fields works.1 s).1
unfolding emit_event
emit_event-IsInStep type fields (w, true) s h = record {
  same = rw (h.same) refl;
  growing = Growing-append 0 s.stored s.seq _ h.growing (omega arith);
}
emit_event-IsInStep type fields (w, false) s h = record {
  same = h.same;
  growing = Growing-higher 0 s.stored s.seq (suc s.seq) h.growing (omega arith);
}

after_write-IsInStep :
    (works : StoreWorks) (type : Text) (fields : Fields) (s : SinkState)
    → IsInStep s
    → IsInStep (after_write works type fields s).1
unfolding after_write
after_write-IsInStep (true, event) type fields s h =
    emit_event-IsInStep type fields (true, event) s h
after_write-IsInStep (false, event) type fields s h = h

perform-IsInStep :
    (call : SinkCall) (works : StoreWorks) (s : SinkState)
    → IsInStep s
    → IsInStep (perform call works s).1
unfolding perform
perform-IsInStep job works s h = emit_event-IsInStep _ _ works s h
perform-IsInStep ping works s h = emit_event-IsInStep _ _ works s h
perform-IsInStep (done final) works s h = emit_event-IsInStep _ _ works s h
perform-IsInStep (status text) works s h = h
perform-IsInStep (plan p) works s h = after_write-IsInStep works _ _ s h
perform-IsInStep (step n text summary rows truncated) works s h = after_write-IsInStep works _ _ s h
perform-IsInStep (answer text) works s h = emit_event-IsInStep _ _ works s h
perform-IsInStep (error code message) works s h = emit_event-IsInStep _ _ works s h

-- After any calls of the sink, of which the store may refuse any: the stream was sent exactly the
-- events that are stored, in the order in which they were stored, and their numbers grow.
pub perform_all-IsInStep :
    (calls : List (SinkCall × StoreWorks)) (s : SinkState)
    → IsInStep s
    → IsInStep (perform_all calls s)
unfolding perform_all
perform_all-IsInStep [] s h = h
perform_all-IsInStep ((call, works) ∷ calls) s h =
    perform_all-IsInStep calls (perform call works s).1 (perform-IsInStep call works s h)
