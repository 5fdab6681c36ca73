-- ===== src/Jobs/Prefix.antt =====
-- What the stream has yielded stands at the front of its queue.
use stpp_connector.Base.{
  ◌≡◌, refl, sym, ap, ◌∙◌, subst, true, false, some, List, [], ◌∷◌, ◌++◌, append_assoc, append-nil,
  get_elem?, length, Bool, Text,
}
use stpp_connector.Json.{Fields}
use stpp_connector.Sink.{
  JobEvent, SinkState, emit_event, SinkCall, job, ping, done, status, plan, step, answer, error,
  StoreWorks, after_write, perform,
}
use stpp_connector.Jobs.Run.{
  JobState, perform_call, System, after_call, after_closing, after_ping, after_event, Moves, called,
  ended, closed, pinged, yielded, dropped, Runs, here, more, started,
}

-- `events` begin with `sent`.
abbrev pub Begins : List JobEvent → List JobEvent → Type 0
Begins sent events = (rest : List JobEvent) × (events ≡ sent ++ rest)

Begins-append :
    (sent events added : List JobEvent) → Begins sent events → Begins sent (events ++ added)
Begins-append sent events added (rest, e) =
    (rest ++ added, ap (λ t. t ++ added) e ∙ append_assoc sent rest added)

Begins-next :
    (sent events : List JobEvent) (e : JobEvent)
    → Begins sent events
    → get_elem? events (length sent) ≡ some e
    → Begins (sent ++ e ∷ []) events
Begins-next [] [] e b h = absurd (cc h)
Begins-next [] (x ∷ xs) e b h = (xs, ap (λ d. d ∷ xs) (cc h))
Begins-next (s ∷ sent) [] e (rest, k) h = absurd (cc k)
Begins-next (s ∷ sent) (x ∷ xs) e (rest, k) h =
    let (left, l) = Begins-next sent xs e (rest, cc k) h in (left, cc (l, k))

-- What a call adds to the queue.
abbrev Grows : SinkState → SinkState → Type 0
Grows s t = Begins s.queued t.queued

emit_event-Grows :
    (type : Text) (fields : Fields) (works : Bool) (s : SinkState)
    → Grows s (emit_event type fields works s).1
unfolding emit_event
emit_event-Grows type fields true s = (_, refl)
emit_event-Grows type fields false s = ([], sym (append-nil s.queued))

after_write-Grows :
    (w : StoreWorks) (type : Text) (fields : Fields) (s : SinkState)
    → Grows s (after_write w type fields s).1
unfolding after_write
after_write-Grows (true, w) type fields s = emit_event-Grows type fields w s
after_write-Grows (false, w) type fields s = ([], sym (append-nil s.queued))

perform-Grows : (c : SinkCall) (w : StoreWorks) (s : SinkState) → Grows s (perform c w s).1
unfolding perform
perform-Grows job w s = emit_event-Grows _ _ w.1 s
perform-Grows ping w s = emit_event-Grows _ _ w.1 s
perform-Grows (done final) w s = emit_event-Grows _ _ w.1 s
perform-Grows (status text) w s = ([], sym (append-nil s.queued))
perform-Grows (plan p) w s = after_write-Grows w _ _ s
perform-Grows (step n t a b c) w s = after_write-Grows w _ _ s
perform-Grows (answer text) w s = emit_event-Grows _ _ w.1 s
perform-Grows (error c m) w s = emit_event-Grows _ _ w.1 s

perform_call-Grows :
    (c : SinkCall) (w : StoreWorks) (j : JobState) → Grows j.sink (perform_call c w j).1.sink
unfolding perform_call
perform_call-Grows job w j = perform-Grows job w j.sink
perform_call-Grows ping w j = perform-Grows ping w j.sink
perform_call-Grows (done final) w j = perform-Grows (done final) w j.sink
perform_call-Grows (status text) (true, w) j = ([], sym (append-nil j.sink.queued))
perform_call-Grows (status text) (false, w) j = ([], sym (append-nil j.sink.queued))
perform_call-Grows (plan p) w j = perform-Grows (plan p) w j.sink
perform_call-Grows (step n t a b c) w j = perform-Grows (step n t a b c) w j.sink
perform_call-Grows (answer text) w j = perform-Grows (answer text) w j.sink
perform_call-Grows (error c m) w j = perform-Grows (error c m) w j.sink

-- The stream has yielded the first events of its queue.
abbrev pub IsPrefix : System → Type 0
IsPrefix s = Begins s.sent s.job.sink.queued

call-IsPrefix :
    (c : SinkCall) (w : StoreWorks) (s : System)
    → IsPrefix s
    → Begins s.sent (perform_call c w s.job).1.sink.queued
call-IsPrefix c w s b =
    let (added, e) = perform_call-Grows c w s.job in
    subst (Begins s.sent) (sym e) (Begins-append s.sent s.job.sink.queued added b)

Moves-IsPrefix : {s t : System} → Moves s t → IsPrefix s → IsPrefix t
unfolding after_call after_closing after_ping after_event
Moves-IsPrefix {s} (called c w a e) b = call-IsPrefix c w s b
Moves-IsPrefix (ended e r) b = b
Moves-IsPrefix {s} (closed c left w e) b = call-IsPrefix c w s b
Moves-IsPrefix {s} (pinged w e) b = call-IsPrefix ping w s b
Moves-IsPrefix {s} (yielded e a h) b = Begins-next s.sent s.job.sink.queued e b h
Moves-IsPrefix dropped b = b

pub Runs-IsPrefix : {s : System} → Runs started s → IsPrefix s
unfolding started
Runs-IsPrefix here = (_, refl)
Runs-IsPrefix (more r m) = Moves-IsPrefix m (Runs-IsPrefix r)
