-- ===== src/Jobs/Order.antt =====
-- What holds throughout a job: the end of its events and its row.
use stpp_connector.Base.{
  ◌≡◌, refl, sym, ap, ◌∙◌, subst, Bool, true, false, List, [], ◌∷◌, ◌++◌, append_assoc, Text, codes,
  text_eq, All, All-append, ◌⊎◌, inl, inr,
}
use stpp_connector.Json.{Fields, str, end, field}
use stpp_connector.Sink.{
  JobEvent, SinkState, emit_event, SinkCall, job, ping, done, status, plan, step, answer, error,
  StoreWorks, after_write, perform,
}
use stpp_connector.Jobs.Run.{
  JobState, perform_call, Ended, returned, timed_out, raised, closing_calls, is_agent_call, Phase,
  running, closing, broken, System, is_done, after_call, after_closing, after_ping, after_event,
  Moves, called, ended, closed, pinged, yielded, dropped, Runs, here, more, started,
}

-- No event is the last one yet.
abbrev pub IsOpen : List JobEvent → Type 0
IsOpen = All (λ e. is_done e ≡ false)

abbrev pub done_fields : Text → Fields
done_fields final = field (codes "status") (str final) end

-- One event `done`, with the status of the row, after which only pings follow.
pub record IsFinished (row : Text) (events : List JobEvent) : Type 0 where
  pub before : List JobEvent
  pub last : JobEvent
  pub pings : List JobEvent
  pub parts : events ≡ before ++ (last ∷ pings)
  pub is_open : IsOpen before
  pub type : last.type ≡ codes "done"
  pub told : last.fields ≡ done_fields row
  pub quiet : All (λ e. e.type ≡ codes "ping") pings

emit_event-IsOpen :
    (type : Text) (fields : Fields) (works : Bool) (s : SinkState)
    → text_eq type (codes "done") ≡ false
    → IsOpen s.queued
    → IsOpen (emit_event type fields works s).1.queued
unfolding emit_event
emit_event-IsOpen type fields true s h k = All-append (λ e. is_done e ≡ false) s.queued _ k (h, tt)
emit_event-IsOpen type fields false s h k = k

after_write-IsOpen :
    (w : StoreWorks) (type : Text) (fields : Fields) (s : SinkState)
    → text_eq type (codes "done") ≡ false
    → IsOpen s.queued
    → IsOpen (after_write w type fields s).1.queued
unfolding after_write
after_write-IsOpen (true, w) type fields s h k = emit_event-IsOpen type fields w s h k
after_write-IsOpen (false, w) type fields s h k = k

abbrev is_last_call : SinkCall → Bool
is_last_call (done final) = true
is_last_call call = false

agent-not_last : (c : SinkCall) → is_agent_call c ≡ true → is_last_call c ≡ false
unfolding is_agent_call
agent-not_last job h = refl
agent-not_last ping h = refl
agent-not_last (done final) h = sym h
agent-not_last (status t) h = refl
agent-not_last (plan p) h = refl
agent-not_last (step n t a b c) h = refl
agent-not_last (answer t) h = refl
agent-not_last (error c m) h = refl

pub perform_call-IsOpen :
    (c : SinkCall) (w : StoreWorks) (j : JobState)
    → is_last_call c ≡ false
    → IsOpen j.sink.queued
    → IsOpen (perform_call c w j).1.sink.queued
unfolding perform_call perform text_eq
perform_call-IsOpen job w j h k = emit_event-IsOpen _ _ w.1 j.sink refl k
perform_call-IsOpen ping w j h k = emit_event-IsOpen _ _ w.1 j.sink refl k
perform_call-IsOpen (done final) w j h k = absurd (cc h)
perform_call-IsOpen (status t) (true, w) j h k = k
perform_call-IsOpen (status t) (false, w) j h k = k
perform_call-IsOpen (plan p) w j h k = after_write-IsOpen w _ _ j.sink refl k
perform_call-IsOpen (step n t a b c) w j h k = after_write-IsOpen w _ _ j.sink refl k
perform_call-IsOpen (answer t) w j h k = emit_event-IsOpen _ _ w.1 j.sink refl k
perform_call-IsOpen (error c m) w j h k = emit_event-IsOpen _ _ w.1 j.sink refl k

-- The calls that are left, with the row that is to be told last.
pub data IsClosing (j : JobState) : List SinkCall → Type 0 where
  telling :
      {code message final : Text}
      → IsClosing j (error code message ∷ status final ∷ done final ∷ [])
  marking : {final : Text} → IsClosing j (status final ∷ done final ∷ [])
  finishing : {final : Text} → j.status ≡ final → IsClosing j (done final ∷ [])

-- What the phase says of the events that are queued.
abbrev pub IsPhase : Phase → JobState → Type 0
IsPhase running j = IsOpen j.sink.queued
IsPhase (closing []) j = IsFinished j.status j.sink.queued
IsPhase (closing (c ∷ cs)) j = IsOpen j.sink.queued × IsClosing j (c ∷ cs)
IsPhase broken j = IsOpen j.sink.queued ⊎ IsFinished j.status j.sink.queued

IsPhase-either :
    (p : Phase) (j : JobState)
    → IsPhase p j
    → IsOpen j.sink.queued ⊎ IsFinished j.status j.sink.queued
IsPhase-either running j h = inl h
IsPhase-either (closing []) j h = inr h
IsPhase-either (closing (c ∷ cs)) j h = inl h.0
IsPhase-either broken j h = h

IsFinished-ping :
    (row : Text) (es : List JobEvent) (e : JobEvent)
    → e.type ≡ codes "ping"
    → IsFinished row es
    → IsFinished row (es ++ e ∷ [])
IsFinished-ping row es e h f = record {
  before = f.before;
  last = f.last;
  pings = f.pings ++ e ∷ [];
  parts = ap (λ t. t ++ e ∷ []) f.parts ∙ append_assoc f.before (f.last ∷ f.pings) _;
  is_open = f.is_open;
  type = f.type;
  told = f.told;
  quiet = All-append (λ d. d.type ≡ codes "ping") f.pings _ f.quiet (h, tt);
}

ping-IsFinished :
    (w : StoreWorks) (j : JobState)
    → IsFinished j.status j.sink.queued
    → IsFinished (perform_call ping w j).1.status (perform_call ping w j).1.sink.queued
unfolding perform_call perform emit_event
ping-IsFinished (a, true) j f = IsFinished-ping j.status j.sink.queued _ refl f
ping-IsFinished (a, false) j f = f

ping-IsClosing :
    (w : StoreWorks) (j : JobState) (cs : List SinkCall)
    → IsClosing j cs
    → IsClosing (perform_call ping w j).1 cs
unfolding perform_call
ping-IsClosing w j cs telling = telling
ping-IsClosing w j cs marking = marking
ping-IsClosing w j cs (finishing e) = finishing e

pub ping-IsPhase :
    (w : StoreWorks) (p : Phase) (j : JobState) → IsPhase p j → IsPhase p (perform_call ping w j).1
ping-IsPhase w running j h = perform_call-IsOpen ping w j refl h
ping-IsPhase w (closing []) j h = ping-IsFinished w j h
ping-IsPhase w (closing (c ∷ cs)) j h =
    (perform_call-IsOpen ping w j refl h.0, ping-IsClosing w j (c ∷ cs) h.1)
ping-IsPhase w broken j (inl h) = inl (perform_call-IsOpen ping w j refl h)
ping-IsPhase w broken j (inr h) = inr (ping-IsFinished w j h)

pub close-IsPhase :
    (c : SinkCall) (left : List SinkCall) (w : StoreWorks) (s : System)
    → IsPhase (closing (c ∷ left)) s.job
    → IsPhase (after_closing c left w s).phase (after_closing c left w s).job
unfolding after_closing perform_call perform emit_event text_eq
close-IsPhase c left (a, true) s (k, telling) =
    (All-append (λ e. is_done e ≡ false) s.job.sink.queued _ k (refl, tt), marking)
close-IsPhase c left (a, false) s (k, telling) = inl k
close-IsPhase c left (true, b) s (k, marking) = (k, finishing refl)
close-IsPhase c left (false, b) s (k, marking) = inl k
close-IsPhase c left (a, true) s (k, finishing e) = record {
  before = s.job.sink.queued;
  last = _;
  pings = [];
  parts = refl;
  is_open = k;
  type = refl;
  told = ap done_fields (sym e);
  quiet = tt;
}
close-IsPhase c left (a, false) s (k, finishing e) = inl k

pub ended-IsPhase :
    (e : Ended) (j : JobState) → IsOpen j.sink.queued → IsPhase (closing (closing_calls e)) j
unfolding closing_calls
ended-IsPhase (returned outcome) j h = (h, marking)
ended-IsPhase timed_out j h = (h, telling)
ended-IsPhase raised j h = (h, telling)

Moves-IsPhase : {s t : System} → Moves s t → IsPhase s.phase s.job → IsPhase t.phase t.job
unfolding after_call after_ping after_event
Moves-IsPhase {s} (called c w a e) h =
    subst (λ p. IsPhase p (perform_call c w s.job).1) (sym e)
      (perform_call-IsOpen c w s.job (agent-not_last c a) (subst (λ p. IsPhase p s.job) e h))
Moves-IsPhase {s} (ended e r) h = ended-IsPhase e s.job (subst (λ p. IsPhase p s.job) r h)
Moves-IsPhase {s} (closed c left w e) h =
    close-IsPhase c left w s (subst (λ p. IsPhase p s.job) e h)
Moves-IsPhase {s} (pinged w e) h = ping-IsPhase w s.phase s.job h
Moves-IsPhase (yielded e a b) h = h
Moves-IsPhase dropped h = h

pub started-IsPhase : IsPhase started.phase started.job
unfolding started perform emit_event text_eq
started-IsPhase = (refl, tt)

pub Runs-IsPhase : {s t : System} → Runs s t → IsPhase s.phase s.job → IsPhase t.phase t.job
Runs-IsPhase here h = h
Runs-IsPhase (more r m) h = Moves-IsPhase m (Runs-IsPhase r h)

-- At every moment of a job, whatever the agent reports, however it ends and whatever the store
-- refuses: either no `done` was sent yet, or exactly one was, it tells the status that the job's row
-- has, and nothing but pings came after it.
pub Runs-IsFinished :
    {s : System}
    → Runs started s
    → IsOpen s.job.sink.queued ⊎ IsFinished s.job.status s.job.sink.queued
Runs-IsFinished {s} r = IsPhase-either s.phase s.job (Runs-IsPhase r started-IsPhase)
