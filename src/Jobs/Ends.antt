-- ===== src/Jobs/Ends.antt =====
-- The end of a job: what `_run_job` and the stream of services/integration-api/app/main.py come to
-- once the agent has ended.
use stpp_connector.Base.{
  ℕ, ◌+◌, ◌≤◌, arith, ◌≡◌, refl, sym, ap, ◌∙◌, subst, true, false, some, List, [], ◌∷◌, ◌++◌,
  append_assoc, append-nil, get_elem?, length, length-append, Text, text_eq, ◌⊎◌, inl, inr,
}
use stpp_connector.Sink.{JobEvent, SinkCall}
use stpp_connector.Jobs.Run.{
  Ended, returned, timed_out, raised, final_of, closing_calls, running, closing, System, is_done,
  next_event, Runs, started,
}
use stpp_connector.Jobs.Order.{
  IsOpen, done_fields, IsFinished, IsPhase, ended-IsPhase, Runs-IsPhase, started-IsPhase,
}
use stpp_connector.Jobs.Prefix.{Runs-IsPrefix}
use stpp_connector.Jobs.Goes.{
  Goes, Left, finished, SentDone, Streams, Ending, get_elem?-append, start-Left, Goes-Ending,
}

-- A move of the task or of the stream is possible.
pub data CanMove (t : System) : Type 0 where
  task : (call : SinkCall) (left : List SinkCall) → t.phase ≡ closing (call ∷ left) → CanMove t
  stream : (e : JobEvent) → t.streaming ≡ true → next_event t ≡ some e → CanMove t

-- The task has nothing left, the row has the final status, and the stream has returned, with an
-- event `done` that tells the status, the only one and the last that it yielded.
pub record IsOver (final : Text) (t : System) : Type 0 where
  pub phase : t.phase ≡ closing []
  pub row : t.job.status ≡ final
  pub over : t.streaming ≡ false
  pub sent : SentDone t.sent
  pub told : sent.last.fields ≡ done_fields final

-- Two events `done` after events that are none are one, in the same list.
first_done :
    (xs ys rs ps : List JobEvent) (d l : JobEvent)
    → IsOpen xs
    → IsOpen ys
    → is_done d ≡ true
    → is_done l ≡ true
    → xs ++ d ∷ rs ≡ ys ++ l ∷ ps
    → d ≡ l
first_done [] [] rs ps d l h k a b e = cc e
first_done [] (y ∷ ys) rs ps d l h k a b e = let same : d ≡ y = cc e in cc (same, k.0, a)
first_done (x ∷ xs) [] rs ps d l h k a b e = let same : x ≡ l = cc e in cc (same, h.0, b)
first_done (x ∷ xs) (y ∷ ys) rs ps d l h k a b e = first_done xs ys rs ps d l h.1 k.1 a b (cc e)

IsFinished-is_done :
    {row : Text} {es : List JobEvent} → (f : IsFinished row es) → is_done f.last ≡ true
unfolding text_eq
IsFinished-is_done f = rw (f.type) refl

IsOpen-append : (xs ys : List JobEvent) → IsOpen (xs ++ ys) → IsOpen ys
IsOpen-append [] ys h = h
IsOpen-append (x ∷ xs) ys h = IsOpen-append xs ys h.1

IsOpen-front : (xs ys : List JobEvent) → IsOpen (xs ++ ys) → IsOpen xs
IsOpen-front [] ys h = tt
IsOpen-front (x ∷ xs) ys h = (h.0, IsOpen-front xs ys h.1)

open-not_finished : {row : Text} {es : List JobEvent} → IsOpen es → IsFinished row es → ⊥
open-not_finished h f =
    let open_end = IsOpen-append f.before (f.last ∷ f.pings) (subst IsOpen f.parts h) in
    cc (open_end.0, IsFinished-is_done f)

finished-or_moves :
    (final : Text) (t : System) (rest : List JobEvent)
    → t.phase ≡ closing []
    → t.job.status ≡ final
    → IsFinished t.job.status t.job.sink.queued
    → Streams t
    → t.job.sink.queued ≡ t.sent ++ rest
    → IsOver final t ⊎ CanMove t
finished-or_moves final t [] h row f (inl (on, is_open)) e =
    absurd (open-not_finished (subst IsOpen (sym (e ∙ append-nil t.sent)) is_open) f)
finished-or_moves final t (x ∷ rest) h row f (inl (on, is_open)) e = inr (
    stream x on
      (subst (λ q. get_elem? q (length t.sent) ≡ some x) (sym e) (get_elem?-append t.sent x rest)))
finished-or_moves final t rest h row f (inr (off, d)) e =
    let one =
      first_done d.before f.before rest f.pings d.last f.last d.is_open f.is_open d.is_last
        (IsFinished-is_done f)
        (sym (append_assoc d.before (d.last ∷ []) rest)
          ∙ sym (ap (λ q. q ++ rest) d.parts)
          ∙ sym e
          ∙ f.parts) in
    inl (record {
      phase = h;
      row = row;
      over = off;
      sent = d;
      told = ap (λ (v : JobEvent). v.fields) one ∙ f.told ∙ ap done_fields row;
    })

Ending-progress :
    {final : Text} {total n p : ℕ} (t : System)
    → Ending final total n p t
    → IsOver final t ⊎ CanMove t
Ending-progress {final} t k = by_left k.left k.phase k.calls k.told
  where
    by_left :
        (left : List SinkCall)
        → t.phase ≡ closing left
        → Left final t.job left
        → IsPhase (closing left) t.job
        → IsOver final t ⊎ CanMove t
    by_left [] h (finished row) f = finished-or_moves final t k.rest h row f k.streams k.prefix
    by_left (call ∷ left) h l f = inr (task call left h)

length-closing_calls : (e : Ended) → length (closing_calls e) ≤ 3
unfolding closing_calls
length-closing_calls (returned outcome) = omega arith
length-closing_calls timed_out = omega arith
length-closing_calls raised = omega arith

-- The agent of a job runs, its client listens, and the run ends, in whatever way (with an outcome,
-- at the limit of time, or with an exception). From then on, as long as the store takes every call
-- and the client listens, in whatever order the task, the stream and the pings take turns: the task
-- and the stream make at most six moves, one more for each event that was still to be yielded, and
-- one more for each ping; and at every moment either the task or the stream can move, or the job is
-- over. When it is over, the task has no call left, the row has the final status, and the stream has
-- returned; the last event that it yielded is `done`, the only one, and tells the final status.
pub Runs-IsOver :
    {s t : System} {n p : ℕ} (e : Ended)
    → Runs started s
    → s.phase ≡ running
    → s.streaming ≡ true
    → Goes (record s { phase = closing (closing_calls e) }) n p t
    → (n + length s.sent ≤ 6 + length s.job.sink.queued + p) × (IsOver (final_of e) t ⊎ CanMove t)
Runs-IsOver {s} {t} {n} {p} e r running_now on g =
    let is_open = subst (λ q. IsPhase q s.job) running_now (Runs-IsPhase r started-IsPhase) in
    let (rest, prefix) = Runs-IsPrefix r in
    let sizes = ap length prefix ∙ length-append s.sent rest in
    let few = length-closing_calls e in
    let first : Ending (final_of e) (6 + length rest) 0 0
        (record s { phase = closing (closing_calls e) }) =
      record {
        left = closing_calls e;
        phase = refl;
        calls = start-Left e s.job;
        told = ended-IsPhase e s.job is_open;
        streams = inl (on, IsOpen-front s.sent rest (subst IsOpen prefix is_open));
        rest = rest;
        prefix = prefix;
        paid = omega (arith, few);
      } in
    let last = Goes-Ending (final_of e) (6 + length rest) first g in
    (omega (arith, last.paid, sizes), Ending-progress t last)
