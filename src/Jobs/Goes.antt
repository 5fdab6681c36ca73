-- ===== src/Jobs/Goes.antt =====
-- `_run_job` and the stream of services/integration-api/app/main.py once the agent has ended: what
-- holds in whatever order they take turns.
use stpp_connector.Base.{
  ℕ, suc, ◌+◌, ◌*◌, ◌≤◌, arith, ◌≡◌, refl, sym, ap, ◌∙◌, subst, true, false, not, some, List, [],
  ◌∷◌, ◌++◌, append_assoc, All-append, get_elem?, length, length-append, Text, ◌⊎◌, inl, inr,
  Bool-cases,
}
use stpp_connector.Sink.{JobEvent, SinkCall, emit_event, done, status, error, perform}
use stpp_connector.Jobs.Run.{
  JobState, perform_call, Ended, returned, timed_out, raised, final_of, closing_calls, closing,
  System, is_done, after_closing, after_ping, after_event, next_event,
}
use stpp_connector.Jobs.Order.{IsOpen, IsPhase, close-IsPhase, ping-IsPhase}

-- What may happen while the store takes every call and the client listens: moves of the task and of
-- the stream, and pings, in any order. The numbers count the moves and the pings.
pub data Goes (s : System) : ℕ → ℕ → System → Type 0 where
  here : Goes s 0 0 s
  closes :
      {n p : ℕ} {t : System} (call : SinkCall) (left : List SinkCall)
      → Goes s n p t
      → t.phase ≡ closing (call ∷ left)
      → Goes s (suc n) p (after_closing call left (true, true) t)
  yields :
      {n p : ℕ} {t : System} (e : JobEvent)
      → Goes s n p t
      → t.streaming ≡ true
      → next_event t ≡ some e
      → Goes s (suc n) p (after_event e t)
  pings :
      {n p : ℕ} {t : System}
      → Goes s n p t
      → t.streaming ≡ true
      → Goes s n (suc p) (after_ping (true, true) t)

-- The calls that are left of the task, which ends with the status `final`.
pub data Left (final : Text) (j : JobState) : List SinkCall → Type 0 where
  telling :
      {code message : Text} → Left final j (error code message ∷ status final ∷ done final ∷ [])
  marking : Left final j (status final ∷ done final ∷ [])
  finishing : j.status ≡ final → Left final j (done final ∷ [])
  finished : j.status ≡ final → Left final j []

-- The events end with `done`, the only one.
pub record SentDone (sent : List JobEvent) : Type 0 where
  pub before : List JobEvent
  pub last : JobEvent
  pub parts : sent ≡ before ++ last ∷ []
  pub is_open : IsOpen before
  pub is_last : is_done last ≡ true

abbrev pub Streams : System → Type 0
Streams t = ((t.streaming ≡ true) × IsOpen t.sent) ⊎ ((t.streaming ≡ false) × SentDone t.sent)

-- What holds while a job ends: the task has calls left, and each move is paid for.
pub record Ending (final : Text) (total n p : ℕ) (t : System) : Type 0 where
  pub left : List SinkCall
  pub phase : t.phase ≡ closing left
  pub calls : Left final t.job left
  pub told : IsPhase (closing left) t.job
  pub streams : Streams t
  pub rest : List JobEvent
  pub prefix : t.job.sink.queued ≡ t.sent ++ rest
  pub paid : n + (2 * length left + length rest) ≤ total + p

added :
    (sent rest : List JobEvent) (queued : List JobEvent) (e : JobEvent)
    → queued ≡ sent ++ rest
    → queued ++ e ∷ [] ≡ sent ++ (rest ++ e ∷ [])
added sent rest queued e h = ap (λ q. q ++ e ∷ []) h ∙ append_assoc sent rest (e ∷ [])

-- A move that adds an event to the queue.
afford :
    (n m total : ℕ) (rest : List JobEvent) (e : JobEvent)
    → n + ((2 + m) + length rest) ≤ total
    → suc n + (m + length (rest ++ e ∷ [])) ≤ total
afford n m total rest e h = omega (arith, h, length-append rest (e ∷ []))

closes-Ending :
    (final : Text) (total n p : ℕ) (t : System) (call : SinkCall) (left : List SinkCall)
    (rest : List JobEvent)
    → Left final t.job (call ∷ left)
    → IsPhase (closing (call ∷ left)) t.job
    → Streams t
    → t.job.sink.queued ≡ t.sent ++ rest
    → n + (2 * length (call ∷ left) + length rest) ≤ total + p
    → Ending final total (suc n) p (after_closing call left (true, true) t)
unfolding after_closing perform_call perform emit_event
closes-Ending final total n p t call left rest telling h s e k = record {
  left = left;
  phase = refl;
  calls = marking;
  told = close-IsPhase call left (true, true) t h;
  streams = s;
  rest = _;
  prefix = added t.sent rest t.job.sink.queued _ e;
  paid = afford n 4 (total + p) rest _ k;
}
closes-Ending final total n p t call left rest marking h s e k = record {
  left = left;
  phase = refl;
  calls = finishing refl;
  told = close-IsPhase call left (true, true) t h;
  streams = s;
  rest = rest;
  prefix = e;
  paid = omega (arith, k);
}
closes-Ending final total n p t call left rest (finishing q) h s e k = record {
  left = left;
  phase = refl;
  calls = finished q;
  told = close-IsPhase call left (true, true) t h;
  streams = s;
  rest = _;
  prefix = added t.sent rest t.job.sink.queued _ e;
  paid = afford n 0 (total + p) rest _ k;
}

get_elem?-rest :
    (sent rest : List JobEvent) (e : JobEvent)
    → get_elem? (sent ++ rest) (length sent) ≡ some e
    → (tail : List JobEvent) × (rest ≡ e ∷ tail)
get_elem?-rest [] [] e h = cc h
get_elem?-rest [] (x ∷ rest) e h = (rest, cc h)
get_elem?-rest (y ∷ sent) rest e h = get_elem?-rest sent rest e h

pub get_elem?-append :
    (xs : List JobEvent) (y : JobEvent) (ys : List JobEvent)
    → get_elem? (xs ++ (y ∷ ys)) (length xs) ≡ some y
get_elem?-append [] y ys = refl
get_elem?-append (x ∷ xs) y ys = get_elem?-append xs y ys

-- A stream that still yields has sent no `done`.
sent-IsOpen : (t : System) → Streams t → t.streaming ≡ true → IsOpen t.sent
sent-IsOpen t (inl (on, open_sent)) h = open_sent
sent-IsOpen t (inr (off, d)) h = absurd (cc (off, h))

after_event-Streams : (e : JobEvent) (t : System) → IsOpen t.sent → Streams (after_event e t)
unfolding after_event
after_event-Streams e t h = elim (Bool-cases (is_done e)) [
  | inl k ↦
      inr (ap not k, record { before = t.sent; last = e; parts = refl; is_open = h; is_last = k })
  | inr k ↦ inl (ap not k, All-append (λ d. is_done d ≡ false) t.sent (e ∷ []) h (k, tt))
]

yields-Ending :
    (final : Text) (total n p : ℕ) (t : System) (e : JobEvent)
    → t.streaming ≡ true
    → next_event t ≡ some e
    → Ending final total n p t
    → Ending final total (suc n) p (after_event e t)
unfolding after_event
yields-Ending final total n p t e on h k =
    let (tail, cut) =
      get_elem?-rest t.sent k.rest e
        (subst (λ q. get_elem? q (length t.sent) ≡ some e) k.prefix h) in
    let size : length k.rest ≡ suc (length tail) = ap length cut in
    record {
      left = k.left;
      phase = k.phase;
      calls = k.calls;
      told = k.told;
      streams = after_event-Streams e t (sent-IsOpen t k.streams on);
      rest = tail;
      prefix = k.prefix ∙ ap (λ r. t.sent ++ r) cut ∙ sym (append_assoc t.sent (e ∷ []) tail);
      paid = omega (arith, k.paid, size);
    }

ping-Left :
    (final : Text) (j k : JobState) (left : List SinkCall)
    → j.status ≡ k.status
    → Left final j left
    → Left final k left
ping-Left final j k left e telling = telling
ping-Left final j k left e marking = marking
ping-Left final j k left e (finishing q) = finishing (sym e ∙ q)
ping-Left final j k left e (finished q) = finished (sym e ∙ q)

pings-Ending :
    (final : Text) (total n p : ℕ) (t : System)
    → t.streaming ≡ true
    → Ending final total n p t
    → Ending final total n (suc p) (after_ping (true, true) t)
unfolding after_ping perform_call perform emit_event
pings-Ending final total n p t on k = record {
  left = k.left;
  phase = k.phase;
  calls = ping-Left final t.job _ k.left refl k.calls;
  told = ping-IsPhase (true, true) (closing k.left) t.job k.told;
  streams = inl (refl, sent-IsOpen t k.streams on);
  rest = _;
  prefix = added t.sent k.rest t.job.sink.queued _ k.prefix;
  paid = omega (arith, k.paid, length-append k.rest _);
}

pub start-Left : (e : Ended) (j : JobState) → Left (final_of e) j (closing_calls e)
unfolding final_of closing_calls
start-Left (returned outcome) j = marking
start-Left timed_out j = telling
start-Left raised j = telling

pub Goes-Ending :
    {s t : System} {n p : ℕ} (final : Text) (total : ℕ)
    → Ending final total 0 0 s
    → Goes s n p t
    → Ending final total n p t
Goes-Ending final total h here = h
Goes-Ending {s} final total h (closes {n} {p} {t} call left g e) =
    let k = Goes-Ending final total h g in
    let same : k.left ≡ call ∷ left = cc (k.phase, e) in
    closes-Ending final total n p t call left k.rest (subst (Left final t.job) same k.calls)
      (subst (λ l. IsPhase (closing l) t.job) same k.told) k.streams k.prefix
      (subst (λ (l : List SinkCall). n + (2 * length l + length k.rest) ≤ total + p) same k.paid)
Goes-Ending {s} final total h (yields {n} {p} {t} d g on e) =
    yields-Ending final total n p t d on e (Goes-Ending final total h g)
Goes-Ending {s} final total h (pings {n} {p} {t} g on) =
    pings-Ending final total n p t on (Goes-Ending final total h g)
