-- ===== src/Jobs/Accepted.antt =====
-- What a job is started with.
use stpp_connector.Base.{
  ℕ, ◌≤◌, ◌≡◌, ◌≢◌, refl, ap, ◌∙◌, subst, true, ◌||◌, Option, none, some, List, [], ◌∷◌, ◌++◌, Text,
  codes, text_eq, text_eq_iff, length, All, inl, inr, Bool-cases, Option-cases, ok, ltb, arith,
}
use stpp_connector.Json.{Value}
use stpp_connector.Jobs.Body.{
  ChatMessage, last_message, all_but_last, one_shape, read_body, Submission, total_chars, too_large,
  with_messages, submission, submit_query,
}
use stpp_connector.Jobs.Turns.{IsTurn, IsQuery, AreTurns, read_body-IsBody}

last_and_before :
    (m : ChatMessage) (ms : List ChatMessage)
    → m ∷ ms ≡ all_but_last (m ∷ ms) ++ last_message m ms ∷ []
unfolding all_but_last last_message
last_and_before m [] = refl
last_and_before m (n ∷ ms) = ap (λ t. m ∷ t) (last_and_before n ms)

last_message-IsTurn :
    (m : ChatMessage) (ms : List ChatMessage) → All IsTurn (m ∷ ms) → IsTurn (last_message m ms)
unfolding last_message
last_message-IsTurn m [] h = h.0
last_message-IsTurn m (n ∷ ms) h = last_message-IsTurn n ms h.1

-- The conversation of a job, if it has one, within the limits: turns that say something, of which
-- the last one is the user's, and asks the query; the turns before it are the history.
abbrev pub IsConversation : ℕ → ℕ → Submission → Option (List ChatMessage) → Type 0
IsConversation turns chars s none = s.history ≡ []
IsConversation turns chars s (some ms) =
    (ms ≡ s.history ++ record { role = codes "user"; content = s.query } ∷ [])
    × (length ms ≤ turns)
    × (total_chars ms ≤ chars)
    × All IsTurn ms

abbrev pub IsAccepted : ℕ → ℕ → Submission → Type 0
IsAccepted turns chars s = (s.query ≢ []) × IsConversation turns chars s s.stored_messages

module _ (turns chars : ℕ) where
  with_messages-IsAccepted :
      (m : ChatMessage) (ms : List ChatMessage) (s : Submission)
      → text_eq (ChatMessage.role (last_message m ms)) (codes "user") ≡ true
      → All IsTurn (m ∷ ms)
      → with_messages turns chars m ms ≡ ok s
      → IsAccepted turns chars s
  unfolding with_messages too_large
  with_messages-IsAccepted m ms s u h k =
      elim (Bool-cases (ltb turns (length (m ∷ ms)) || ltb chars (total_chars (m ∷ ms)))) [
        | inl f ↦ cc (rw (with_messages, too_large, f) at k)
        | inr f ↦
            let made : Submission = record {
              query = ChatMessage.content (last_message m ms);
              history = all_but_last (m ∷ ms);
              stored_messages = some (m ∷ ms);
            } in
            let same : made ≡ s = cc (rw (with_messages, too_large, f) at k) in
            let user = (text_eq_iff (ChatMessage.role (last_message m ms)) (codes "user")).0 u in
            subst (IsAccepted turns chars) same (
              (last_message-IsTurn m ms h).1,
              (
                last_and_before m ms
                    ∙ ap
                        (λ r.
                          all_but_last (m ∷ ms)
                          ++ record { role = r; content = ChatMessage.content (last_message m ms) }
                            ∷ [])
                        user,
                ground arith,
                ground arith,
                h,
              ),
            )
      ]

  submission-IsAccepted :
      (q : Option Text) (l : Option (List ChatMessage)) (s : Submission)
      → IsQuery q
      → AreTurns l
      → one_shape q l ≡ true
      → submission turns chars q l ≡ ok s
      → IsAccepted turns chars s
  unfolding submission
  submission-IsAccepted none none s h k o e = cc
  submission-IsAccepted none (some []) s h k o e = cc
  submission-IsAccepted none (some (m ∷ ms)) s h k o e = with_messages-IsAccepted m ms s o k e
  submission-IsAccepted (some q) (some ms) s h k o e = cc
  submission-IsAccepted (some q) none s h k o e =
      let made : Submission = record { query = q; history = []; stored_messages = none } in
      let same : made ≡ s = cc e in subst (IsAccepted turns chars) same (h, refl)

  -- A request that starts a job asks a query that is not empty. It is either a single query, with
  -- no history; or a conversation of at most CHAT_MAX_TURNS turns and CHAT_MAX_CHARS characters, of
  -- the user and the assistant, none of them empty, whose last turn is the user's: that turn is the
  -- query, and the history is all turns before it.
  pub submit_query-IsAccepted :
      (request : Value) (s : Submission)
      → submit_query turns chars request ≡ ok s
      → IsAccepted turns chars s
  unfolding submit_query
  submit_query-IsAccepted request s h = elim (Option-cases (read_body request)) [
    | inl e ↦ cc (rw (submit_query, e) at h)
    | inr (body, e) ↦
        let good = read_body-IsBody request body e in
        submission-IsAccepted body.query body.messages s good.query good.turns good.one
          (rw (submit_query, e) at h)
  ]
