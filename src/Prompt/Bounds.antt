-- ===== src/Prompt/Bounds.antt =====
-- The size of the text that `render_conversation_block` makes of a history.
use stpp_connector.Base.{
  ℕ, ◌+◌, ◌*◌, ◌≤◌, ◌≡◌, sym, subst, true, ◌&&◌, &&-true, List, [], ◌∷◌, ◌++◌, Text, codes, text_eq,
  text_eq_iff, join, take, length, length-append, length-take, Bool-cases, inl, inr, All, ltb,
  arith, Option, none, some, ok,
}
use stpp_connector.Json.{Value}
use stpp_connector.Jobs.Body.{ChatMessage, is_role, total_chars, Submission, submit_query}
use stpp_connector.Jobs.Turns.{IsTurn}
use stpp_connector.Jobs.Accepted.{IsConversation, submit_query-IsAccepted}
use stpp_connector.Prompt.Conversation.{
  newline, cut_mark, replayed, turn_block, blocks, render_conversation_block,
}

length-codes_role : (role : Text) → is_role role ≡ true → length role ≤ 9
length-codes_role role h = elim (Bool-cases (text_eq role (codes "user"))) [
  | inl e ↦ subst (λ r. length r ≤ 9) (sym ((text_eq_iff role (codes "user")).0 e)) (omega arith)
  | inr e ↦
      let f : text_eq role (codes "assistant") ≡ true = ground arith in
      subst (λ r. length r ≤ 9) (sym ((text_eq_iff role (codes "assistant")).0 f)) (omega arith)
]

length-replayed : (n : ℕ) (turn : ChatMessage) → length (replayed n turn) ≤ length turn.content + 13
unfolding replayed
length-replayed n turn =
    elim (Bool-cases (text_eq turn.role (codes "assistant") && ltb n (length turn.content))) [
      | inl e ↦
          let (is_assistant, long) =
            &&-true (text_eq turn.role (codes "assistant")) (ltb n (length turn.content)) e in
          let size = length-append (take n turn.content) cut_mark in
          let cut = length-take n turn.content in rw (replayed, e) (ground arith)
      | inr e ↦ rw (replayed, e) (omega arith)
    ]

length-turn_block :
    (n : ℕ) (turn : ChatMessage)
    → IsTurn turn
    → length (turn_block n turn) ≤ length turn.content + 44
unfolding turn_block
length-turn_block n turn h =
    let role = length-codes_role turn.role h.0 in
    let text = length-replayed n turn in
    let front = codes "<<<TURN role=" in
    let a = length-append front turn.role in
    let b = length-append (front ++ turn.role) newline in
    let c = length-append (front ++ turn.role ++ newline) (replayed n turn) in
    let d = length-append (front ++ turn.role ++ newline ++ replayed n turn) newline in
    let e =
      length-append (front ++ turn.role ++ newline ++ replayed n turn ++ newline)
        (codes "TURN>>>") in
    omega (arith, a, b, c, d, e, role, text)

join-blocks :
    (n : ℕ) (turns : List ChatMessage)
    → All IsTurn turns
    → length (join (newline ++ newline) (blocks n turns)) ≤ total_chars turns + 46 * length turns
unfolding join blocks total_chars
join-blocks n [] h = omega arith
join-blocks n (t ∷ []) h = let size = length-turn_block n t h.0 in omega (arith, size)
join-blocks n (t ∷ u ∷ ts) h =
    let size = length-turn_block n t h.0 in
    let rest = join-blocks n (u ∷ ts) h.1 in
    let a =
      length-append (turn_block n t)
        ((newline ++ newline) ++ join (newline ++ newline) (blocks n (u ∷ ts))) in
    omega (arith, size, rest, a)

total_chars-append :
    (ms ns : List ChatMessage) → total_chars (ms ++ ns) ≡ total_chars ms + total_chars ns
unfolding total_chars
total_chars-append [] ns = omega arith
total_chars-append (m ∷ ms) ns = omega (arith, total_chars-append ms ns)

All-front : (ms ns : List ChatMessage) → All IsTurn (ms ++ ns) → All IsTurn ms
All-front [] ns h = tt
All-front (m ∷ ms) ns h = (h.0, All-front ms ns h.1)

block-IsBounded :
    (n : ℕ) (turns : List ChatMessage)
    → All IsTurn turns
    → length (render_conversation_block n turns) ≤ 19 + (total_chars turns + 46 * length turns)
unfolding render_conversation_block
block-IsBounded n [] h = omega arith
block-IsBounded n (t ∷ ts) h = omega (arith, join-blocks n (t ∷ ts) h)

module _ (turns chars replay_chars : ℕ) where
  history-IsBounded :
      (s : Submission) (o : Option (List ChatMessage))
      → IsConversation turns chars s o
      → length (render_conversation_block replay_chars s.history) ≤ 19 + (chars + 46 * turns)
  unfolding render_conversation_block
  history-IsBounded s none h =
      subst (λ l. length (render_conversation_block replay_chars l) ≤ 19 + (chars + 46 * turns))
        (sym h) (omega arith)
  history-IsBounded s (some ms) (parts, few, small, good) =
      let query : ChatMessage = record { role = codes "user"; content = s.query } in
      let size =
        block-IsBounded replay_chars s.history
          (All-front s.history (query ∷ []) (subst (All IsTurn) parts good)) in
      let all : List ChatMessage = s.history ++ query ∷ [] in
      let short : length all ≤ turns = subst (λ l. length l ≤ turns) parts few in
      let light : total_chars all ≤ chars = subst (λ l. total_chars l ≤ chars) parts small in
      let a = length-append s.history (query ∷ []) in
      let b = total_chars-append s.history (query ∷ []) in omega (arith, size, short, light, a, b)

  -- For each request that is accepted: the text that `render_conversation_block` makes of its
  -- history has at most CHAT_MAX_CHARS characters, 46 more for each turn that CHAT_MAX_TURNS allows,
  -- and 19, whatever the replay limit is. This is the text that goes into a prompt's slot, before
  -- `_fill` fills what slots the text itself may hold.
  pub render_conversation_block-IsBounded :
      (request : Value) (s : Submission)
      → submit_query turns chars request ≡ ok s
      → length (render_conversation_block replay_chars s.history) ≤ 19 + (chars + 46 * turns)
  render_conversation_block-IsBounded request s h =
      history-IsBounded s s.stored_messages (submit_query-IsAccepted turns chars request s h).1
