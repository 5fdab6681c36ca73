-- ===== src/Prompt/Conversation.antt =====
-- `render_conversation_block`: the turns before the query.
use stpp_connector.Base.{
  ℕ, ◌&&◌, List, [], ◌∷◌, ◌++◌, Text, codes, text_eq, join, take, length, if◌then◌else◌, ltb,
}
use stpp_connector.Jobs.Body.{ChatMessage}

abbrev pub newline : Text
newline = 10 ∷ []

abbrev pub cut_mark : Text
cut_mark = newline ++ codes "… [truncated]"

-- What is replayed of a turn: an assistant's turn is cut.
unfoldable pub replayed : ℕ → ChatMessage → Text
replayed replay_chars turn =
    if text_eq turn.role (codes "assistant") && ltb replay_chars (length turn.content)
    then take replay_chars turn.content ++ cut_mark
    else turn.content

unfoldable pub turn_block : ℕ → ChatMessage → Text
turn_block replay_chars turn =
    codes "<<<TURN role="
    ++ turn.role
    ++ newline
    ++ replayed replay_chars turn
    ++ newline
    ++ codes "TURN>>>"

unfoldable pub blocks : ℕ → List ChatMessage → List Text
blocks replay_chars [] = []
blocks replay_chars (turn ∷ turns) = turn_block replay_chars turn ∷ blocks replay_chars turns

unfoldable pub render_conversation_block : ℕ → List ChatMessage → Text
render_conversation_block replay_chars [] = codes "(none — first turn)"
render_conversation_block replay_chars (turn ∷ turns) =
    join (newline ++ newline) (blocks replay_chars (turn ∷ turns))
