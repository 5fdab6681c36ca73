-- ===== src/Jobs/Body.antt =====
-- The request of POST /v1/query, services/integration-api/app/main.py: `ChatMessage`, `QueryBody`
-- and what `submit_query` makes of them, up to the creation of the job.
use stpp_connector.Base.{
  ℕ, ◌+◌, Bool, true, false, ◌&&◌, ◌||◌, Option, none, some, List, [], ◌∷◌, Text, codes, text_eq,
  mem_text, length, if◌then◌else◌, ltb, Result, ok, err,
}
use stpp_connector.Json.{
  Value, Items, Fields, null, str, arr, obj, nil, cons, end, field, get_field,
}

-- `ChatMessage`
pub record ChatMessage : Type 0 where
  pub role : Text
  pub content : Text

-- `QueryBody`
pub record QueryBody : Type 0 where
  pub query : Option Text
  pub messages : Option (List ChatMessage)

-- `extra="forbid"`
unfoldable pub only_keys : List Text → Fields → Bool
only_keys allowed end = true
only_keys allowed (field k v fs) = mem_text k allowed && only_keys allowed fs

-- `Field(min_length=1)` of a text.
abbrev pub filled : Option Value → Option Text
filled (some (str (c ∷ s))) = some (c ∷ s)
filled v = none

abbrev pub is_role : Text → Bool
is_role role = text_eq role (codes "user") || text_eq role (codes "assistant")

-- A message of its role and of its content, if these are valid.
unfoldable pub message_from : Option Value → Option Text → Option ChatMessage
message_from (some (str role)) (some content) =
    if is_role role then some (record { role = role; content = content }) else none
message_from role content = none

unfoldable pub read_message : Value → Option ChatMessage
read_message (obj fs) =
    if only_keys (codes "role" ∷ codes "content" ∷ []) fs
    then message_from (get_field (codes "role") fs) (filled (get_field (codes "content") fs))
    else none
read_message v = none

abbrev pub with_message : Option ChatMessage → Option (List ChatMessage) → Option (List ChatMessage)
with_message (some m) (some ms) = some (m ∷ ms)
with_message m ms = none

unfoldable pub read_messages : Items → Option (List ChatMessage)
read_messages nil = some []
read_messages (cons v vs) = with_message (read_message v) (read_messages vs)

abbrev pub some_some : {A : Type 0} → Option A → Option (Option A)
some_some none = none
some_some (some a) = some (some a)

-- `str | None` and `list[ChatMessage] | None`, of which null is none; the outer `none` refuses.
unfoldable pub read_query : Option Value → Option (Option Text)
read_query none = some none
read_query (some null) = some none
read_query (some v) = some_some (filled (some v))

unfoldable pub read_list : Option Value → Option (Option (List ChatMessage))
read_list none = some none
read_list (some null) = some none
read_list (some (arr (cons v vs))) = some_some (read_messages (cons v vs))
read_list v = none

-- `messages[-1]`
unfoldable pub last_message : ChatMessage → List ChatMessage → ChatMessage
last_message m [] = m
last_message m (n ∷ ms) = last_message n ms

-- `messages[:-1]`
unfoldable pub all_but_last : List ChatMessage → List ChatMessage
all_but_last [] = []
all_but_last (m ∷ []) = []
all_but_last (m ∷ n ∷ ms) = m ∷ all_but_last (n ∷ ms)

-- `_one_shape_last_turn_user`
abbrev pub one_shape : Option Text → Option (List ChatMessage) → Bool
one_shape (some query) none = true
one_shape none (some (m ∷ ms)) = text_eq (ChatMessage.role (last_message m ms)) (codes "user")
one_shape query messages = false

unfoldable pub one_shape_last_turn_user : QueryBody → Bool
one_shape_last_turn_user body = one_shape body.query body.messages

unfoldable pub body_from :
    Option (Option Text) → Option (Option (List ChatMessage)) → Option QueryBody
body_from (some query) (some messages) =
    let body : QueryBody = record { query = query; messages = messages } in
    if one_shape_last_turn_user body then some body else none
body_from query messages = none

-- `QueryBody`, as pydantic reads it from the JSON of the request.
unfoldable pub read_body : Value → Option QueryBody
read_body (obj fs) =
    if only_keys (codes "query" ∷ codes "messages" ∷ []) fs
    then body_from (read_query (get_field (codes "query") fs))
        (read_list (get_field (codes "messages") fs))
    else none
read_body v = none

-- What `submit_query` starts the job with.
pub record Submission : Type 0 where
  pub query : Text
  pub history : List ChatMessage
  pub stored_messages : Option (List ChatMessage)

pub data Refused : Type 0 where
  invalid_request : Refused
  conversation_too_large : Refused

unfoldable pub total_chars : List ChatMessage → ℕ
total_chars [] = 0
total_chars (m ∷ ms) = length m.content + total_chars ms

module _ (chat_max_turns chat_max_chars : ℕ) where
  unfoldable pub too_large : List ChatMessage → Bool
  too_large ms = ltb chat_max_turns (length ms) || ltb chat_max_chars (total_chars ms)

  unfoldable pub with_messages : ChatMessage → List ChatMessage → Result Refused Submission
  with_messages m ms =
      if too_large (m ∷ ms)
      then err conversation_too_large
      else ok (record {
        query = ChatMessage.content (last_message m ms);
        history = all_but_last (m ∷ ms);
        stored_messages = some (m ∷ ms);
      })

  -- A body that `_one_shape_last_turn_user` accepts has a message or a query.
  unfoldable pub submission : Option Text → Option (List ChatMessage) → Result Refused Submission
  submission query (some (m ∷ ms)) = with_messages m ms
  submission (some query) messages =
      ok (record { query = query; history = []; stored_messages = none })
  submission query messages = err invalid_request

  unfoldable pub submit_query : Value → Result Refused Submission
  submit_query request = elim (read_body request) [
    | none ↦ err invalid_request
    | some body ↦ submission body.query body.messages
  ]
