-- ===== src/Jobs/Turns.antt =====
-- What a request body has that is read.
use stpp_connector.Base.{
  ◌≡◌, ◌≢◌, refl, sym, subst, true, Option, none, some, List, [], ◌∷◌, Text, codes, All, inl, inr,
  Bool-cases, Option-cases,
}
use stpp_connector.Json.{Value, Items, null, bool, int, float, str, arr, obj, nil, cons}
use stpp_connector.Jobs.Body.{
  ChatMessage, QueryBody, only_keys, filled, is_role, message_from, read_message, read_messages,
  read_query, read_list, one_shape, one_shape_last_turn_user, some_some, body_from, read_body,
}

-- A turn of the user or the assistant that says something.
abbrev pub IsTurn : ChatMessage → Type 0
IsTurn m = (is_role m.role ≡ true) × (m.content ≢ [])

filled-IsFilled : (v : Option Value) (text : Text) → filled v ≡ some text → text ≢ []
filled-IsFilled none text h e = cc
filled-IsFilled (some null) text h e = cc
filled-IsFilled (some (bool b)) text h e = cc
filled-IsFilled (some (int z)) text h e = cc
filled-IsFilled (some (float t)) text h e = cc
filled-IsFilled (some (obj fs)) text h e = cc
filled-IsFilled (some (arr vs)) text h e = cc
filled-IsFilled (some (str [])) text h e = cc
filled-IsFilled (some (str (c ∷ s))) text h e = cc

message_from-IsTurn :
    (r : Option Value) (c : Option Text) (m : ChatMessage)
    → ((text : Text) → c ≡ some text → text ≢ [])
    → message_from r c ≡ some m
    → IsTurn m
unfolding message_from
message_from-IsTurn (some (str role)) (some content) m k h = elim (Bool-cases (is_role role)) [
  | inr f ↦ cc (rw (message_from, f) at h)
  | inl f ↦
      let same : ChatMessage.role m ≡ role = cc (rw (message_from, f) at h) in
      let told : ChatMessage.content m ≡ content = cc (rw (message_from, f) at h) in
      (subst (λ r. is_role r ≡ true) (sym same) f, subst (λ t. t ≢ []) (sym told) (k content refl))
]
message_from-IsTurn (some (str role)) none m k h = cc
message_from-IsTurn none c m k h = cc
message_from-IsTurn (some null) c m k h = cc
message_from-IsTurn (some (bool b)) c m k h = cc
message_from-IsTurn (some (int z)) c m k h = cc
message_from-IsTurn (some (float t)) c m k h = cc
message_from-IsTurn (some (obj gs)) c m k h = cc
message_from-IsTurn (some (arr vs)) c m k h = cc

read_message-IsTurn : (v : Value) (m : ChatMessage) → read_message v ≡ some m → IsTurn m
unfolding read_message
read_message-IsTurn (obj fs) m h =
    elim (Bool-cases (only_keys (codes "role" ∷ codes "content" ∷ []) fs)) [
      | inr f ↦ cc (rw (read_message, f) at h)
      | inl f ↦ message_from-IsTurn _ _ m (filled-IsFilled _) (rw (read_message, f) at h)
    ]
read_message-IsTurn null m h = cc
read_message-IsTurn (bool b) m h = cc
read_message-IsTurn (int z) m h = cc
read_message-IsTurn (float t) m h = cc
read_message-IsTurn (str s) m h = cc
read_message-IsTurn (arr vs) m h = cc

read_messages-IsTurn :
    (vs : Items) (ms : List ChatMessage) → read_messages vs ≡ some ms → All IsTurn ms
unfolding read_messages
read_messages-IsTurn nil ms h = let same : [] ≡ ms = cc h in subst (All IsTurn) same tt
read_messages-IsTurn (cons v vs) ms h = elim (Option-cases (read_message v)) [
  | inl e ↦ cc (rw (read_messages, e) at h)
  | inr (m, e) ↦ elim (Option-cases (read_messages vs)) [
    | inl f ↦ cc (rw (read_messages, e, f) at h)
    | inr (rest, f) ↦
        let same : m ∷ rest ≡ ms = cc (rw (read_messages, e, f) at h) in
        subst (All IsTurn) same (read_message-IsTurn v m e, read_messages-IsTurn vs rest f)
  ]
]

-- What a body has that is read.
abbrev pub IsQuery : Option Text → Type 0
IsQuery none = Unit
IsQuery (some text) = text ≢ []

abbrev pub AreTurns : Option (List ChatMessage) → Type 0
AreTurns none = Unit
AreTurns (some ms) = All IsTurn ms

read_query-IsQuery : (v : Option Value) (q : Option Text) → read_query v ≡ some q → IsQuery q
unfolding read_query
read_query-IsQuery none q h = let same : none ≡ q = cc h in subst IsQuery same tt
read_query-IsQuery (some null) q h = let same : none ≡ q = cc h in subst IsQuery same tt
read_query-IsQuery (some (bool b)) q h = cc
read_query-IsQuery (some (int z)) q h = cc
read_query-IsQuery (some (float t)) q h = cc
read_query-IsQuery (some (str [])) q h = cc
read_query-IsQuery (some (str (c ∷ s))) q h =
    let same : some (c ∷ s) ≡ q = cc h in subst IsQuery same (λ e. cc)
read_query-IsQuery (some (obj fs)) q h = cc
read_query-IsQuery (some (arr vs)) q h = cc

some_some-AreTurns :
    (o : Option (List ChatMessage)) (ms : Option (List ChatMessage))
    → ((l : List ChatMessage) → o ≡ some l → All IsTurn l)
    → some_some o ≡ some ms
    → AreTurns ms
some_some-AreTurns none ms k h = cc
some_some-AreTurns (some l) ms k h = let same : some l ≡ ms = cc h in subst AreTurns same (k l refl)

read_list-AreTurns :
    (v : Option Value) (ms : Option (List ChatMessage)) → read_list v ≡ some ms → AreTurns ms
unfolding read_list
read_list-AreTurns none ms h = let same : none ≡ ms = cc h in subst AreTurns same tt
read_list-AreTurns (some null) ms h = let same : none ≡ ms = cc h in subst AreTurns same tt
read_list-AreTurns (some (bool b)) ms h = cc
read_list-AreTurns (some (int z)) ms h = cc
read_list-AreTurns (some (float t)) ms h = cc
read_list-AreTurns (some (str s)) ms h = cc
read_list-AreTurns (some (obj fs)) ms h = cc
read_list-AreTurns (some (arr nil)) ms h = cc
read_list-AreTurns (some (arr (cons v vs))) ms h =
    some_some-AreTurns (read_messages (cons v vs)) ms (read_messages-IsTurn (cons v vs)) h

pub record IsBody (body : QueryBody) : Type 0 where
  pub query : IsQuery body.query
  pub turns : AreTurns body.messages
  pub one : one_shape body.query body.messages ≡ true

body_from-IsBody :
    (q : Option (Option Text)) (l : Option (Option (List ChatMessage))) (body : QueryBody)
    → ((text : Option Text) → q ≡ some text → IsQuery text)
    → ((ms : Option (List ChatMessage)) → l ≡ some ms → AreTurns ms)
    → body_from q l ≡ some body
    → IsBody body
unfolding body_from one_shape_last_turn_user
body_from-IsBody none l body j k h = cc
body_from-IsBody (some q) none body j k h = cc
body_from-IsBody (some q) (some ms) body j k h = elim (Bool-cases (one_shape q ms)) [
  | inr f ↦ cc (rw (body_from, one_shape_last_turn_user, f) at h)
  | inl f ↦
      let raw : QueryBody = record { query = q; messages = ms } in
      let same : raw ≡ body = cc (rw (body_from, one_shape_last_turn_user, f) at h) in
      subst IsBody same (record { query = j q refl; turns = k ms refl; one = f })
]

pub read_body-IsBody : (v : Value) (body : QueryBody) → read_body v ≡ some body → IsBody body
unfolding read_body
read_body-IsBody (obj fs) body h =
    elim (Bool-cases (only_keys (codes "query" ∷ codes "messages" ∷ []) fs)) [
      | inr f ↦ cc (rw (read_body, f) at h)
      | inl f ↦
          body_from-IsBody _ _ body (read_query-IsQuery _) (read_list-AreTurns _)
            (rw (read_body, f) at h)
    ]
read_body-IsBody null body h = cc
read_body-IsBody (bool b) body h = cc
read_body-IsBody (int z) body h = cc
read_body-IsBody (float t) body h = cc
read_body-IsBody (str s) body h = cc
read_body-IsBody (arr vs) body h = cc
