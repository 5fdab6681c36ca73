-- ===== src/Llm/Bedrock.antt =====
-- `BedrockClient` of services/integration-api/agent/llm.py, with the Converse API of boto3.
use stpp_connector.Base.{
  ℕ, Bool, true, false, ◌||◌, Option, none, some, List, [], ◌∷◌, ◌++◌, Text, codes, mem_text,
  strip_prefix, if◌then◌else◌, leb, Result, err,
}
use stpp_connector.Json.{
  pos, negsuc, Value, Items, Fields, bool, int, str, arr, obj, nil, cons, end, field, get_field,
  lookup_key,
}
use stpp_connector.Runner.Reports.{llm_unavailable}
use stpp_connector.Llm.Retry.{Refusal, fault, crash, Turn, ended, again, complete_twice, round}
use stpp_connector.Llm.Gemini.{malformed, over_cap, told_turn, equals_text}

-- What `converse` does: it returns a dict, or raises an exception with its name and `response`.
pub data Converse : Type 0 where
  replied : Fields → Converse
  raised : Text → Option Value → Converse

abbrev pub retryable_codes : List Text
retryable_codes =
    codes "ThrottlingException"
    ∷ codes "ServiceUnavailableException"
    ∷ codes "InternalServerException"
    ∷ codes "ModelTimeoutException"
    ∷ codes "ModelNotReadyException"
    ∷ []

abbrev pub retryable_names : List Text
retryable_names =
    codes "EndpointConnectionError"
    ∷ codes "ConnectTimeoutError"
    ∷ codes "ReadTimeoutError"
    ∷ codes "ConnectionClosedError"
    ∷ []

-- `response.get(outer, {}).get(inner, default)`; `none` is an AttributeError.
unfoldable pub get_inner : Text → Text → Value → Fields → Option Value
get_inner outer inner default response = elim (get_field outer response) [
  | none ↦ some default
  | some (obj fs) ↦ elim (get_field inner fs) [ none ↦ some default | some v ↦ some v ]
  | some v ↦ none
]

-- `code in _BEDROCK_RETRYABLE_CODES`; a list or a dict has no hash.
unfoldable pub code_retryable : Value → Option Bool
code_retryable (str code) = some (mem_text code retryable_codes)
code_retryable (arr vs) = none
code_retryable (obj fs) = none
code_retryable v = some false

-- `status >= 500`, which is a TypeError on what is no number. A float, which no status is, is taken
-- for one.
unfoldable pub status_retryable : Value → Option Bool
status_retryable (int (pos n)) = some (leb 500 n)
status_retryable (int (negsuc n)) = some false
status_retryable (bool b) = some false
status_retryable v = none

-- `_bedrock_retryable`; `none` is an exception of its own.
unfoldable pub bedrock_retryable : Text → Option Value → Option Bool
bedrock_retryable name (some (obj response)) =
    elim (get_inner (codes "Error") (codes "Code") (str []) response) [
      | none ↦ none
      | some code ↦
          elim (get_inner (codes "ResponseMetadata") (codes "HTTPStatusCode") (int (pos 0))
            response) [
              | none ↦ none
              | some status ↦ elim (code_retryable code) [
                | none ↦ none
                | some true ↦ some true
                | some false ↦ status_retryable status
              ]
            ]
    ]
bedrock_retryable name response = some (mem_text name retryable_names)

-- `"text" in value`, for a text and for a list.
unfoldable pub contains : Text → Text → Bool
contains t [] = false
contains t (c ∷ s) = elim (strip_prefix t (c ∷ s)) [ some rest ↦ true | none ↦ contains t s ]

unfoldable pub has_text_item : Items → Bool
has_text_item nil = false
has_text_item (cons v vs) = equals_text (codes "text") (some v) || has_text_item vs

-- `part["text"] for part in content if "text" in part`: the text of one part, empty where it is
-- left out. `none` is a TypeError.
unfoldable pub part_text : Value → Option Text
part_text (obj part) = elim (get_field (codes "text") part) [
  | none ↦ some []
  | some (str text) ↦ some text
  | some v ↦ none
]
part_text (str s) = if contains (codes "text") s then none else some []
part_text (arr vs) = if has_text_item vs then none else some []
part_text v = none

abbrev pub plus_text : Option Text → Option Text → Option Text
plus_text (some a) (some b) = some (a ++ b)
plus_text a b = none

unfoldable pub joined_content : Items → Option Text
joined_content nil = some []
joined_content (cons part parts) = plus_text (part_text part) (joined_content parts)

-- A dict is iterated by its keys; the characters of a text are all left out.
unfoldable pub keys_content : Fields → Option Text
keys_content end = some []
keys_content (field k v fs) = plus_text (part_text (str k)) (keys_content fs)

unfoldable pub content_text : Value → Option Text
content_text (arr parts) = joined_content parts
content_text (obj fs) = keys_content fs
content_text (str s) = some []
content_text v = none

unfoldable pub parse_reply : Fields → Turn
parse_reply response = elim (get_field (codes "output") response) [
  | none ↦ malformed
  | some output ↦ elim (lookup_key (codes "message") output) [
    | none ↦ malformed
    | some message ↦ elim (lookup_key (codes "content") message) [
      | none ↦ malformed
      | some content ↦ told_turn (content_text content)
    ]
  ]
]

unfoldable pub read_converse : Converse → Turn
read_converse (raised name response) = elim (bedrock_retryable name response) [
  | none ↦ ended (err crash)
  | some true ↦ again name
  | some false ↦ ended (err (fault (llm_unavailable (codes "LLM endpoint rejected the request"))))
]
read_converse (replied response) =
    if equals_text (codes "max_tokens") (get_field (codes "stopReason") response)
    then over_cap
    else parse_reply response

-- The arguments of `converse`; `json_mode` is not used.
unfoldable pub request_of : Text → ℕ → Text → Fields
request_of model max_tokens prompt = field (codes "modelId") (str model) (
    field (codes "messages")
      (arr (
        cons
          (obj (
            field (codes "role") (str (codes "user")) (
              field (codes "content") (arr (cons (obj (field (codes "text") (str prompt) end)) nil))
                end)))
          nil))
      (field (codes "inferenceConfig")
        (obj (
          field (codes "maxTokens") (int (pos max_tokens))
            (field (codes "temperature") (int (pos 0)) end)))
        end))

-- `converse` stands for the client of boto3.
module _ {W : Type 0} (converse : Fields → W → Converse × W) where
  unfoldable pub complete : Text → ℕ → Text → W → Result Refusal Text × W
  complete model max_tokens prompt =
      complete_twice (round read_converse converse (request_of model max_tokens prompt))
