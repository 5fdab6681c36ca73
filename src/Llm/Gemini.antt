-- ===== src/Llm/Gemini.antt =====
-- `GeminiClient` of services/integration-api/agent/llm.py.
use stpp_connector.Base.{
  ℕ, Bool, false, ◌||◌, Option, none, some, [], ◌∷◌, ◌++◌, Text, codes, text_eq, if◌then◌else◌,
  ◌==◌, leb, is_empty, Result, ok, err,
}
use stpp_connector.Base.Strip.{reversed}
use stpp_connector.Json.{
  Value, Items, Fields, int, pos, str, arr, obj, nil, cons, end, field, get_field, lookup_key,
}
use stpp_connector.Http.{Response, no_response, response}
use stpp_connector.Runner.Reports.{llm_unavailable, budget_exceeded}
use stpp_connector.Llm.Retry.{Refusal, fault, crash, Turn, ended, again, complete_twice, round}

-- `text.rstrip("/")`
unfoldable pub without_slashes : Text → Text
without_slashes [] = []
without_slashes (c ∷ s) = if c == 47 then without_slashes s else c ∷ s

abbrev pub default_base_url : Text
default_base_url = codes "https://generativelanguage.googleapis.com"

abbrev pub base_or_default : Option Text → Text
base_or_default none = default_base_url
base_or_default (some url) = if is_empty url then default_base_url else url

pub record GeminiClient : Type 0 where
  pub model : Text
  pub base_url : Text
  pub max_tokens : ℕ

-- `__init__`; the key, the timeout and the delay concern the request only.
unfoldable pub new_gemini : Text → Option Text → ℕ → GeminiClient
new_gemini model base_url max_tokens = record {
  model = model;
  base_url = reversed (without_slashes (reversed (base_or_default base_url)));
  max_tokens = max_tokens;
}

unfoldable pub url_of : GeminiClient → Text
url_of client =
    client.base_url ++ codes "/v1beta/models/" ++ client.model ++ codes ":generateContent"

unfoldable pub generation_config : ℕ → Bool → Fields
generation_config max_tokens json_mode = field (codes "maxOutputTokens") (int (pos max_tokens)) (
    field (codes "temperature") (int (pos 0)) (
      if json_mode
      then field (codes "responseMimeType") (str (codes "application/json")) end
      else end))

unfoldable pub body_of : GeminiClient → Text → Bool → Value
body_of client prompt json_mode = obj (
    field (codes "contents")
      (arr (
        cons
          (obj (
            field (codes "parts") (arr (cons (obj (field (codes "text") (str prompt) end)) nil))
              end))
          nil))
      (field (codes "generationConfig") (obj (generation_config client.max_tokens json_mode)) end))

-- `value[0]`: an element, an IndexError, KeyError or TypeError.
unfoldable pub at_zero : Value → Option Value
at_zero (arr (cons v vs)) = some v
at_zero (str (c ∷ s)) = some (str (c ∷ []))
at_zero v = none

-- `"".join(part["text"] for part in parts)` on a list.
unfoldable pub joined_parts : Items → Option Text
joined_parts nil = some []
joined_parts (cons part parts) = elim (lookup_key (codes "text") part) [
  | some (str text) ↦ elim (joined_parts parts) [ none ↦ none | some rest ↦ some (text ++ rest) ]
  | _ ↦ none
]

-- Other values that can be iterated are empty, or their elements are texts without `["text"]`.
unfoldable pub parts_text : Value → Option Text
parts_text (arr parts) = joined_parts parts
parts_text (obj end) = some []
parts_text (str []) = some []
parts_text v = none

abbrev pub malformed : Turn
malformed = again (codes "malformed response body")

abbrev pub over_cap : Turn
over_cap =
    ended
      (err (fault (budget_exceeded (codes "LLM output exceeded the LLM_MAX_TOKENS per-call cap"))))

abbrev pub told_turn : Option Text → Turn
told_turn none = malformed
told_turn (some text) = ended (ok text)

abbrev pub equals_text : Text → Option Value → Bool
equals_text t (some (str s)) = text_eq s t
equals_text t v = false

unfoldable pub parse_candidate : Value → Turn
parse_candidate (obj candidate) =
    if equals_text (codes "MAX_TOKENS") (get_field (codes "finishReason") candidate)
    then over_cap
    else elim (get_field (codes "content") candidate) [
      | none ↦ malformed
      | some content ↦ elim (lookup_key (codes "parts") content) [
        | none ↦ malformed
        | some parts ↦ told_turn (parts_text parts)
      ]
    ]
-- `candidate.get` is an AttributeError, which the loop does not catch.
parse_candidate v = ended (err crash)

-- `_parse`, with the exceptions that the loop catches.
unfoldable pub parse : Value → Turn
parse payload = elim (lookup_key (codes "candidates") payload) [
  | none ↦ malformed
  | some candidates ↦ elim (at_zero candidates) [
    | none ↦ malformed
    | some candidate ↦ parse_candidate candidate
  ]
]

-- One round of the loop, after the request.
unfoldable pub read_response : Response → Turn
read_response (no_response text) = again (codes "transport error: " ++ text)
read_response (response status body) =
    if leb 500 status || (status == 429)
    then again (codes "HTTP error status")
    else if leb 400 status
    then ended (err (fault (llm_unavailable (codes "LLM endpoint rejected the request"))))
    else elim body [ none ↦ malformed | some payload ↦ parse payload ]

-- `post` stands for the POST of httpx, with its URL and body.
module _ {W : Type 0} (post : Text × Value → W → Response × W) where
  unfoldable pub complete : GeminiClient → Text → Bool → W → Result Refusal Text × W
  complete client prompt json_mode =
      complete_twice (round read_response post (url_of client, body_of client prompt json_mode))
