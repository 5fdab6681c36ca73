-- ===== src/Tests/ClientTests.antt =====
-- The LLM client, the terms of a query, the statements of the WDP stand-in and the stand-in of the
-- MCP server, on small inputs.
use stpp_connector.Base.{
  ℕ, zero, suc, ◌≡◌, refl, ◌↔◌, ◌⊎◌, Bool, true, false, Option, none, some, List, [], ◌∷◌, ◌++◌,
  Text, codes, text_eq, mem_text, map, All, ok,
}
use stpp_connector.Json.{pos, Value, Fields, str, arr, obj, nil, cons, end, field, get_field}
use stpp_connector.Http.{Response, no_response, response}
use stpp_connector.Llm.Retry.{counted}
use stpp_connector.Llm.Gemini.{GeminiClient, new_gemini, url_of, body_of, read_response, complete}
use stpp_connector.Llm.Candidates.{Holds, IsTransient}
use stpp_connector.Llm.Replies.{complete-Answers, complete-IsSent}
use stpp_connector.Context.{scan, add_terms, extract_terms, pattern_of}
use stpp_connector.Context.Terms.{IsKeyword, IsDistinct, IsPattern, extract_terms-IsKeyword}
use stpp_connector.Prompt.Fill.{fill}
use stpp_connector.Rfff.Placeholders.{IsBound}
use stpp_connector.FakeWdp.Queries.{persons_sql, entities_sql, documents_sql}
use stpp_connector.FakeWdp.Bound.{queries-IsBound}
use stpp_connector.Mock.Session.{
  Fixture, gives, run_fixture, definition_of, may_call, misses_one, answer, checked, allowed,
  tools_call,
}
use stpp_connector.Mock.Gate.{IsListed, tools_call-IsListed}

abbrev gemini : GeminiClient
gemini = record { model = codes "m"; base_url = codes "http://x"; max_tokens = 64 }

abbrev hello_reply : Value
hello_reply = obj (
    field (codes "candidates")
      (arr (
        cons
          (obj (
            field (codes "content")
              (obj (
                field (codes "parts")
                  (arr (cons (obj (field (codes "text") (str (codes "hello")) end)) nil)) end))
              end))
          nil))
      end)

-- No response to the first request, and a text to the second.
abbrev flaky : Text × Value → ℕ → Response × ℕ
flaky q zero = (no_response (codes "timeout"), 1)
flaky q (suc n) = (response 200 (some hello_reply), suc (suc n))

abbrev hello_response : Response
hello_response = response 200 (some hello_reply)

complete-Answers_example : ((complete flaky gemini (codes "p") true 0).0 ≡ ok (codes "hello")) ↔ (
    Holds (no_response (codes "timeout")) (codes "hello")
    ⊎ (IsTransient (no_response (codes "timeout")) × Holds hello_response (codes "hello")))
complete-Answers_example = complete-Answers flaky gemini (codes "p") true 0 (codes "hello")

flaky_hello : (complete flaky gemini (codes "p") true 0).0 ≡ ok (codes "hello")
unfolding complete read_response stpp_connector.Llm.Retry.complete_twice
    stpp_connector.Llm.Retry.second_turn stpp_connector.Llm.Retry.last_turn
    stpp_connector.Llm.Gemini.parse stpp_connector.Llm.Gemini.parse_candidate
    stpp_connector.Llm.Gemini.at_zero stpp_connector.Llm.Gemini.parts_text
    stpp_connector.Llm.Gemini.joined_parts stpp_connector.Json.lookup_key get_field text_eq
flaky_hello = refl

complete-IsSent_example :
    (IsTransient (no_response (codes "timeout"))
      × ((complete (counted flaky) gemini (codes "p") true (0, 0)).1.1 ≡ 2))
    ⊎ (¬ IsTransient (no_response (codes "timeout"))
        × ((complete (counted flaky) gemini (codes "p") true (0, 0)).1.1 ≡ 1))
complete-IsSent_example = complete-IsSent flaky gemini (codes "p") true 0 0

abbrev question : Text
question = codes "show 100% of p-2025-0042 and p-2025-0042"

question_terms : extract_terms (λ t. t) question ≡ codes "100" ∷ codes "p-2025-0042" ∷ []
unfolding extract_terms add_terms scan text_eq mem_text
question_terms = refl

extract_terms-IsKeyword_example :
    All IsKeyword (extract_terms (λ t. t) question)
    × IsDistinct (extract_terms (λ t. t) question)
    × All IsPattern (map pattern_of (extract_terms (λ t. t) question))
extract_terms-IsKeyword_example = extract_terms-IsKeyword (λ t. t) question

queries-IsBound_example :
    IsBound (persons_sql none (some (codes "Ana")) (some (pos 3)))
    × IsBound (entities_sql (some (codes "U1")) (some (codes "Ana")) (some (pos 3)))
    × IsBound (documents_sql (codes "r1") (some (pos 3)))
queries-IsBound_example =
    queries-IsBound none (some (codes "Ana")) (some (codes "U1")) (codes "r1") (some (pos 3))

abbrev mock_tool : Value
mock_tool = obj (
    field (codes "name") (str (codes "get_proposal")) (
      field (codes "x-role") (str (codes "rfff_reader")) (
        field (codes "inputSchema")
          (obj (field (codes "required") (arr (cons (str (codes "proposal_number")) nil)) end))
          end)))

abbrev mock_args : Fields
mock_args = field (codes "proposal_number") (str (codes "N-1")) end

abbrev fixed : List (Text × Fixture)
fixed = (codes "get_proposal", gives end) ∷ []

mock_answers :
    tools_call
      (λ t. t)
      []
      (codes "rfff_reader" ∷ [])
      (mock_tool ∷ [])
      fixed
      (codes "get_proposal")
      mock_args
    ≡ ok end
unfolding tools_call allowed checked answer run_fixture definition_of may_call misses_one
    stpp_connector.Json.lookup_key stpp_connector.Json.elements stpp_connector.Json.keys get_field
    text_eq mem_text
mock_answers = refl

tools_call-IsListed_example :
    IsListed (λ t. t) [] (codes "rfff_reader" ∷ []) (mock_tool ∷ []) fixed (codes "get_proposal")
tools_call-IsListed_example =
    tools_call-IsListed (λ t. t) [] (codes "rfff_reader" ∷ []) (mock_tool ∷ []) fixed
      (codes "get_proposal") mock_args end mock_answers

-- A marker of a later slot, inside the value of an earlier one, is filled as well.
nested_slot :
    fill
      (codes "{{conversation_block}}|{{query}}")
      ((codes "conversation_block", codes "a {{query}}") ∷ (codes "query", codes "Q") ∷ [])
    ≡ codes "a Q|Q"
unfolding fill stpp_connector.Prompt.Fill.replace stpp_connector.Prompt.Fill.replace_from
    stpp_connector.Base.strip_prefix
nested_slot = refl
