-- ===== src/Llm.antt =====
-- services/integration-api/agent/llm.py: the clients of the LLM, and the choice of one.
pub mod Retry
pub mod Gemini
pub mod Candidates
pub mod Replies
pub mod Bedrock
use stpp_connector.Base.{
  ℕ, Bool, true, false, Option, none, some, Text, codes, text_eq, is_empty, Result, ok, err,
  if◌then◌else◌,
}

-- What `make_llm_client` reads of `AgentConfig`.
pub record LlmConfig : Type 0 where
  pub llm_provider : Text
  pub llm_model : Text
  pub llm_api_key : Option Text
  pub llm_base_url : Option Text
  pub llm_max_tokens : ℕ
  pub aws_region : Option Text

-- The clients, with the arguments that they are made of.
pub data Client : Type 0 where
  -- model, key, base URL, cap
  gemini : Text → Text → Option Text → ℕ → Client
  -- model, region, cap
  bedrock : Text → Option Text → ℕ → Client

-- The key, if it is neither None nor empty.
abbrev pub given_key : Option Text → Option Text
given_key none = none
given_key (some key) = if is_empty key then none else some key

unfoldable pub make_llm_client : LlmConfig → Result Text Client
make_llm_client config =
    if is_empty config.llm_model
    then err (codes "LLM_MODEL is required")
    else if text_eq config.llm_provider (codes "gemini")
    then elim (given_key config.llm_api_key) [
      | none ↦ err (codes "LLM_API_KEY is required for the gemini provider")
      | some key ↦ ok (gemini config.llm_model key config.llm_base_url config.llm_max_tokens)
    ]
    else if text_eq config.llm_provider (codes "bedrock")
    then ok (bedrock config.llm_model config.aws_region config.llm_max_tokens)
    else err (codes "unknown LLM_PROVIDER")
