-- ===== src/Runner/Reports.antt =====
-- What the runner reports and asks. A text that the program formats is kept as the values that it
-- shows.
use stpp_connector.Base.{ℕ, Bool, Option, List, Text}
use stpp_connector.Json.{Value}
use stpp_connector.Plan.{Step}
use stpp_connector.Refs.Calls.{CallFault}
use stpp_connector.Validator.Violations.{Violation, Raise}

-- `MCPToolError`
pub record ToolFault : Type 0 where
  pub code : Text
  pub message : Text

-- What an MCP session does with a call: the envelope, or one of the two exceptions.
pub data Answer : Type 0 where
  envelope : Value → Answer
  tool_error : ToolFault → Answer
  transport_error : Text → Answer

-- What an LLM client raises. LLMConfigError is no AgentError.
pub data LlmFault : Type 0 where
  llm_unavailable : Text → LlmFault
  budget_exceeded : Text → LlmFault
  llm_config : Text → LlmFault

-- The texts that `_fail_step` and the skipped step report.
pub data StepError : Type 0 where
  not_run : ℕ → StepError
  fanout_refused : Text → Text → StepError
  denied : Text → StepError
  no_valid_repair : ToolFault → StepError
  after_one_repair : ToolFault → StepError

-- `stored result truncated (n bytes > cap)`
pub data Summary : Type 0 where
  no_values : Summary
  one_call : Value → Option ℕ → Summary
  -- calls, rows, bytes of a result too large to store, values dropped, calls failed with their codes
  fan_calls : ℕ → ℕ → Option ℕ → ℕ → ℕ → List Text → Summary

pub data Status : Type 0 where
  running : Status
  repairing : Status
  complete : Status
  failed : Status

pub record StepReport : Type 0 where
  pub step_id : ℕ
  pub tool : Text
  pub status : Status
  pub summary : Option Summary
  pub rows : Option Value
  pub truncated : Option Bool
  pub result_json : Option Text
  pub error : Option StepError

pub record StepOutcome : Type 0 where
  pub report : StepReport
  pub failed : Bool

-- The arguments of `sink.step`.
pub record StepEvent : Type 0 where
  pub step_id : ℕ
  pub status : Status
  pub tool : Text
  pub args : Value
  pub result : Option Value
  pub summary : Option Summary
  pub rows : Option Value
  pub truncated : Option Bool
  pub error : Option StepError

-- The prompts of a query. What is the same in all of them (the query, its history, the planner
-- context and the tools of the session) is not repeated here.
pub data Request : Type 0 where
  plan_prompt : Request
  plan_repair : List Violation → Request
  step_repair : Text → Step → ToolFault → Request
  synthesis : Text → List StepReport → Request

-- Why a run ends without an outcome of its own. `endless` is a loop that never ends.
pub data Raised : Type 0 where
  plan_invalid : List Violation → Raised
  llm_fault : LlmFault → Raised
  check_raise : Raise → Raised
  call_raise : CallFault → Raised
  type_raise : Raised
  endless : Raised

-- What leaves the agent, in its order: calls to the sink, to the session and to the LLM.
pub data Event : Type 0 where
  step_event : StepEvent → Event
  plan_event : Value → Event
  status_event : Text → Event
  answer_event : Text → Event
  error_event : Raised → Event
  tools_call : Text → Value → Event
  llm_call : Request → Event
