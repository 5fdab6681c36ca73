-- ===== src/Tests/RunnerTests.antt =====
-- The runner on the plan of two steps, with an LLM that returns it and tools that deny.
use stpp_connector.Base.{◌≡◌, refl, ◌+◌, ◌*◌, ◌≤◌, some, [], ◌∷◌, ◌++◌, codes, ok}
use stpp_connector.Plan.{Plan}
use stpp_connector.Plan.Read.{plan_of}
use stpp_connector.Order.Accepted.{IsAccepted}
use stpp_connector.Runner.Reports.{ToolFault, tool_error}
use stpp_connector.Runner.Effects.{Services, Setting, RunState, ◌>>=◌, ask}
use stpp_connector.Base.Strip.{lstrip, rstrip}
use stpp_connector.Runner.Reply.{without_end, after_line, unfenced, parse_json}
use stpp_connector.Runner.Planning.{check_plan, plan_once, repaired_plan, plan_with_repair}
use stpp_connector.Runner.Run.{run_query}
use stpp_connector.Runner.StepBudget.{attempt_limit}
use stpp_connector.Runner.Query.{tool_calls, llm_calls, run_query-IsFrugal}
use stpp_connector.Validator.Checks.{validate_plan}
use stpp_connector.Runner.Safety.{plan_with_repair-IsAccepted}
use stpp_connector.Tests.PlanTests.{checking, no_errors, session_tools, plan_document, plan_schema}

abbrev denial : ToolFault
denial = record { code = codes "not_authorized"; message = codes "role required" }

-- Every reply reads as the plan, and every tool call is denied.
abbrev denying : Services (Unit {0})
denying = record {
  complete = λ q w. (ok (codes "{}"), w);
  call = λ tool args w. (tool_error denial, w);
  schema_errors = no_errors;
  loads = λ text. ok plan_document;
  dumps = λ v. codes "...";
}

abbrev setting : Setting
setting = record {
  plan_max_steps = 8;
  plan_max_fanout = 5;
  plan_schema = plan_schema;
  tools = session_tools;
  observed = [];
}

abbrev at_start : RunState (Unit {0})
at_start = record { world = tt; results = []; current_intent = []; log = [] }

fenced_reply : unfenced (codes "```json" ++ (10 ∷ codes "{}```")) ≡ codes "{}"
unfolding checking unfenced lstrip rstrip without_end after_line
fenced_reply = refl

planned : (plan_with_repair denying setting at_start).0 ≡ ok plan_document
unfolding checking plan_with_repair plan_once check_plan repaired_plan ask parse_json ◌>>=◌
planned = refl

plan_with_repair-IsAccepted_example :
    (validate_plan no_errors plan_document plan_schema session_tools [] 8 ≡ ok [])
    × ((p : Plan) × (plan_of plan_document ≡ some p) × IsAccepted session_tools 8 p.steps)
plan_with_repair-IsAccepted_example =
    plan_with_repair-IsAccepted denying setting at_start plan_document planned

run_query-IsFrugal_example :
    (tool_calls (run_query denying setting at_start).1.log ≤ 0 + 8 * (2 * attempt_limit 5))
    × (llm_calls (run_query denying setting at_start).1.log ≤ 0 + (8 + 3))
unfolding stpp_connector.Runner.Costs.total
run_query-IsFrugal_example = run_query-IsFrugal denying setting at_start
