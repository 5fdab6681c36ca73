-- ===== src/Tests/PlanTests.antt =====
-- A plan of two steps through the validator, the order and the runner: people of one proposal,
-- then a search for the ORCID of each.
use stpp_connector.Base.{
  ℕ, ◌≡◌, refl, ◌+◌, ◌*◌, ◌≤◌, Bool, true, false, none, some, List, [], ◌∷◌, ◌++◌, Text, codes,
  text_eq, strip_prefix, Result, ok, err,
}
use stpp_connector.Json.{Value, int, pos, str, arr, obj, nil, cons, end, field, get_field}
use stpp_connector.Plan.{Step, Plan, ids_of, steps_dict}
use stpp_connector.Plan.Read.{step_of, steps_of, plan_of}
use stpp_connector.Refs.Syntax.{has_star}
use stpp_connector.Validator.Graph.{
  duplicate_violations, dependency_violations, star_raws, star_violations, target_violation,
  target_violations, reference_violations, step_violations, all_step_violations, ready_of, without,
  kahn, cycle_violations, acyclicity, graph_violations,
}
use stpp_connector.Validator.Args.{
  ToolIndex, input_schema, tool_violations, mask_refs, strip_hash, split_slash, walk_parts, deref,
  is_enum_property, literal_violations, checked_literal, enum_violations,
}
use stpp_connector.Validator.Checks.{
  budget_violations, repaired_references, schema_violations, shape_violations, args_violations,
  all_args_violations, steps_violations, validate_plan, step_schema, step_checks, validate_step,
}
use stpp_connector.Validator.Sound.{IsValidStep, validate_step-IsValidStep}
use stpp_connector.Order.{is_ready, ready_ids, order_on, topological_order}
use stpp_connector.Order.Complete.{IsOrderOf}
use stpp_connector.Order.Validated.{topological_order-validated}
use stpp_connector.Order.Accepted.{IsAccepted, validate_plan-IsAccepted}
use stpp_connector.Tests.RefsTests.{running, orcid_text}

-- Naming this on an `unfolding` line opens the validator and the order.
unfoldable pub checking : Unit {0}
unfolding running stpp_connector.Base.mem_text has_star ids_of steps_dict step_of steps_of plan_of
    get_field duplicate_violations dependency_violations star_raws star_violations target_violation
    target_violations reference_violations step_violations all_step_violations ready_of without kahn
    cycle_violations acyclicity graph_violations input_schema tool_violations mask_refs strip_hash
    split_slash walk_parts deref is_enum_property literal_violations checked_literal enum_violations
    budget_violations repaired_references schema_violations shape_violations args_violations
    all_args_violations steps_violations validate_plan step_schema step_checks validate_step
    is_ready ready_ids order_on topological_order
checking = tt

abbrev pub people_args : Value
people_args = obj (field (codes "proposal_number") (str (codes "N-1")) end)

abbrev pub people_step : Step
people_step = record {
  id = 1;
  tool = codes "search_personnel";
  args = people_args;
  depends_on = [];
}

abbrev pub person_query : Value
person_query = obj (field (codes "orcid") (str orcid_text) end)

abbrev pub person_step : Step
person_step = record {
  id = 2;
  tool = codes "search_wdp_person";
  args = person_query;
  depends_on = 1 ∷ [];
}

-- The document lists the second step first.
abbrev pub two_steps : List Step
two_steps = person_step ∷ people_step ∷ []

two_steps_linked : graph_violations two_steps ≡ ok []
unfolding checking
two_steps_linked = refl

topological_order-validated_example :
    (ordered : List Step) × (topological_order two_steps ≡ some ordered)
    × IsOrderOf two_steps ordered
topological_order-validated_example = topological_order-validated two_steps two_steps_linked

two_steps_ordered : topological_order two_steps ≡ some (people_step ∷ person_step ∷ [])
unfolding checking
two_steps_ordered = refl

abbrev step_document : ℕ → Text → Value → Value → Value
step_document id tool args deps = obj (
    field (codes "id") (int (pos id)) (
      field (codes "tool") (str tool)
        (field (codes "args") args (field (codes "depends_on") deps end))))

abbrev pub person_document : Value
person_document =
    step_document 2 (codes "search_wdp_person") person_query (arr (cons (int (pos 1)) nil))

abbrev pub plan_document : Value
plan_document = obj (
    field (codes "intent") (str (codes "people")) (
      field (codes "steps")
        (arr (
          cons person_document
            (cons (step_document 1 (codes "search_personnel") people_args (arr nil)) nil)))
        end))

-- plan-format.json, of which only `$defs` is read here.
abbrev pub plan_schema : Value
plan_schema = obj (field (codes "$defs") (obj (field (codes "step") (obj end) end)) end)

abbrev pub no_errors : Value → Value → List Text
no_errors schema document = []

abbrev pub session_tools : ToolIndex
session_tools = (codes "search_personnel", obj end) ∷ (codes "search_wdp_person", obj end) ∷ []

abbrev pub two_step_plan : Plan
two_step_plan = record { intent = codes "people"; steps = two_steps }

person_valid : validate_step no_errors person_document plan_schema session_tools [] (1 ∷ []) ≡ ok []
unfolding checking
person_valid = refl

validate_step-IsValidStep_example :
    (s : Step) × (step_of person_document ≡ some s) × IsValidStep session_tools (1 ∷ []) s
validate_step-IsValidStep_example =
    validate_step-IsValidStep no_errors person_document plan_schema session_tools [] (1 ∷ [])
      person_valid

pub plan_valid : validate_plan no_errors plan_document plan_schema session_tools [] 8 ≡ ok []
unfolding checking
plan_valid = refl

validate_plan-IsAccepted_example :
    (p : Plan) × (plan_of plan_document ≡ some p) × IsAccepted session_tools 8 p.steps
validate_plan-IsAccepted_example =
    validate_plan-IsAccepted no_errors plan_document plan_schema session_tools [] 8 plan_valid
