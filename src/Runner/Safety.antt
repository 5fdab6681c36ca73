-- ===== src/Runner/Safety.antt =====
-- `_plan_with_repair`, and `_execute_step` where the single call of the step is denied, of
-- services/integration-api/agent/runner.py.
use stpp_connector.Base.{
  ◌≡◌, refl, ap, subst, true, false, none, some, List, [], ◌∷◌, ◌++◌, ok, Ensures,
}
use stpp_connector.Json.{Value}
use stpp_connector.Plan.{Step, Plan}
use stpp_connector.Plan.Read.{plan_of}
use stpp_connector.Validator.Checks.{validate_plan}
use stpp_connector.Order.Accepted.{IsAccepted, validate_plan-IsAccepted}
use stpp_connector.Refs.Calls.{FanPlan, plan_step_calls}
use stpp_connector.Runner.Reports.{ToolFault, tool_error, denied, Status, step_event, tools_call}
use stpp_connector.Runner.Effects.{Services, Setting, RunState, ◌>>=◌, emit, get_results, call_tool}
use stpp_connector.Runner.Attempt.{is_denial, attempt_calls, attempt_one, take_answer}
use stpp_connector.Runner.Steps.{
  progress, failed_report, fail_step, planned_of, plan_calls, after_attempt, first_attempt,
  execute_step,
}
use stpp_connector.Runner.Planning.{plan_with_repair}
use stpp_connector.Runner.RunBudget.{IsChecked, plan_with_repair-IsChecked}

-- Whatever the LLM replies, the document that `_plan_with_repair` returns is one for which the
-- validator, with the schema, the tools, the observed values and the budget of this run, reports no
-- violation; so it reads as a plan within the budget of steps, with available tools and declared
-- references, and with an execution order.
pub plan_with_repair-IsAccepted :
    {W : Type 0} (services : Services W) (setting : Setting) (r : RunState W) (document : Value)
    → (plan_with_repair services setting r).0 ≡ ok document
    → (validate_plan services.schema_errors document setting.plan_schema setting.tools
          setting.observed setting.plan_max_steps
        ≡ ok [])
      × ((p : Plan) × (plan_of document ≡ some p)
          × IsAccepted setting.tools setting.plan_max_steps p.steps)
plan_with_repair-IsAccepted services setting r document h =
    let checked =
      subst (Ensures (IsChecked services setting)) h
        (plan_with_repair-IsChecked 0 0 services setting r) in
    (
      checked,
      validate_plan-IsAccepted services.schema_errors document setting.plan_schema setting.tools
          setting.observed setting.plan_max_steps checked,
    )

in_turn :
    {A : Type 0} (xs : List A) (a b c : A)
    → ((xs ++ a ∷ []) ++ b ∷ []) ++ c ∷ [] ≡ xs ++ (a ∷ b ∷ c ∷ [])
in_turn [] a b c = refl
in_turn (x ∷ xs) a b c = ap (λ t. x ∷ t) (in_turn xs a b c)

-- The single call of a step is denied with not_authorized: the step fails with the denial, after
-- that one call and no LLM call, and stores no result.
pub execute_step-denied :
    {W : Type 0} (services : Services W) (setting : Setting) (step : Step) (r : RunState W)
    (fan : FanPlan) (args : Value) (error : ToolFault) (world : W)
    → plan_step_calls step.args r.results setting.plan_max_fanout ≡ ok fan
    → fan.empty ≡ false
    → fan.fanned ≡ false
    → fan.calls ≡ args ∷ []
    → services.call step.tool args r.world ≡ (tool_error error, world)
    → is_denial error ≡ true
    → execute_step services setting step r ≡ (
      ok (record { report = failed_report step (denied error.message); failed = true }),
      record r {
        world = world;
        log =
            r.log
            ++ (step_event (progress step Status.running none)
                ∷ tools_call step.tool args
                ∷ step_event (progress step Status.failed (some (denied error.message)))
                ∷ []);
      },
    )
unfolding execute_step plan_calls planned_of first_attempt attempt_calls attempt_one call_tool
    take_answer after_attempt fail_step emit get_results ◌>>=◌
execute_step-denied services setting step r fan args error world planned h k calls answered e =
    rw planned (
      rw h (
        rw k (
          rw calls (
            rw answered (
              rw e (
                ap
                  (λ log. (
                    ok (record {
                      report = failed_report step (denied error.message);
                      failed = true;
                    }),
                    record r { world = world; log = log },
                  ))
                  (in_turn r.log _ _ _)))))))
