-- ===== src/Runner/Query.antt =====
-- The budget of `run_query`.
use stpp_connector.Base.{ℕ, ◌+◌, ◌*◌, ◌≤◌, ◌≡◌, subst, some, List, length, Result, ok, err, arith}
use stpp_connector.Json.{Value}
use stpp_connector.Plan.{Plan}
use stpp_connector.Plan.Read.{plan_of}
use stpp_connector.Order.Accepted.{IsAccepted, validate_plan-IsAccepted}
use stpp_connector.Runner.Reports.{
  Raised, plan_invalid, llm_fault, llm_unavailable, budget_exceeded, llm_config, check_raise,
  call_raise, type_raise, endless, Event,
}
use stpp_connector.Runner.Effects.{Services, Setting, RunState}
use stpp_connector.Runner.Run.{Outcome, run_plan, run, caught, run_query}
use stpp_connector.Runner.Costs.{
  total, Spends, unchanged, Spends-more, Spends-bind_when, Spends-last_when, Spends-first,
  needs-Spends, needs-Returns, emit-Spends,
}
use stpp_connector.Runner.StepBudget.{attempt_limit}
use stpp_connector.Runner.RunBudget.{
  IsChecked, one_step, plan_with_repair-Spends, plan_with_repair-IsChecked, run_plan-Spends,
}

mul_mono : (a b c : ℕ) → a ≤ b → a * c ≤ b * c
mul_mono a b c h = grind arith

module _ {W : Type 0} (c l : ℕ) (services : Services W) (setting : Setting) where
  abbrev planned_cost : ℕ
  planned_cost = setting.plan_max_steps * one_step c l services setting + l

  checked_plan-Spends :
      (document : Value) (plan : Plan)
      → IsChecked services setting document
      → plan_of document ≡ some plan
      → Spends c l planned_cost (run_plan services setting document plan)
  checked_plan-Spends document plan h e =
      let (p, f, accepted) =
        validate_plan-IsAccepted services.schema_errors document setting.plan_schema setting.tools
          setting.observed setting.plan_max_steps h in
      let same : p ≡ plan = cc in
      let good =
        subst (λ q. IsAccepted setting.tools setting.plan_max_steps (Plan.steps q)) same accepted in
      Spends-more c l (length plan.steps * one_step c l services setting + l) planned_cost
        (run_plan services setting document plan)
        (run_plan-Spends c l services setting document plan good)
        (omega (
          arith,
          mul_mono (length plan.steps) setting.plan_max_steps (one_step c l services setting)
              (IsAccepted.within good),
        ))

  run-Spends : Spends c l ((l + l) + planned_cost) (run services setting)
  unfolding run
  run-Spends =
      Spends-bind_when c l (IsChecked services setting) (l + l) planned_cost _ _
        (plan_with_repair-Spends c l services setting)
        (plan_with_repair-IsChecked c l services setting)
        (λ document h.
          Spends-last_when c l (λ p. plan_of document ≡ some p) planned_cost _ _
            (needs-Spends c l 0 type_raise _) (needs-Returns c l type_raise _)
            (λ plan e. checked_plan-Spends document plan h e))

  caught-Spends : (x : Result Raised Outcome) → Spends c l 0 (caught services setting x)
  unfolding caught
  caught-Spends (ok outcome) = unchanged c l 0
  caught-Spends (err (plan_invalid violations)) =
      Spends-first c l 0 _ _ (emit-Spends c l _) (λ u. unchanged c l 0)
  caught-Spends (err (llm_fault (llm_unavailable text))) =
      Spends-first c l 0 _ _ (emit-Spends c l _) (λ u. unchanged c l 0)
  caught-Spends (err (llm_fault (budget_exceeded text))) =
      Spends-first c l 0 _ _ (emit-Spends c l _) (λ u. unchanged c l 0)
  caught-Spends (err (llm_fault (llm_config text))) = unchanged c l 0
  caught-Spends (err (check_raise e)) = unchanged c l 0
  caught-Spends (err (call_raise e)) = unchanged c l 0
  caught-Spends (err type_raise) = unchanged c l 0
  caught-Spends (err endless) = unchanged c l 0

  run_query-Spends : Spends c l ((l + l) + planned_cost) (run_query services setting)
  unfolding run_query
  run_query-Spends r =
      omega
        (arith, run-Spends r, caught-Spends (run services setting r).0 (run services setting r).1)

-- The tool calls and the LLM calls in a log.
abbrev pub tool_calls : List Event → ℕ
tool_calls log = total 1 0 log

abbrev pub llm_calls : List Event → ℕ
llm_calls log = total 0 1 log

double : (n : ℕ) → n * 1 + (0 + n * 1) ≡ 2 * n
double n = omega arith

nothing_twice : (n : ℕ) → n * 0 + (1 + n * 0) ≡ 1
nothing_twice n = omega arith

-- However a query ends, with whatever replies of the LLM and of the tools, it makes at most
-- PLAN_MAX_STEPS times twice the larger of 1 and PLAN_MAX_FANOUT tool calls, and at most
-- PLAN_MAX_STEPS + 3 LLM calls: two for the plan, one repair for each step, and the synthesis.
pub run_query-IsFrugal :
    {W : Type 0} (services : Services W) (setting : Setting) (r : RunState W)
    → (tool_calls (run_query services setting r).1.log
        ≤ tool_calls r.log + setting.plan_max_steps * (2 * attempt_limit setting.plan_max_fanout))
      × (llm_calls (run_query services setting r).1.log
          ≤ llm_calls r.log + (setting.plan_max_steps + 3))
run_query-IsFrugal services setting r =
    let limit = attempt_limit setting.plan_max_fanout in
    (
      omega (
        arith,
        subst
            (λ n.
              tool_calls (run_query services setting r).1.log
              ≤ tool_calls r.log + (0 + (setting.plan_max_steps * n + 0)))
            (double limit) (run_query-Spends 1 0 services setting r),
      ),
      omega (
        arith,
        subst
            (λ n.
              llm_calls (run_query services setting r).1.log
              ≤ llm_calls r.log + (2 + (setting.plan_max_steps * n + 1)))
            (nothing_twice limit) (run_query-Spends 0 1 services setting r),
      ),
    )
