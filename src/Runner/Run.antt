-- ===== src/Runner/Run.antt =====
-- `_execute`, `_run` and `run_query`: a whole query, from the opened session on.
use stpp_connector.Base.{
  ℕ, true, false, Option, none, some, List, [], ◌∷◌, codes, mem, first, lookup_id, put_id, Result,
  ok, err,
}
use stpp_connector.Json.{Value}
use stpp_connector.Plan.{Step, Plan}
use stpp_connector.Plan.Read.{plan_of}
use stpp_connector.Order.{topological_order}
use stpp_connector.Runner.Reports.{
  not_run, StepReport, StepOutcome, Status, Raised, plan_invalid, llm_fault, llm_unavailable,
  budget_exceeded, type_raise, endless, synthesis, step_event, plan_event, status_event,
  answer_event, error_event,
}
use stpp_connector.Runner.Effects.{
  Services, Setting, M, pure, raise, ◌>>=◌, needs, emit, set_intent, ask,
}
use stpp_connector.Runner.Steps.{progress, failed_report, execute_step}
use stpp_connector.Runner.Planning.{plan_with_repair}

-- `failed_ids` and `reports`.
pub record Progress : Type 0 where
  pub failed_ids : List ℕ
  pub reports : List (ℕ × StepReport)

unfoldable pub add_report : ℕ → StepOutcome → Progress → Progress
add_report n outcome p = elim outcome.failed [
  | true ↦ record { failed_ids = n ∷ p.failed_ids; reports = put_id n outcome.report p.reports }
  | false ↦ record p { reports = put_id n outcome.report p.reports }
]

-- `[d for d in step["depends_on"] if d in failed_ids]`, of which the first is read.
abbrev pub failed_dep : List ℕ → Step → Option ℕ
failed_dep failed_ids step = first (λ d. mem d failed_ids) step.depends_on

-- `[reports[step["id"]] for step in plan["steps"]]`
unfoldable pub in_plan_order : List (ℕ × StepReport) → List Step → Option (List StepReport)
in_plan_order reports [] = some []
in_plan_order reports (s ∷ ss) = elim (lookup_id s.id reports) [
  | none ↦ none
  | some r ↦ elim (in_plan_order reports ss) [ none ↦ none | some rs ↦ some (r ∷ rs) ]
]

module _ {W : Type 0} where
  -- A step that is not run, since a dependency failed.
  unfoldable pub skip_step : Step → ℕ → M W StepOutcome
  skip_step step dep = do
    _ ← emit (step_event (progress step Status.failed (some (not_run dep))))
    pure (record { report = failed_report step (not_run dep); failed = true })

-- How a query ends.
pub data Outcome : Type 0 where
  complete : Outcome
  failed : Outcome

module _ {W : Type 0} (services : Services W) (setting : Setting) where
  unfoldable pub run_step : Step → Option ℕ → M W StepOutcome
  run_step step (some dep) = skip_step step dep
  run_step step none = execute_step services setting step

  unfoldable pub run_steps : List Step → Progress → M W Progress
  run_steps [] p = pure p
  run_steps (step ∷ steps) p = do
    outcome ← run_step step (failed_dep p.failed_ids step)
    run_steps steps (add_report step.id outcome p)

  -- The loop, and the reports in the order of the plan.
  unfoldable pub run_in_order : List Step → List Step → M W (List StepReport)
  run_in_order steps ordered = do
    p ← run_steps ordered (record { failed_ids = []; reports = [] })
    needs type_raise (in_plan_order p.reports steps)

  unfoldable pub execute : List Step → M W (List StepReport)
  execute steps = do ordered ← needs endless (topological_order steps); run_in_order steps ordered

  unfoldable pub run_plan : Value → Plan → M W Outcome
  run_plan document plan = do
    _ ← set_intent plan.intent
    _ ← emit (plan_event document)
    _ ← emit (status_event (codes "executing"))
    reports ← execute plan.steps
    _ ← emit (status_event (codes "synthesizing"))
    answer ← ask services (synthesis plan.intent reports)
    _ ← emit (answer_event answer)
    pure complete

  -- `_run`, from the planning on.
  unfoldable pub run : M W Outcome
  run = do
    document ← plan_with_repair services setting
    plan ← needs type_raise (plan_of document)
    run_plan document plan

  -- `except AgentError`; any other exception goes on to the host.
  unfoldable pub caught : Result Raised Outcome → M W Outcome
  caught (ok outcome) = pure outcome
  caught (err (plan_invalid violations)) = do
    _ ← emit (error_event (plan_invalid violations))
    pure failed
  caught (err (llm_fault (llm_unavailable text))) = do
    _ ← emit (error_event (llm_fault (llm_unavailable text)))
    pure failed
  caught (err (llm_fault (budget_exceeded text))) = do
    _ ← emit (error_event (llm_fault (budget_exceeded text)))
    pure failed
  caught (err e) = raise e

  unfoldable pub run_query : M W Outcome
  run_query r = caught (run r).0 (run r).1
