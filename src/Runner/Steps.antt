-- ===== src/Runner/Steps.antt =====
-- `_execute_step`, `_repair_step` and `_fail_step`: one step, with its one repair.
use stpp_connector.Base.{
  ℕ, Bool, true, false, Option, none, some, List, [], ◌∷◌, Text, codes, Result, ok, err,
  if◌then◌else◌, ◌==◌,
}
use stpp_connector.Json.{Value, bool, int, pos, lookup_key}
use stpp_connector.Plan.{Step}
use stpp_connector.Plan.Read.{step_of}
use stpp_connector.Refs.Resolve.{Results}
use stpp_connector.Refs.Calls.{FanPlan, CallFault, fanout_error, plan_step_calls}
use stpp_connector.Validator.Violations.{Violation}
use stpp_connector.Validator.Checks.{validate_step}
use stpp_connector.Runner.Reports.{
  ToolFault, StepError, fanout_refused, denied, no_valid_repair, after_one_repair, Status, running,
  repairing, failed, StepReport, StepOutcome, StepEvent, step_repair, check_raise, call_raise,
  type_raise, step_event,
}
use stpp_connector.Runner.Effects.{
  Services, Setting, M, pure, raise, ◌>>=◌, needs, lifts, emit, get_results, get_intent, ask,
}
use stpp_connector.Runner.Reply.{parse_json}
use stpp_connector.Runner.Attempt.{Attempt, finished, broken, is_denial, attempt_calls}

-- A `sink.step` call without a result.
abbrev pub progress : Step → Status → Option StepError → StepEvent
progress step status error = record {
  step_id = step.id;
  status = status;
  tool = step.tool;
  args = step.args;
  result = none;
  summary = none;
  rows = none;
  truncated = none;
  error = error;
}

-- `_failed_report`
unfoldable pub failed_report : Step → StepError → StepReport
failed_report step error = record {
  step_id = step.id;
  tool = step.tool;
  status = failed;
  summary = none;
  rows = none;
  truncated = none;
  result_json = none;
  error = some error;
}

-- `revised.get("id") != step["id"]`, negated: `True` is 1 and `False` is 0.
unfoldable pub same_id : ℕ → Option Value → Bool
same_id n (some (int (pos m))) = m == n
same_id n (some (bool b)) = n == (if b then 1 else 0)
same_id n other = false

-- The results of the steps that are completed: `set(results)`.
abbrev pub completed_ids : Results → List ℕ
completed_ids [] = []
completed_ids ((i, r) ∷ rs) = i ∷ completed_ids rs

-- A planned step, or the refusal of RefFanoutError; any other exception goes on.
pub data Planned : Type 0 where
  planned : FanPlan → Planned
  refused : Text → Text → Planned

module _ {W : Type 0} where
  -- The `error` is the `summary` of the event too, so it is kept once.
  unfoldable pub fail_step : Step → StepError → M W StepOutcome
  fail_step step error = do
    _ ← emit (step_event (progress step failed (some error)))
    pure (record { report = failed_report step error; failed = true })

  unfoldable pub planned_of : Result CallFault FanPlan → M W Planned
  planned_of (ok fan) = pure (planned fan)
  planned_of (err (fanout_error before now)) = pure (refused before now)
  planned_of (err e) = raise (call_raise e)

  unfoldable pub plan_calls : Setting → Step → M W Planned
  plan_calls setting step = do
    results ← get_results
    planned_of (plan_step_calls step.args results setting.plan_max_fanout)

module _ {W : Type 0} (services : Services W) (setting : Setting) where
  -- The reply has the id of the step, and then passes `validate_step`, or there is no repair.
  unfoldable pub checked_repair : Value → List Violation → M W (Option Step)
  checked_repair revised [] = do step ← needs type_raise (step_of revised); pure (some step)
  checked_repair revised (v ∷ vs) = pure none

  unfoldable pub validate_repair : Value → List ℕ → M W (Option Step)
  validate_repair revised completed = do
    violations ← lifts check_raise (
        validate_step services.schema_errors revised setting.plan_schema setting.tools
          setting.observed completed)
    checked_repair revised violations

  unfoldable pub revised_step : Step → List ℕ → Result Text Value → M W (Option Step)
  revised_step step completed (err text) = pure none
  revised_step step completed (ok revised) =
      if same_id step.id (lookup_key (codes "id") revised)
      then validate_repair revised completed
      else pure none

  unfoldable pub repair_step : Step → ToolFault → List ℕ → M W (Option Step)
  repair_step step error completed = do
    intent ← get_intent
    raw ← ask services (step_repair intent step error)
    revised_step step completed (parse_json services.loads raw)

  -- The second attempt, with the repaired step.
  unfoldable pub last_outcome : Step → Attempt → M W StepOutcome
  last_outcome step (finished outcome) = pure outcome
  last_outcome step (broken error) = fail_step step (after_one_repair error)

  unfoldable pub last_attempt : Step → Planned → M W StepOutcome
  last_attempt step (refused before now) = fail_step step (fanout_refused before now)
  last_attempt step (planned fan) = do
    attempt ← attempt_calls services step fan
    last_outcome step attempt

  unfoldable pub run_repaired : Step → ToolFault → Option Step → M W StepOutcome
  run_repaired step error none = fail_step step (no_valid_repair error)
  run_repaired step error (some repaired) = do
    plan ← plan_calls setting repaired
    last_attempt repaired plan

  unfoldable pub repair : Step → ToolFault → List ℕ → M W StepOutcome
  repair step error completed = do
    _ ← emit (step_event (progress step repairing none))
    repaired ← repair_step step error completed
    run_repaired step error repaired

  unfoldable pub after_attempt : Step → List ℕ → Attempt → M W StepOutcome
  after_attempt step completed (finished outcome) = pure outcome
  after_attempt step completed (broken error) =
      if is_denial error then fail_step step (denied error.message) else repair step error completed

  unfoldable pub first_attempt : Step → List ℕ → Planned → M W StepOutcome
  first_attempt step completed (refused before now) = fail_step step (fanout_refused before now)
  first_attempt step completed (planned fan) = do
    attempt ← attempt_calls services step fan
    after_attempt step completed attempt

  unfoldable pub execute_step : Step → M W StepOutcome
  execute_step step = do
    results ← get_results
    _ ← emit (step_event (progress step running none))
    plan ← plan_calls setting step
    first_attempt step (completed_ids results) plan
