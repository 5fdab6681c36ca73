-- ===== src/Runner/StepBudget.antt =====
-- What one step and one plan may spend.
use stpp_connector.Base.{
  ℕ, ◌+◌, ◌*◌, ◌≤◌, ◌≡◌, refl, Bool, true, false, Option, none, some, List, [], ◌∷◌, Text, codes,
  length, Result, ok, err, Ensures, arith, if◌then◌else◌,
}
use Prim.Native.Nat.{max}
use stpp_connector.Json.{Value, lookup_key}
use stpp_connector.Plan.{Step}
use stpp_connector.Plan.Read.{step_of}
use stpp_connector.Refs.Calls.{FanPlan, CallFault, fanout_error, plan_step_calls}
use stpp_connector.Refs.FanOut.Bounds.{IsBounded, plan_step_calls-IsBounded}
use stpp_connector.Validator.Violations.{Violation}
use stpp_connector.Runner.Reports.{ToolFault, StepError, denied, check_raise, type_raise}
use stpp_connector.Runner.Effects.{Services, Setting, RunState, M, pure, ◌>>=◌, needs, lifts}
use stpp_connector.Runner.Attempt.{Attempt, finished, broken, is_denial, attempt_calls}
use stpp_connector.Runner.Steps.{
  Planned, planned, refused, fail_step, planned_of, plan_calls, same_id, checked_repair,
  validate_repair, revised_step, repair_step, last_outcome, last_attempt, run_repaired, repair,
  after_attempt, first_attempt, execute_step,
}
use stpp_connector.Runner.Costs.{
  Spends, Returns, unchanged, Spends-more, Spends-last_when, Spends-bind, Spends-first, Spends-last,
  needs-Spends, lifts-Spends, emit-Spends, get_results-Spends, get_intent-Spends, ask-Spends,
}
use stpp_connector.Runner.Budget.{attempt_calls-Spends}

mul_mono : (a b c : ℕ) → a ≤ b → a * c ≤ b * c
mul_mono a b c h = grind arith

-- The fan-out budget holds of a plan.
abbrev pub IsWithin : ℕ → Planned → Type 0
IsWithin max_fanout (planned fan) = fan.fanned ≡ true → length fan.calls ≤ max_fanout
IsWithin max_fanout (refused before now) = Unit

-- The calls that one attempt may make: a step without fan-out makes one.
abbrev pub attempt_limit : ℕ → ℕ
attempt_limit max_fanout = max 1 max_fanout

module _ {W : Type 0} (c l : ℕ) (services : Services W) (setting : Setting) where
  abbrev pub one_attempt : ℕ
  one_attempt = attempt_limit setting.plan_max_fanout * c

  fail_step-Spends : (step : Step) (error : StepError) → Spends {W = W} c l 0 (fail_step step error)
  unfolding fail_step
  fail_step-Spends step error = Spends-first c l 0 _ _ (emit-Spends c l _) (λ u. unchanged c l 0)

  planned_of-Spends : (x : Result CallFault FanPlan) → Spends {W = W} c l 0 (planned_of x)
  unfolding planned_of
  planned_of-Spends (ok fan) = unchanged c l 0
  planned_of-Spends (err (fanout_error before now)) = unchanged c l 0
  planned_of-Spends (err e) = unchanged c l 0

  plan_calls-Spends : (step : Step) → Spends {W = W} c l 0 (plan_calls setting step)
  unfolding plan_calls
  plan_calls-Spends step =
      Spends-first c l 0 _ _ (get_results-Spends c l) (λ results. planned_of-Spends _)

  planned_of-IsWithin :
      (x : Result CallFault FanPlan) (r : RunState W)
      → ((fan : FanPlan) → x ≡ ok fan → IsBounded setting.plan_max_fanout fan)
      → Ensures (IsWithin setting.plan_max_fanout) (planned_of x r).0
  unfolding planned_of
  planned_of-IsWithin (ok fan) r h = IsBounded.fan (h fan refl)
  planned_of-IsWithin (err (fanout_error before now)) r h = tt
  planned_of-IsWithin (err e) r h = tt

  plan_calls-IsWithin :
      (step : Step)
      → Returns {W = W} c l (IsWithin setting.plan_max_fanout) (plan_calls setting step)
  unfolding plan_calls ◌>>=◌ stpp_connector.Runner.Effects.get_results
  plan_calls-IsWithin step r =
      planned_of-IsWithin (plan_step_calls step.args r.results setting.plan_max_fanout) r
        (plan_step_calls-IsBounded step.args r.results setting.plan_max_fanout)

  attempt-Spends :
      (step : Step) (fan : FanPlan)
      → IsWithin setting.plan_max_fanout (planned fan)
      → Spends c l one_attempt (attempt_calls services step fan)
  attempt-Spends step fan h =
      attempt_calls-Spends c l services step fan one_attempt
        (omega (arith, mul_mono 1 (attempt_limit setting.plan_max_fanout) c (omega arith)))
        (λ e. mul_mono _ _ c (omega (arith, h e)))

  checked_repair-Spends :
      (revised : Value) (vs : List Violation)
      → Spends c l 0 (checked_repair services setting revised vs)
  unfolding checked_repair
  checked_repair-Spends revised [] =
      Spends-first c l 0 _ _ (needs-Spends c l 0 type_raise (step_of revised))
        (λ s. unchanged c l 0)
  checked_repair-Spends revised (v ∷ vs) = unchanged c l 0

  validate_repair-Spends :
      (revised : Value) (completed : List ℕ)
      → Spends c l 0 (validate_repair services setting revised completed)
  unfolding validate_repair
  validate_repair-Spends revised completed =
      Spends-first c l 0 _ _ (lifts-Spends c l 0 check_raise _) (checked_repair-Spends revised)

  revised_step-Spends :
      (step : Step) (completed : List ℕ) (x : Result Text Value)
      → Spends c l 0 (revised_step services setting step completed x)
  unfolding revised_step
  revised_step-Spends step completed (err text) = unchanged c l 0
  revised_step-Spends step completed (ok revised) =
      by_id (same_id step.id (lookup_key (codes "id") revised))
    where
      by_id :
          (b : Bool)
          → Spends c l 0
              (if b then validate_repair services setting revised completed else pure none)
      by_id true = validate_repair-Spends revised completed
      by_id false = unchanged c l 0

  repair_step-Spends :
      (step : Step) (error : ToolFault) (completed : List ℕ)
      → Spends c l l (repair_step services setting step error completed)
  unfolding repair_step
  repair_step-Spends step error completed = Spends-last c l l _ _ (get_intent-Spends c l) (λ intent.
      Spends-first c l l _ _ (ask-Spends c l services _)
        (λ raw. revised_step-Spends step completed _))

  last_outcome-Spends :
      (step : Step) (attempt : Attempt) → Spends c l 0 (last_outcome services setting step attempt)
  unfolding last_outcome
  last_outcome-Spends step (finished outcome) = unchanged c l 0
  last_outcome-Spends step (broken error) = fail_step-Spends step _

  last_attempt-Spends :
      (step : Step) (plan : Planned)
      → IsWithin setting.plan_max_fanout plan
      → Spends c l one_attempt (last_attempt services setting step plan)
  unfolding last_attempt
  last_attempt-Spends step (refused before now) h =
      Spends-more c l 0 one_attempt (fail_step step _) (fail_step-Spends step _) (omega arith)
  last_attempt-Spends step (planned fan) h =
      Spends-first c l one_attempt _ _ (attempt-Spends step fan h) (last_outcome-Spends step)

  run_repaired-Spends :
      (step : Step) (error : ToolFault) (repaired : Option Step)
      → Spends c l one_attempt (run_repaired services setting step error repaired)
  unfolding run_repaired
  run_repaired-Spends step error none =
      Spends-more c l 0 one_attempt (fail_step step _) (fail_step-Spends step _) (omega arith)
  run_repaired-Spends step error (some repaired) =
      Spends-last_when c l (IsWithin setting.plan_max_fanout) one_attempt _ _
        (plan_calls-Spends repaired) (plan_calls-IsWithin repaired) (last_attempt-Spends repaired)

  repair-Spends :
      (step : Step) (error : ToolFault) (completed : List ℕ)
      → Spends c l (l + one_attempt) (repair services setting step error completed)
  unfolding repair
  repair-Spends step error completed =
      Spends-last c l (l + one_attempt) _ _ (emit-Spends c l _) (λ u.
        Spends-bind c l l one_attempt _ _ (repair_step-Spends step error completed)
          (run_repaired-Spends step error))

  after_attempt-Spends :
      (step : Step) (completed : List ℕ) (attempt : Attempt)
      → Spends c l (l + one_attempt) (after_attempt services setting step completed attempt)
  unfolding after_attempt
  after_attempt-Spends step completed (finished outcome) = unchanged c l (l + one_attempt)
  after_attempt-Spends step completed (broken error) = by_code (is_denial error)
    where
      by_code :
          (b : Bool)
          → Spends c l (l + one_attempt) (
              if b
              then fail_step step (denied error.message)
              else repair services setting step error completed)
      by_code true =
          Spends-more c l 0 (l + one_attempt) (fail_step step _) (fail_step-Spends step _)
            (omega arith)
      by_code false = repair-Spends step error completed

  first_attempt-Spends :
      (step : Step) (completed : List ℕ) (plan : Planned)
      → IsWithin setting.plan_max_fanout plan
      → Spends c l
          (one_attempt + (l + one_attempt))
          (first_attempt services setting step completed plan)
  unfolding first_attempt
  first_attempt-Spends step completed (refused before now) h =
      Spends-more c l 0 (one_attempt + (l + one_attempt)) (fail_step step _)
        (fail_step-Spends step _) (omega arith)
  first_attempt-Spends step completed (planned fan) h =
      Spends-bind c l one_attempt (l + one_attempt) _ _ (attempt-Spends step fan h)
        (after_attempt-Spends step completed)

  -- Two attempts and one repair.
  pub execute_step-Spends :
      (step : Step)
      → Spends c l (one_attempt + (l + one_attempt)) (execute_step services setting step)
  unfolding execute_step
  execute_step-Spends step =
      let n = one_attempt + (l + one_attempt) in
      Spends-last c l n _ _ (get_results-Spends c l) (λ results.
        Spends-last c l n _ _ (emit-Spends c l _) (λ u.
          Spends-last_when c l (IsWithin setting.plan_max_fanout) n _ _ (plan_calls-Spends step)
            (plan_calls-IsWithin step) (first_attempt-Spends step _)))
