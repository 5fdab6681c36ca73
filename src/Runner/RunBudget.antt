-- ===== src/Runner/RunBudget.antt =====
-- What a whole query may spend.
use stpp_connector.Base.{
  ℕ, ◌+◌, ◌*◌, ◌≡◌, refl, sym, ◌∙◌, Option, none, some, List, [], ◌∷◌, Text, length, Result, ok,
  err, Ensures, arith,
}
use stpp_connector.Base.Perms.{length-Perm}
use stpp_connector.Json.{Value}
use stpp_connector.Plan.{Step, Plan}
use stpp_connector.Order.{topological_order}
use stpp_connector.Order.Accepted.{IsAccepted}
use stpp_connector.Validator.Violations.{Violation, Raise}
use stpp_connector.Validator.Checks.{validate_plan}
use stpp_connector.Runner.Reports.{check_raise, type_raise, endless, plan_prompt, Request}
use stpp_connector.Runner.Effects.{Services, Setting, pure, bound, ◌>>=◌, lifts}
use stpp_connector.Runner.Planning.{
  Tried, valid, invalid, tried, check_plan, plan_once, last_plan, repaired_plan, plan_with_repair,
}
use stpp_connector.Runner.Run.{
  Progress, skip_step, failed_dep, add_report, run_step, run_steps, run_in_order, execute, run_plan,
}
use stpp_connector.Runner.Costs.{
  suc_mul, Spends, Returns, Returns-bind, Returns-bind_when, unchanged, Spends-more, Spends-bind,
  Spends-first, Spends-last, Spends-last_when, needs-Spends, needs-Returns, lifts-Spends,
  emit-Spends, set_intent-Spends, ask-Spends,
}
use stpp_connector.Runner.StepBudget.{one_attempt, execute_step-Spends}

-- The validator reported nothing for the document.
abbrev pub IsChecked : {W : Type 0} → Services W → Setting → Value → Type 0
IsChecked services setting document =
    validate_plan services.schema_errors document setting.plan_schema setting.tools setting.observed
      setting.plan_max_steps
    ≡ ok []

module _ {W : Type 0} (c l : ℕ) (services : Services W) (setting : Setting) where
  abbrev pub one_step : ℕ
  one_step = one_attempt c l services setting + (l + one_attempt c l services setting)

  skip_step-Spends : (step : Step) (dep : ℕ) → Spends {W = W} c l 0 (skip_step step dep)
  unfolding skip_step
  skip_step-Spends step dep = Spends-first c l 0 _ _ (emit-Spends c l _) (λ u. unchanged c l 0)

  run_step-Spends :
      (step : Step) (dep : Option ℕ) → Spends c l one_step (run_step services setting step dep)
  unfolding run_step
  run_step-Spends step (some dep) =
      Spends-more c l 0 one_step (skip_step step dep) (skip_step-Spends step dep) (omega arith)
  run_step-Spends step none = execute_step-Spends c l services setting step

  run_steps-Spends :
      (steps : List Step) (p : Progress)
      → Spends c l (length steps * one_step) (run_steps services setting steps p)
  unfolding run_steps
  run_steps-Spends [] p = unchanged c l _
  run_steps-Spends (step ∷ steps) p = rw (suc_mul (length steps) one_step) (
      Spends-bind c l one_step (length steps * one_step) _ _
        (run_step-Spends step (failed_dep p.failed_ids step))
        (λ outcome. run_steps-Spends steps (add_report step.id outcome p)))

  run_in_order-Spends :
      (steps ordered : List Step)
      → Spends c l (length ordered * one_step) (run_in_order services setting steps ordered)
  unfolding run_in_order
  run_in_order-Spends steps ordered =
      Spends-first c l (length ordered * one_step) _ _ (run_steps-Spends ordered _)
        (λ p. needs-Spends c l 0 type_raise _)

  execute-Spends :
      (steps : List Step)
      → IsAccepted setting.tools setting.plan_max_steps steps
      → Spends c l (length steps * one_step) (execute services setting steps)
  unfolding execute
  execute-Spends steps h =
      Spends-last_when c l (λ o. topological_order steps ≡ some o) (length steps * one_step) _ _
        (needs-Spends c l 0 endless _) (needs-Returns c l endless _) in_order
    where
      in_order :
          (ordered : List Step)
          → topological_order steps ≡ some ordered
          → Spends c l (length steps * one_step) (run_in_order services setting steps ordered)
      in_order ordered e =
          let (o, f, is_order) = h.has_order in
          let same : length steps ≡ length ordered = sym (length-Perm is_order.rearranged) ∙ cc in
          rw same (run_in_order-Spends steps ordered)

  -- A tried plan that is valid has been checked.
  abbrev IsTriedChecked : Tried → Type 0
  IsTriedChecked (valid document) = IsChecked services setting document
  IsTriedChecked (invalid violations) = Unit

  check_plan-Spends : (x : Result Text Value) → Spends c l 0 (check_plan services setting x)
  unfolding check_plan
  check_plan-Spends (err text) = unchanged c l 0
  check_plan-Spends (ok plan) =
      Spends-first c l 0 _ _ (lifts-Spends c l 0 check_raise _) (λ vs. unchanged c l 0)

  check_plan-IsTriedChecked :
      (x : Result Text Value) → Returns c l IsTriedChecked (check_plan services setting x)
  unfolding check_plan ◌>>=◌
  check_plan-IsTriedChecked (err text) r = tt
  check_plan-IsTriedChecked (ok plan) r =
      by_result
        (validate_plan services.schema_errors plan setting.plan_schema setting.tools
          setting.observed setting.plan_max_steps)
        refl
    where
      by_result :
          (x : Result Raise (List Violation))
          → validate_plan services.schema_errors plan setting.plan_schema setting.tools
              setting.observed setting.plan_max_steps
            ≡ x
          → Ensures IsTriedChecked
              (bound
                (lifts check_raise x r).0
                (lifts check_raise x r).1
                (λ vs. pure (tried plan vs))).0
      by_result (ok []) e = e
      by_result (ok (v ∷ vs)) e = tt
      by_result (err e) k = tt

  plan_once-Spends : (prompt : Request) → Spends c l l (plan_once services setting prompt)
  unfolding plan_once
  plan_once-Spends prompt =
      Spends-first c l l _ _ (ask-Spends c l services prompt) (λ raw. check_plan-Spends _)

  plan_once-IsTriedChecked :
      (prompt : Request) → Returns c l IsTriedChecked (plan_once services setting prompt)
  unfolding plan_once
  plan_once-IsTriedChecked prompt =
      Returns-bind c l IsTriedChecked _ _ (λ raw. check_plan-IsTriedChecked _)

  last_plan-Spends : (second : Tried) → Spends c l 0 (last_plan services setting second)
  unfolding last_plan
  last_plan-Spends (valid plan) = unchanged c l 0
  last_plan-Spends (invalid violations) = unchanged c l 0

  repaired_plan-Spends : (first : Tried) → Spends c l l (repaired_plan services setting first)
  unfolding repaired_plan
  repaired_plan-Spends (valid plan) = unchanged c l l
  repaired_plan-Spends (invalid violations) =
      Spends-first c l l _ _ (plan_once-Spends _) last_plan-Spends

  last_plan-IsChecked :
      (second : Tried)
      → IsTriedChecked second
      → Returns c l (IsChecked services setting) (last_plan services setting second)
  unfolding last_plan
  last_plan-IsChecked (valid plan) h r = h
  last_plan-IsChecked (invalid violations) h r = tt

  repaired_plan-IsChecked :
      (first : Tried)
      → IsTriedChecked first
      → Returns c l (IsChecked services setting) (repaired_plan services setting first)
  unfolding repaired_plan
  repaired_plan-IsChecked (valid plan) h r = h
  repaired_plan-IsChecked (invalid violations) h r =
      Returns-bind_when c l IsTriedChecked (IsChecked services setting) _ _
        (plan_once-IsTriedChecked _) last_plan-IsChecked r

  pub plan_with_repair-Spends : Spends c l (l + l) (plan_with_repair services setting)
  unfolding plan_with_repair
  plan_with_repair-Spends =
      Spends-bind c l l l _ _ (plan_once-Spends plan_prompt) repaired_plan-Spends

  pub plan_with_repair-IsChecked :
      Returns c l (IsChecked services setting) (plan_with_repair services setting)
  unfolding plan_with_repair
  plan_with_repair-IsChecked =
      Returns-bind_when c l IsTriedChecked (IsChecked services setting) _ _
        (plan_once-IsTriedChecked plan_prompt) repaired_plan-IsChecked

  pub run_plan-Spends :
      (document : Value) (plan : Plan)
      → IsAccepted setting.tools setting.plan_max_steps plan.steps
      → Spends c l (length plan.steps * one_step + l) (run_plan services setting document plan)
  unfolding run_plan
  run_plan-Spends document plan h =
      let n = length plan.steps * one_step + l in
      Spends-last c l n _ _ (set_intent-Spends c l _) (λ a.
        Spends-last c l n _ _ (emit-Spends c l _) (λ b.
          Spends-last c l n _ _ (emit-Spends c l _) (λ d.
            Spends-bind c l (length plan.steps * one_step) l _ _ (execute-Spends plan.steps h)
              (λ reports. Spends-last c l l _ _ (emit-Spends c l _) (λ e.
                Spends-first c l l _ _ (ask-Spends c l services _)
                  (λ answer. Spends-first c l 0 _ _ (emit-Spends c l _) (λ f. unchanged c l 0)))))))
