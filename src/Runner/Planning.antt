-- ===== src/Runner/Planning.antt =====
-- `_plan_once` and `_plan_with_repair`: the plan, with its one repair.
use stpp_connector.Base.{List, [], ◌∷◌, Text, Result, ok, err}
use stpp_connector.Json.{Value}
use stpp_connector.Validator.Violations.{Violation, not_json}
use stpp_connector.Validator.Checks.{validate_plan}
use stpp_connector.Runner.Reports.{Request, plan_prompt, plan_repair, plan_invalid, check_raise}
use stpp_connector.Runner.Effects.{Services, Setting, M, pure, raise, ◌>>=◌, lifts, ask}
use stpp_connector.Runner.Reply.{parse_json}

-- A plan without violations, or the violations.
pub data Tried : Type 0 where
  valid : Value → Tried
  invalid : List Violation → Tried

abbrev pub tried : Value → List Violation → Tried
tried plan [] = valid plan
tried plan (v ∷ vs) = invalid (v ∷ vs)

module _ {W : Type 0} (services : Services W) (setting : Setting) where
  unfoldable pub check_plan : Result Text Value → M W Tried
  check_plan (err text) = pure (invalid (not_json text ∷ []))
  check_plan (ok plan) = do
    violations ← lifts check_raise (
        validate_plan services.schema_errors plan setting.plan_schema setting.tools setting.observed
          setting.plan_max_steps)
    pure (tried plan violations)

  unfoldable pub plan_once : Request → M W Tried
  plan_once prompt = do raw ← ask services prompt; check_plan (parse_json services.loads raw)

  unfoldable pub last_plan : Tried → M W Value
  last_plan (valid plan) = pure plan
  last_plan (invalid violations) = raise (plan_invalid violations)

  unfoldable pub repaired_plan : Tried → M W Value
  repaired_plan (valid plan) = pure plan
  repaired_plan (invalid violations) = do
    second ← plan_once (plan_repair violations)
    last_plan second

  unfoldable pub plan_with_repair : M W Value
  plan_with_repair = do first ← plan_once plan_prompt; repaired_plan first
