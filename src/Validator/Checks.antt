-- ===== src/Validator/Checks.antt =====
-- `validate_plan` and `validate_step` of services/integration-api/agent/validator.py.
--
-- `schema_errors schema document` stands for the errors that the jsonschema package reports, as
-- texts and sorted. A document that passes its schema but is read as no plan is a raise.
use stpp_connector.Base.{
  ℕ, Option, none, some, List, [], ◌∷◌, ◌++◌, map, Text, codes, length, flat_map, lookup_text,
  Result, ok, err, ◌>>=◌, if◌then◌else◌, ltb,
}
use stpp_connector.Json.{Value, lookup_key}
use stpp_connector.Plan.{Step, Plan}
use stpp_connector.Plan.Read.{plan_of, step_of}
use stpp_connector.Refs.Syntax.{Ref, Parsed, syntax_error}
use stpp_connector.Refs.Find.{Found, find_refs}
use stpp_connector.Refs.Calls.{found_refs}
use stpp_connector.Validator.Violations.{
  Violation, schema_error, malformed_reference, args_error, too_many_steps, Raise, ref_raise,
  lookup_error,
}
use stpp_connector.Validator.Graph.{target_violations, dependency_violations, graph_violations}
use stpp_connector.Validator.Args.{
  ToolIndex, ObservedEnums, input_schema, tool_violations, mask_refs, enum_violations,
}

abbrev pub Checked : Type 0 → Type 0
Checked A = Result Raise A

abbrev pub lifted : {A : Type 0} → Parsed A → Checked A
lifted (ok a) = ok a
lifted (err e) = err (ref_raise e)

abbrev pub needed : {A : Type 0} → Option A → Checked A
needed none = err lookup_error
needed (some a) = ok a

abbrev pub raws_of : Found → List Text
raws_of found = map (λ r. Ref.raw r) (found_refs found)

-- `if len(steps) > max_steps`
unfoldable pub budget_violations : ℕ → ℕ → List Violation
budget_violations max_steps n = if ltb max_steps n then too_many_steps n max_steps ∷ [] else []

-- The end of `validate_step`, where RefSyntaxError is caught.
unfoldable pub repaired_references : List ℕ → Step → Parsed Found → Checked (List Violation)
repaired_references valid_dep_ids step (ok found) = ok (target_violations valid_dep_ids step found)
repaired_references valid_dep_ids step (err (syntax_error kind raw)) =
    ok (malformed_reference step.id ∷ [])
repaired_references valid_dep_ids step (err e) = err (ref_raise e)

module _ (schema_errors : Value → Value → List Text) where
  unfoldable pub schema_violations : Value → Value → List Violation
  schema_violations document schema = map schema_error (schema_errors schema document)

  -- The part of `_args_violations` below the lookup of the tool.
  unfoldable pub shape_violations :
      Step → Value → ObservedEnums → Parsed Found → Checked (List Violation)
  shape_violations step schema observed (ok found) =
      needed (enum_violations step.id schema (raws_of found) observed step.args schema) >>= λ more.
      ok (
        map (args_error step.id) (schema_errors schema (mask_refs step.args (raws_of found)))
        ++ more)
  shape_violations step schema observed (err (syntax_error kind raw)) =
      ok (malformed_reference step.id ∷ [])
  shape_violations step schema observed (err e) = err (ref_raise e)

  unfoldable pub args_violations : Step → ToolIndex → ObservedEnums → Checked (List Violation)
  args_violations step tools observed = elim (lookup_text step.tool tools) [
    | none ↦ ok []
    | some def ↦ shape_violations step (input_schema def) observed (find_refs step.args)
  ]

  unfoldable pub all_args_violations :
      List Step → ToolIndex → ObservedEnums → Checked (List Violation)
  all_args_violations [] tools observed = ok []
  all_args_violations (s ∷ ss) tools observed = args_violations s tools observed >>= λ here.
      all_args_violations ss tools observed >>= λ more. ok (here ++ more)

  -- Checks 2 to 5.
  unfoldable pub steps_violations :
      List Step → ToolIndex → ObservedEnums → ℕ → Checked (List Violation)
  steps_violations steps tools observed max_steps =
      all_args_violations steps tools observed >>= λ shapes.
      lifted (graph_violations steps) >>= λ graph. ok (
        flat_map (λ s. tool_violations s tools) steps
        ++ (shapes ++ (graph ++ budget_violations max_steps (length steps))))

  unfoldable pub validate_plan :
      Value → Value → ToolIndex → ObservedEnums → ℕ → Checked (List Violation)
  validate_plan plan schema tools observed max_steps = elim (schema_violations plan schema) [
    | [] ↦ needed (plan_of plan) >>= λ read.
        steps_violations (Plan.steps read) tools observed max_steps
    | v ∷ vs ↦ ok (v ∷ vs)
  ]

  -- `schema["$defs"]["step"]`
  unfoldable pub step_schema : Value → Option Value
  step_schema schema = elim (lookup_key (codes "$defs") schema) [
    | none ↦ none
    | some defs ↦ lookup_key (codes "step") defs
  ]

  unfoldable pub step_checks : Step → ToolIndex → ObservedEnums → List ℕ → Checked (List Violation)
  step_checks step tools observed valid_dep_ids = args_violations step tools observed >>= λ shape.
      repaired_references valid_dep_ids step (find_refs step.args) >>= λ references. ok (
        tool_violations step tools
        ++ (shape ++ (dependency_violations valid_dep_ids step ++ references)))

  unfoldable pub validate_step :
      Value → Value → ToolIndex → ObservedEnums → List ℕ → Checked (List Violation)
  validate_step step schema tools observed valid_dep_ids = needed (step_schema schema) >>= λ wanted.
      elim (schema_violations step wanted) [
        | [] ↦ needed (step_of step) >>= λ read. step_checks read tools observed valid_dep_ids
        | v ∷ vs ↦ ok (v ∷ vs)
      ]
