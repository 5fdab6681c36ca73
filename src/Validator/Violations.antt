-- ===== src/Validator/Violations.antt =====
-- The violations, each with the values that its message shows.
use stpp_connector.Base.{ℕ, List, Text}
use stpp_connector.Refs.Syntax.{RefFault}

pub data Violation : Type 0 where
  -- a structural error of the document, with the message of the schema library
  schema_error : Text → Violation
  tool_unavailable : ℕ → Text → Violation
  malformed_reference : ℕ → Violation
  args_error : ℕ → Text → Violation
  -- step, argument name and value
  unobserved_value : ℕ → Text → Text → Violation
  duplicate_ids : List ℕ → Violation
  -- step and dependency
  unknown_dependency : ℕ → ℕ → Violation
  several_stars : ℕ → List Text → Violation
  -- step, reference and its target
  unknown_target : ℕ → Text → ℕ → Violation
  undeclared_target : ℕ → Text → ℕ → Violation
  cycle : List ℕ → Violation
  -- steps and budget
  too_many_steps : ℕ → ℕ → Violation
  -- the reply that should be a plan is no JSON; the runner reports it as a violation
  not_json : Text → Violation

-- What a check raises beside returning violations: the plain ValueError of `parse_ref`, or a
-- KeyError, TypeError or endless `$ref` chain in a document or a tool schema of another shape.
pub data Raise : Type 0 where
  ref_raise : RefFault → Raise
  lookup_error : Raise
