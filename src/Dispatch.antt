-- ===== src/Dispatch.antt =====
-- `_dispatch_tool_call` of services/mcp-server/app/main.py, with ToolError, the registry's lookup
-- and the audit record of errors.py, registry.py and audit.py.
pub mod Gate
use stpp_connector.Base.{
  ℕ, Bool, true, false, Option, none, some, List, [], ◌∷◌, ◌++◌, Text, codes, mem_text, length,
  lookup_text, is_empty, Result, ok, err, ◌>>=◌, if◌then◌else◌,
}
use stpp_connector.Json.{Value, Fields, str, obj, end, field, get_field, lookup_key}

-- What a handler does: it returns a dict, raises a ToolError, or raises anything else.
pub data Fault : Type 0 where
  tool_error : Text → Text → Fault
  crash : Fault

abbrev pub Handled : Type 0
Handled = Result Fault Fields

-- `UserContext`
pub record User : Type 0 where
  pub sub : Text
  pub name : Text
  pub component : Text
  pub roles : List Text

-- The fields of the audit record, without the two times.
pub record Audit : Type 0 where
  pub sub : Text
  pub component : Text
  pub tool : Text
  pub args : Fields
  pub result_count : Option Value
  pub result_bytes : ℕ
  pub outcome : Text

-- What a call leaves behind: the handler that ran, and the audit record.
pub data Trace : Type 0 where
  ran : Text → Fields → Trace
  audited : Audit → Trace

-- A handler acts on the pool or the WDP client; `W` is their state.
abbrev pub Handler : Type 0 → Type 0
Handler W = Fields → W → Handled × W

pub record ServerState (W : Type 0) : Type 0 where
  pub world : W
  pub trace : List Trace

-- `tool.get("x-role") in user.roles`
unfoldable pub has_role : Value → List Text → Bool
has_role tool roles = elim (lookup_key (codes "x-role") tool) [
  | some (str role) ↦ mem_text role roles
  | _ ↦ false
]

-- `{"error": {"code": code, "message": message}}`
abbrev pub error_result : Text → Text → Fields
error_result code message =
    field (codes "error")
      (obj (field (codes "code") (str code) (field (codes "message") (str message) end))) end

-- The two `except` clauses: the outcome and the result.
unfoldable pub outcome_of : Handled → Text × Fields
outcome_of (ok result) = (codes "ok", result)
outcome_of (err (tool_error code message)) = (code, error_result code message)
outcome_of (err crash) = (
  codes "upstream_unavailable",
  error_result (codes "upstream_unavailable") (codes "internal error"),
)

-- `meta.get("returned") if meta else None`, for a `meta` that is a dict.
unfoldable pub count_in : Fields → Option Value
count_in result = elim (get_field (codes "meta") result) [
  | some (obj meta) ↦ get_field (codes "returned") meta
  | _ ↦ none
]

-- `schema_errors schema arguments` stands for the errors of the jsonschema package, each as the
-- text that the message shows; `joined` is the "; ".join of them, and `dumps` is `json.dumps`.
module _ {W : Type 0} (schema_errors : Value → Fields → List Text) (joined : List Text → Text)
    (dumps : Fields → Text) (registry : List (Text × Value))
    (handlers : List (Text × Handler W)) where
  -- `_validate_arguments`
  unfoldable pub validate_arguments : Value → Fields → Result Fault (Unit {0})
  validate_arguments schema arguments = elim (schema_errors schema arguments) [
    | [] ↦ ok tt
    | e ∷ es ↦ err (tool_error (codes "invalid_args") (joined (e ∷ es)))
  ]

  -- What is checked before the handler is called; a missing key is a crash. The two
  -- messages stand without the values that the program formats into them.
  unfoldable pub admitted : User → Text → Fields → Result Fault (Handler W)
  admitted user name arguments = elim (lookup_text name registry) [
    | none ↦ err (tool_error (codes "invalid_args") (codes "unknown tool"))
    | some tool ↦
        if has_role tool user.roles
        then elim (lookup_key (codes "inputSchema") tool) [
          | none ↦ err crash
          | some schema ↦ validate_arguments schema arguments >>= λ u.
              elim (lookup_text name handlers) [ none ↦ err crash | some handler ↦ ok handler ]
        ]
        else err (tool_error (codes "not_authorized") (codes "role required to call the tool"))
  ]

  -- The handler, if it is reached.
  unfoldable pub handle :
      Text → Fields → Result Fault (Handler W) → ServerState W → Handled × ServerState W
  handle name arguments (err e) s = (err e, s)
  handle name arguments (ok handler) s =
      let (result, world) = handler arguments s.world in
      (result, record { world = world; trace = s.trace ++ ran name arguments ∷ [] })

  -- `emit_audit`
  unfoldable pub audit : User → Text → Fields → Text × Fields → Audit
  audit user name arguments (outcome, result) = record {
    sub = user.sub;
    component = user.component;
    tool = name;
    args = arguments;
    result_count = count_in result;
    result_bytes = length (dumps result);
    outcome = outcome;
  }

  unfoldable pub dispatch_tool_call : User → Text → Fields → ServerState W → Fields × ServerState W
  dispatch_tool_call user name arguments s =
      let (handled, after) = handle name arguments (admitted user name arguments) s in
      let ended = outcome_of handled in
      (
        ended.1,
        record after { trace = after.trace ++ audited (audit user name arguments ended) ∷ [] },
      )
