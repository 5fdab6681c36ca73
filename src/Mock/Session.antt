-- ===== src/Mock/Session.antt =====
-- `MockMCPSession` of services/integration-api/agent/mcp_mock.py.
use stpp_connector.Base.{
  Bool, true, false, not, Option, none, some, List, [], ◌∷◌, Text, codes, text_eq, lookup_text,
  mem_text, if◌then◌else◌, Result, ok, err,
}
use stpp_connector.Json.{Value, Fields, str, arr, lookup_key, keys, elements}
use stpp_connector.Mock.Rows.{MockFault, crashed, refusal}
use stpp_connector.Mock.Canned.{canned}

-- A tool's result that a test sets: a dict, a function of the arguments, or an exception.
pub data Fixture : Type 0 where
  gives : Fields → Fixture
  calls : (Fields → Result MockFault Fields) → Fixture
  raises : MockFault → Fixture

unfoldable pub run_fixture : Fixture → Fields → Result MockFault Fields
run_fixture (gives fs) args = ok fs
run_fixture (calls f) args = f args
run_fixture (raises e) args = err e

-- `next((t for t in self._all_defs if t["name"] == tool), None)`, where all have a name.
abbrev pub is_named : Text → Value → Bool
is_named tool d = elim (lookup_key (codes "name") d) [
  | some (str name) ↦ text_eq name tool
  | _ ↦ false
]

unfoldable pub definition_of : Text → List Value → Option Value
definition_of tool [] = none
definition_of tool (d ∷ ds) = if is_named tool d then some d else definition_of tool ds

-- `definition["x-role"] in self._user.roles`, where all have a role.
unfoldable pub may_call : List Text → Value → Bool
may_call roles d = elim (lookup_key (codes "x-role") d) [
  | some (str role) ↦ mem_text role roles
  | _ ↦ false
]

-- The first of `inputSchema.required` that the arguments miss.
abbrev pub is_missing : Fields → Value → Bool
is_missing args (str name) = not (mem_text name (keys args))
is_missing args v = true

unfoldable pub misses_one : Fields → List Value → Bool
misses_one args [] = false
misses_one args (v ∷ vs) = if is_missing args v then true else misses_one args vs

abbrev pub required_in : Value → List Value
required_in schema = elim (lookup_key (codes "required") schema) [
  | some (arr vs) ↦ elements vs
  | _ ↦ []
]

module _ (lower : Text → Text) (deny_orcids : List Text) (roles : List Text) (defs : List Value)
    (fixtures : List (Text × Fixture)) where
  unfoldable pub tools_list : List Value → List Value
  tools_list [] = []
  tools_list (d ∷ ds) = let rest = tools_list ds in if may_call roles d then d ∷ rest else rest

  -- The fixture of the tool, or its canned result.
  unfoldable pub answer : Text → Fields → Result MockFault Fields
  answer tool args = elim (lookup_text tool fixtures) [
    | some fixture ↦ run_fixture fixture args
    | none ↦ canned lower deny_orcids tool args
  ]

  unfoldable pub checked : Text → Fields → Value → Result MockFault Fields
  checked tool args schema =
      if misses_one args (required_in schema)
      then err (refusal (codes "invalid_args") (codes "missing required argument"))
      else answer tool args

  unfoldable pub allowed : Text → Fields → Value → Result MockFault Fields
  allowed tool args definition =
      if may_call roles definition
      then elim (lookup_key (codes "inputSchema") definition) [
        | none ↦ err crashed
        | some schema ↦ checked tool args schema
      ]
      else err (refusal (codes "not_authorized") (codes "user lacks the role"))

  unfoldable pub tools_call : Text → Fields → Result MockFault Fields
  tools_call tool args = elim (definition_of tool defs) [
    | none ↦ err (refusal (codes "invalid_args") (codes "unknown tool"))
    | some definition ↦ allowed tool args definition
  ]
