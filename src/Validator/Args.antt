-- ===== src/Validator/Args.antt =====
-- Checks 2 and 3 of services/integration-api/agent/validator.py: the tool is there, and the
-- arguments fit its schema and the observed values.
use stpp_connector.Base.{
  ℕ, zero, suc, Bool, true, false, not, ◌&&◌, ◌||◌, Option, none, some, List, [], ◌∷◌, ◌++◌, Text,
  codes, text_eq, mem_text, lookup_text, if◌then◌else◌, ◌==◌,
}
use stpp_connector.Json.{
  Value, Items, Fields, str, arr, obj, nil, cons, end, field, lookup_key, get_field,
}
use stpp_connector.Plan.{Step}
use stpp_connector.Validator.Violations.{Violation, tool_unavailable, unobserved_value}

-- `ToolIndex.defs`: the tools of the session by name.
abbrev pub ToolIndex : Type 0
ToolIndex = List (Text × Value)

abbrev pub ObservedEnums : Type 0
ObservedEnums = List (Text × List Text)

abbrev pub is_available : Text → ToolIndex → Bool
is_available name tools = elim (lookup_text name tools) [ none ↦ false | some def ↦ true ]

abbrev value_or : Value → Option Value → Value
value_or d none = d
value_or d (some v) = v

-- `self.defs[name].get("inputSchema", {"type": "object"})`
unfoldable pub input_schema : Value → Value
input_schema def =
    value_or (obj (field (codes "type") (str (codes "object")) end))
      (lookup_key (codes "inputSchema") def)

unfoldable pub tool_violations : Step → ToolIndex → List Violation
tool_violations step tools =
    if is_available step.tool tools then [] else tool_unavailable step.id step.tool ∷ []

abbrev pub placeholder : Text
placeholder = codes "resolved-at-execution-time"

unfoldable mutual
  pub mask_refs : Value → List Text → Value
  mask_refs (obj fs) raws = obj (mask_fields fs raws)
  mask_refs (arr vs) raws = arr (mask_items vs raws)
  mask_refs (str s) raws = str (if mem_text s raws then placeholder else s)
  mask_refs v raws = v

  pub mask_items : Items → List Text → Items
  mask_items nil raws = nil
  mask_items (cons v vs) raws = cons (mask_refs v raws) (mask_items vs raws)

  pub mask_fields : Fields → List Text → Fields
  mask_fields end raws = end
  mask_fields (field k v fs) raws = field k (mask_refs v raws) (mask_fields fs raws)

-- `text.lstrip("#/")`
unfoldable pub strip_hash : Text → Text
strip_hash [] = []
strip_hash (c ∷ s) = if (c == b'#') || (c == b'/') then strip_hash s else c ∷ s

abbrev cons_head : ℕ → List Text → List Text
cons_head c [] = (c ∷ []) ∷ []
cons_head c (t ∷ ts) = (c ∷ t) ∷ ts

-- `text.split("/")`
unfoldable pub split_slash : Text → List Text
split_slash [] = [] ∷ []
split_slash (c ∷ s) =
    let parts = split_slash s in if c == b'/' then [] ∷ parts else cons_head c parts

-- `for part in parts: target = target[part]`
unfoldable pub walk_parts : List Text → Value → Option Value
walk_parts [] target = some target
walk_parts (p ∷ ps) target = elim (lookup_key p target) [ none ↦ none | some v ↦ walk_parts ps v ]

abbrev ref_target : Value → Value → Option Value
ref_target (str r) root = walk_parts (split_slash (strip_hash r)) root
ref_target v root = none

-- The loop of `_deref`, on fuel: `none` is a KeyError or TypeError, or a chain of `$ref` longer
-- than the fuel, where the program may loop for ever.
unfoldable pub deref : ℕ → Value → Value → Option Value
deref zero node root = elim (lookup_key (codes "$ref") node) [ none ↦ some node | some r ↦ none ]
deref (suc fuel) node root = elim (lookup_key (codes "$ref") node) [
  | none ↦ some node
  | some r ↦ elim (ref_target r root) [ none ↦ none | some target ↦ deref fuel target root ]
]

-- In contracts/mcp-tools a `$ref` leads to a schema that is no `$ref` itself: one round is enough.
abbrev pub max_ref_chain : ℕ
max_ref_chain = 32

-- `d.get(key, default)` where `d` must be a dict.
abbrev dict_get : Text → Value → Value → Option Value
dict_get k d (obj fs) = some (value_or d (get_field k fs))
dict_get k d v = none

abbrev empty_dict : Value
empty_dict = obj end

-- The part of a property schema that the check reads.
unfoldable pub is_enum_property : Value → Bool
is_enum_property schema = elim (lookup_key (codes "x-enum-source") schema) [
  | some (str s) ↦ text_eq s (codes "observed_enums")
  | _ ↦ false
]

unfoldable pub literal_violations : ℕ → Text → Text → Option (List Text) → List Violation
literal_violations n key value none = []
literal_violations n key value (some observed) =
    if mem_text value observed then [] else unobserved_value n key value ∷ []

-- A text that is no reference, in a property whose values are observed.
unfoldable pub checked_literal : Value → List Text → Value → Option Text
checked_literal schema raws (str s) =
    if is_enum_property schema && not (mem_text s raws) then some s else none
checked_literal schema raws v = none

module _ (step_id : ℕ) (root : Value) (raws : List Text) (observed : ObservedEnums) where
  unfoldable mutual
    pub enum_violations : Value → Value → Option (List Violation)
    enum_violations (obj fs) schema = elim (deref max_ref_chain schema root) [
      | none ↦ none
      | some (obj node) ↦ elim (get_field (codes "properties") node) [
        | none ↦ enum_fields fs empty_dict
        | some properties ↦ enum_fields fs properties
      ]
      | some other ↦ some []
    ]
    enum_violations (arr vs) schema = elim (deref max_ref_chain schema root) [
      | none ↦ none
      | some (obj node) ↦ enum_items vs (value_or empty_dict (get_field (codes "items") node))
      | some other ↦ some []
    ]
    enum_violations v schema = elim (deref max_ref_chain schema root) [
      | none ↦ none
      | some node ↦ some []
    ]

    pub enum_items : Items → Value → Option (List Violation)
    enum_items nil schema = some []
    enum_items (cons v vs) schema = elim (enum_violations v schema) [
      | none ↦ none
      | some here ↦ elim (enum_items vs schema) [ none ↦ none | some more ↦ some (here ++ more) ]
    ]

    pub enum_fields : Fields → Value → Option (List Violation)
    enum_fields end properties = some []
    enum_fields (field k v fs) properties = elim (dict_get k empty_dict properties) [
      | none ↦ none
      | some declared ↦ elim (deref max_ref_chain declared root) [
        | none ↦ none
        | some schema ↦ elim (checked_literal schema raws v) [
          | some s ↦ elim (enum_fields fs properties) [
            | none ↦ none
            | some more ↦ some (literal_violations step_id k s (lookup_text k observed) ++ more)
          ]
          | none ↦ elim (enum_violations v schema) [
            | none ↦ none
            | some here ↦ elim (enum_fields fs properties) [
              | none ↦ none
              | some more ↦ some (here ++ more)
            ]
          ]
        ]
      ]
    ]
