-- ===== src/Registry.antt =====
-- services/mcp-server/app/registry.py and enums.py: the tools that a user sees, with the observed
-- values in their descriptions.
pub mod Erase
pub mod Cache
pub mod Served
use stpp_connector.Base.{
  ℕ, Bool, true, false, ◌&&◌, Option, none, some, List, [], ◌∷◌, ◌++◌, map, Text, codes, text_eq,
  mem_text, join, sorted_texts, lookup_text, put_text, keep_if, if◌then◌else◌,
}
use stpp_connector.Base.Strip.{lstrip, rstrip}
use stpp_connector.Json.{
  Value, Items, Fields, str, arr, obj, nil, cons, end, field, get_field, put_field, lookup_key,
}
use stpp_connector.Dispatch.{has_role}

-- Field names with their values.
abbrev pub Observed : Type 0
Observed = List (Text × List Text)

-- `" | ".join(f"'{v}'" for v in sorted(values))`
abbrev pub quoted : Text → Text
quoted v = codes "'" ++ (v ++ codes "'")

unfoldable pub shown_values : List Text → Text
shown_values values = join (codes " | ") (map quoted (sorted_texts values))

-- `prop.get("description", "")`; a description that is no text stays as it is.
unfoldable pub described : Text → List Text → Text
described old values =
    lstrip (rstrip old ++ (codes " Observed values: " ++ (shown_values values ++ codes ".")))

unfoldable pub is_observed : Fields → Bool
is_observed prop = elim (get_field (codes "x-enum-source") prop) [
  | some (str s) ↦ text_eq s (codes "observed_enums")
  | _ ↦ false
]

unfoldable pub describe : Fields → List Text → Fields
describe prop values = elim (get_field (codes "description") prop) [
  | none ↦ put_field (codes "description") (str (described [] values)) prop
  | some (str old) ↦ put_field (codes "description") (str (described old values)) prop
  | some v ↦ prop
]

-- One property of a schema.
unfoldable pub annotate : Text → Value → Observed → Value
annotate name (obj prop) observed = elim (lookup_text name observed) [
  | none ↦ obj prop
  | some values ↦ if is_observed prop then obj (describe prop values) else obj prop
]
annotate name v observed = v

unfoldable pub annotate_each : Fields → Observed → Fields
annotate_each end observed = end
annotate_each (field name v fs) observed =
    field name (annotate name v observed) (annotate_each fs observed)

-- Under the key "properties", a dict of properties.
unfoldable pub annotate_under : Text → Value → Observed → Value
annotate_under k (obj fs) observed =
    if text_eq k (codes "properties") then obj (annotate_each fs observed) else obj fs
annotate_under k v observed = v

-- `_render_observed`, on a copy: it changes the descriptions in a schema and nothing else, so the
-- parts may be walked before or after the whole.
unfoldable mutual
  pub render_observed : Value → Observed → Value
  render_observed (obj fs) observed = obj (render_fields fs observed)
  render_observed (arr vs) observed = arr (render_items vs observed)
  render_observed v observed = v

  pub render_items : Items → Observed → Items
  render_items nil observed = nil
  render_items (cons v vs) observed = cons (render_observed v observed) (render_items vs observed)

  pub render_fields : Fields → Observed → Fields
  render_fields end observed = end
  render_fields (field k v fs) observed =
      field k (annotate_under k (render_observed v observed) observed) (render_fields fs observed)

-- `_render_observed(tool.get("inputSchema", {}), observed)`
unfoldable pub render_schema : Fields → Observed → Fields
render_schema end observed = end
render_schema (field k v fs) observed =
    if text_eq k (codes "inputSchema")
    then field k (render_observed v observed) fs
    else field k v (render_schema fs observed)

unfoldable pub render_tool : Value → Observed → Value
render_tool (obj tool) observed = obj (render_schema tool observed)
render_tool v observed = v

unfoldable pub render : List Value → Observed → List Value
render defs observed = map (λ t. render_tool t observed) defs

-- `[t for t in rendered if t.get("x-role") in roles]`
unfoldable pub visible : List Value → List Text → List Value
visible rendered roles = keep_if (λ t. has_role t roles) rendered
