-- ===== src/Refs/Resolve.antt =====
-- `resolve` of services/integration-api/agent/refs.py.
use stpp_connector.Base.{
  ℕ, Bool, true, false, Option, none, some, List, [], ◌∷◌, map, filter_map, flat_map, get_elem?,
  lookup_id,
}
use stpp_connector.Json.{Value, str, arr, obj, elements, keys, lookup_key}
use stpp_connector.Refs.Syntax.{Ref, Segment, field, index, star}

-- `failed` keeps its default, False, in every construction of the program.
pub record StepResult : Type 0 where
  pub value : Value
  pub fanned : Bool
  pub failed : Bool

abbrev pub Results : Type 0
Results = List (ℕ × StepResult)

pub record Resolution : Type 0 where
  pub values : List Value
  pub fanned : Bool

-- `list(v)`: a dict gives its keys and a text its characters; `none` is a TypeError.
unfoldable pub list_of : Value → Option (List Value)
list_of (arr vs) = some (elements vs)
list_of (obj fs) = some (map str (keys fs))
list_of (str s) = some (map (λ c. str (c ∷ [])) s)
list_of v = none

-- `v[n]` for a list that is long enough.
unfoldable pub item_at : ℕ → Value → Option Value
item_at n (arr vs) = get_elem? (elements vs) n
item_at n v = none

unfoldable pub items_in : Value → List Value
items_in (arr vs) = elements vs
items_in v = []

-- The loop over the segments, from the values and the flag that it starts with.
unfoldable pub follow : List Segment → List Value → Bool → Resolution
follow [] values fanned = record { values = values; fanned = fanned }
follow (field name ∷ segments) values fanned =
    follow segments (filter_map (lookup_key name) values) fanned
follow (index n ∷ segments) values fanned = follow segments (filter_map (item_at n) values) fanned
follow (star ∷ segments) values fanned = follow segments (flat_map items_in values) true

unfoldable pub start_values : StepResult → Option (List Value)
start_values target = elim target.fanned [
  | true ↦ list_of target.value
  | false ↦ some (target.value ∷ [])
]

-- `none` is the TypeError of `list`.
unfoldable pub resolve : Ref → Results → Option Resolution
resolve ref results = elim (lookup_id ref.step_id results) [
  | none ↦ some (record { values = []; fanned = false })
  | some target ↦ elim (start_values target) [
    | none ↦ none
    | some values ↦ some (follow ref.segments values target.fanned)
  ]
]
