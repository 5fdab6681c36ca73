-- ===== src/Json.antt =====
-- JSON values as Python's `json` reads them: None, bool, int, float, str, list and dict. These are
-- the plan documents, tool definitions, tool arguments and tool results of all services.
use stpp_connector.Base.{
  ℕ, zero, Bool, true, false, not, Option, none, some, List, [], ◌∷◌, Text, text_eq, is_empty,
  if◌then◌else◌,
}

-- `negsuc n` is -(n + 1).
pub data ℤ : Type 0 where
  pos : ℕ → ℤ
  negsuc : ℕ → ℤ

-- A float that is a whole number is the `int` it equals; any other is its literal.
mutual
  pub data Value : Type 0 where
    null : Value
    bool : Bool → Value
    int : ℤ → Value
    float : Text → Value
    obj : Fields → Value
    arr : Items → Value
    str : Text → Value

  pub data Fields : Type 0 where
    end : Fields
    field : Text → Value → Fields → Fields

  pub data Items : Type 0 where
    nil : Items
    cons : Value → Items → Items

-- The elements of a list value, and a list value of given elements.
unfoldable pub elements : Items → List Value
elements nil = []
elements (cons v vs) = v ∷ elements vs

unfoldable pub items_of : List Value → Items
items_of [] = nil
items_of (v ∷ vs) = cons v (items_of vs)

-- `d.get(key)` on the entries of a dict.
unfoldable pub get_field : Text → Fields → Option Value
get_field k end = none
get_field k (field j v fs) = if text_eq j k then some v else get_field k fs

-- `d[key] = v`: a key that is there keeps its place.
unfoldable pub put_field : Text → Value → Fields → Fields
put_field k v end = field k v end
put_field k v (field j w fs) = if text_eq j k then field k v fs else field j w (put_field k v fs)

-- `list(d)`: the keys in their order.
unfoldable pub keys : Fields → List Text
keys end = []
keys (field k v fs) = k ∷ keys fs

-- `v[key]` for a value that is a dict and has the key; `none` for any other.
unfoldable pub lookup_key : Text → Value → Option Value
unfolding get_field
lookup_key k (obj fs) = get_field k fs
lookup_key k v = none

-- `bool(v)`
unfoldable pub truthy : Value → Bool
truthy null = false
truthy (bool b) = b
truthy (int (pos zero)) = false
truthy (int z) = true
truthy (float t) = true
truthy (str s) = not (is_empty s)
truthy (arr nil) = false
truthy (arr (cons v vs)) = true
truthy (obj end) = false
truthy (obj (field k v fs)) = true

-- `isinstance(v, dict)` and `isinstance(v, list)`
abbrev pub is_dict : Value → Bool
is_dict (obj fs) = true
is_dict v = false

abbrev pub is_list : Value → Bool
is_list (arr vs) = true
is_list v = false
