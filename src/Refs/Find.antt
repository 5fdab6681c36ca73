-- ===== src/Refs/Find.antt =====
-- `find_refs` of services/integration-api/agent/refs.py.
use stpp_connector.Base.{ℕ, suc, Option, none, some, List, [], ◌∷◌, ◌++◌, Text, ok, ◌>>=◌}
use stpp_connector.Json.{Value, Items, Fields, str, arr, obj, nil, cons, end, field}
use stpp_connector.Refs.Syntax.{Ref, Parsed, parse_ref}

-- Dict keys and list indexes, from the outside in.
pub data Place : Type 0 where
  key : Text → Place
  index : ℕ → Place

abbrev pub Found : Type 0
Found = List (List Place × Ref)

abbrev pub ref_at : List Place → Option Ref → Found
ref_at path none = []
ref_at path (some ref) = (path, ref) ∷ []

-- The inner function `walk`; it returns what the call appends to `found`.
unfoldable mutual
  pub walk : Value → List Place → Parsed Found
  walk (obj fs) path = walk_fields fs path
  walk (arr vs) path = walk_items vs path 0
  walk (str s) path = parse_ref s >>= λ ref. ok (ref_at path ref)
  walk v path = ok []

  pub walk_items : Items → List Place → ℕ → Parsed Found
  walk_items nil path i = ok []
  walk_items (cons v vs) path i = walk v (path ++ index i ∷ []) >>= λ found.
      walk_items vs path (suc i) >>= λ more. ok (found ++ more)

  pub walk_fields : Fields → List Place → Parsed Found
  walk_fields end path = ok []
  walk_fields (field k v fs) path =
      walk v (path ++ key k ∷ []) >>= λ found. walk_fields fs path >>= λ more. ok (found ++ more)

unfoldable pub find_refs : Value → Parsed Found
find_refs args = walk args []
