-- ===== src/Refs/Places.antt =====
-- The places inside a value, and what `find_refs` of services/integration-api/agent/refs.py finds
-- there.
pub mod Sound
pub mod Complete
use stpp_connector.Base.{ℕ, zero, suc, ◌≡◌, some, List, [], ◌∷◌, Text, ok}
use stpp_connector.Json.{Value, Items, Fields, str, arr, obj, cons, field}
use stpp_connector.Refs.Syntax.{Ref, parse_ref}
use stpp_connector.Refs.Find.{Place, key, index}

-- `At args path v`: following the keys and indexes of `path` in `args` leads to `v`.
mutual
  pub data At : Value → List Place → Value → Type 0 where
    here : {v : Value} → At v [] v
    in_list : {vs : Items} {path : List Place} {w : Value} → AtItem vs 0 path w → At (arr vs) path w
    in_dict : {fs : Fields} {path : List Place} {w : Value} → AtField fs path w → At (obj fs) path w

  -- The list starts at the index that is given.
  pub data AtItem : Items → ℕ → List Place → Value → Type 0 where
    this :
        {v : Value} {vs : Items} {i : ℕ} {path : List Place} {w : Value}
        → At v path w
        → AtItem (cons v vs) i (index i ∷ path) w
    later :
        {v : Value} {vs : Items} {i : ℕ} {path : List Place} {w : Value}
        → AtItem vs (suc i) path w
        → AtItem (cons v vs) i path w

  pub data AtField : Fields → List Place → Value → Type 0 where
    named :
        {k : Text} {v : Value} {fs : Fields} {path : List Place} {w : Value}
        → At v path w
        → AtField (field k v fs) (key k ∷ path) w
    after :
        {k : Text} {v : Value} {fs : Fields} {path : List Place} {w : Value}
        → AtField fs path w
        → AtField (field k v fs) path w

-- `ref` is what the text at its place reads as.
abbrev pub IsRefAt : Value → List Place → Ref → Type 0
IsRefAt v path ref = At v path (str ref.raw) × (parse_ref ref.raw ≡ ok (some ref))
