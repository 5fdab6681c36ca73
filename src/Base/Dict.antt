-- ===== src/Base/Dict.antt =====
-- Python dicts with integer keys and with text keys, in insertion order.
use mathlib.Core.Option.{Option, none, some}
use mathlib.Core.List.{List, [], ◌∷◌}
use Prim.Native.Nat.{ℕ}
use stpp_connector.Base.Tests.{if◌then◌else◌, ◌==◌}
use stpp_connector.Base.Strings.{Text, text_eq}

module _ {ℓ} {V : Type ℓ} where
  abbrev pub lookup_id : ℕ → List (ℕ × V) → Option V
  lookup_id k [] = none
  lookup_id k ((j, v) ∷ d) = if j == k then some v else lookup_id k d

  -- `d[k] = v`: a key that is there keeps its place.
  abbrev pub put_id : ℕ → V → List (ℕ × V) → List (ℕ × V)
  put_id k v [] = (k, v) ∷ []
  put_id k v ((j, w) ∷ d) = if j == k then (k, v) ∷ d else (j, w) ∷ put_id k v d

  abbrev pub lookup_text : Text → List (Text × V) → Option V
  lookup_text k [] = none
  lookup_text k ((j, v) ∷ d) = if text_eq j k then some v else lookup_text k d

  abbrev pub put_text : Text → V → List (Text × V) → List (Text × V)
  put_text k v [] = (k, v) ∷ []
  put_text k v ((j, w) ∷ d) = if text_eq j k then (k, v) ∷ d else (j, w) ∷ put_text k v d
