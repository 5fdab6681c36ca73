-- ===== src/Refs/FanOut.antt =====
-- What `plan_step_calls` makes of the references in a step's arguments.
pub mod Bounds
pub mod Handled
pub mod Origin
pub mod Values
pub mod Filled
pub mod Empty
pub mod Counts
use stpp_connector.Base.{ℕ, zero, ◌≡◌, true, false, ◌⊎◌, some, List, [], ◌∷◌, lookup_text, ok}
use stpp_connector.Json.{Value}
use stpp_connector.Refs.Syntax.{Ref, parse_ref}
use stpp_connector.Refs.Resolve.{Results, Resolution, resolve}
use stpp_connector.Refs.Calls.{Chosen}

-- The reference is what its own text reads as.
abbrev pub IsRead : Ref → Type 0
IsRead ref = parse_ref ref.raw ≡ ok (some ref)

-- The loop has taken the reference into account: its values are the fan-out values, or the first
-- of them is bound to its text.
abbrev pub IsHandled : Results → Chosen → Ref → Type 0
IsHandled results c ref =
    (res : Resolution) × (resolve ref results ≡ some res)
    × (((res.fanned ≡ true) × (c.fan_raw ≡ some ref.raw) × (c.fan_values ≡ res.values))
        ⊎ ((res.fanned ≡ false)
            × ((v : Value) × (vs : List Value) × (res.values ≡ v ∷ vs)
                × (lookup_text ref.raw c.scalar ≡ some v))))
