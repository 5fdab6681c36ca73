-- ===== src/Refs/Calls.antt =====
-- `_substitute` and `plan_step_calls` of services/integration-api/agent/refs.py.
use stpp_connector.Base.{
  ℕ, ◌-◌, Bool, true, false, Option, none, some, List, [], ◌∷◌, map, Text, text_eq, take, length,
  lookup_text, Result, ok, err, ◌>>=◌, if◌then◌else◌,
}
use stpp_connector.Json.{Value, Items, Fields, str, arr, obj, nil, cons, end, field}
use stpp_connector.Refs.Syntax.{Ref, RefFault, Parsed}
use stpp_connector.Refs.Find.{Found, find_refs}
use stpp_connector.Refs.Resolve.{Results, Resolution, resolve}

-- A dict that is only read by key: the newest binding stands first.
abbrev pub Replacements : Type 0
Replacements = List (Text × Value)

abbrev pub replaced : Text → Option Value → Value
replaced s none = str s
replaced s (some v) = v

unfoldable mutual
  pub substitute : Value → Replacements → Value
  substitute (obj fs) replacements = obj (substitute_fields fs replacements)
  substitute (arr vs) replacements = arr (substitute_items vs replacements)
  substitute (str s) replacements = replaced s (lookup_text s replacements)
  substitute v replacements = v

  pub substitute_items : Items → Replacements → Items
  substitute_items nil replacements = nil
  substitute_items (cons v vs) replacements =
      cons (substitute v replacements) (substitute_items vs replacements)

  pub substitute_fields : Fields → Replacements → Fields
  substitute_fields end replacements = end
  substitute_fields (field k v fs) replacements =
      field k (substitute v replacements) (substitute_fields fs replacements)

pub record FanPlan : Type 0 where
  pub calls : List Value
  pub truncated_count : ℕ
  pub empty : Bool
  pub fanned : Bool

-- `RefFanoutError` with its two references; a fault of `parse_ref`; the TypeError of `resolve`.
pub data CallFault : Type 0 where
  fanout_error : Text → Text → CallFault
  ref_fault : RefFault → CallFault
  type_error : CallFault

-- The variables of the loop over the references.
pub record Chosen : Type 0 where
  pub scalar : Replacements
  pub fan_raw : Option Text
  pub fan_values : List Value

-- `fan_raw is not None and ref.raw != fan_raw`, with the reference that fanned out before.
unfoldable pub clash : Option Text → Text → Option Text
clash none raw = none
clash (some other) raw = if text_eq raw other then none else some other

-- One round of the loop, at what the reference resolves to. `none` is the early return: a
-- reference that is not fanned resolves to no value.
unfoldable pub take_in : Ref → Chosen → Resolution → Result CallFault (Option Chosen)
take_in ref c res = elim res.fanned [
  | true ↦ elim (clash c.fan_raw ref.raw) [
    | some other ↦ err (fanout_error other ref.raw)
    | none ↦ ok (some (record c { fan_raw = some ref.raw; fan_values = res.values }))
  ]
  | false ↦ elim res.values [
    | [] ↦ ok none
    | v ∷ vs ↦ ok (some (record c { scalar = (ref.raw, v) ∷ c.scalar }))
  ]
]

unfoldable pub round : Ref → Results → Chosen → Result CallFault (Option Chosen)
round ref results c = elim (resolve ref results) [
  | none ↦ err type_error
  | some res ↦ take_in ref c res
]

unfoldable pub choose : List Ref → Results → Chosen → Result CallFault (Option Chosen)
choose [] results c = ok (some c)
choose (ref ∷ refs) results c =
    round ref results c >>= λ next. elim next [ none ↦ ok none | some c' ↦ choose refs results c' ]

abbrev pub no_calls : Bool → FanPlan
no_calls fanned = record { calls = []; truncated_count = 0; empty = true; fanned = fanned }

-- What follows the loop.
unfoldable pub calls_of : Value → ℕ → Option Chosen → FanPlan
calls_of args max_fanout none = no_calls false
calls_of args max_fanout (some c) = elim c.fan_raw [
  | none ↦ record {
    calls = substitute args c.scalar ∷ [];
    truncated_count = 0;
    empty = false;
    fanned = false;
  }
  | some raw ↦ elim c.fan_values [
    | [] ↦ no_calls true
    | v ∷ vs ↦ record {
      calls = map (λ value. substitute args ((raw, value) ∷ c.scalar)) (take max_fanout (v ∷ vs));
      truncated_count = length (v ∷ vs) - max_fanout;
      empty = false;
      fanned = true;
    }
  ]
]

abbrev pub found_refs : Found → List Ref
found_refs [] = []
found_refs ((path, ref) ∷ found) = ref ∷ found_refs found

abbrev pub lift_refs {ℓ} : {A : Type ℓ} → Parsed A → Result CallFault A
lift_refs (ok a) = ok a
lift_refs (err e) = err (ref_fault e)

abbrev pub start : Chosen
start = record { scalar = []; fan_raw = none; fan_values = [] }

unfoldable pub plan_step_calls : Value → Results → ℕ → Result CallFault FanPlan
plan_step_calls args results max_fanout = lift_refs (find_refs args) >>= λ found.
    choose (found_refs found) results (record { scalar = []; fan_raw = none; fan_values = [] })
    >>= λ chosen. ok (calls_of args max_fanout chosen)
