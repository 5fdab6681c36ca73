-- ===== src/Wdp/Tools.antt =====
-- The handlers of services/mcp-server/app/wdp_tools.py.
use stpp_connector.Base.{
  ℕ, Bool, false, ◌||◌, Option, none, some, Text, codes, Result, ok, err, if◌then◌else◌,
}
use stpp_connector.Base.Actions.{Action, returned, ◌>>=◌}
use stpp_connector.Json.{Value, Fields, Items, int, str, arr, obj, nil, end, get_field, truthy}
use stpp_connector.Hygiene.{count_items, envelope, envelope_dict}
use stpp_connector.Dispatch.{Fault, tool_error, crash, Handler}
use stpp_connector.Rfff.Rows.{clamp_limit, as_count}
use stpp_connector.Rfff.Tools.{Limits}
use stpp_connector.Http.{Response}
use stpp_connector.Wdp.Client.{WdpError, QueryParams, persons, entities, documents}

-- `raw.get("results", [])`, for a list.
unfoldable pub results_in : Fields → Result Fault Items
results_in raw = elim (get_field (codes "results") raw) [
  | none ↦ ok nil
  | some (arr vs) ↦ ok vs
  | some v ↦ err crash
]

-- `raw.get("total", len(rows))`, for a count.
unfoldable pub total_in : Fields → Items → Result Fault ℕ
total_in raw rows = elim (get_field (codes "total") raw) [
  | none ↦ ok (count_items rows)
  | some v ↦ as_count v
]

-- `args.get(name)` is a value that counts as true.
abbrev pub has_arg : Text → Fields → Bool
has_arg name args = elim (get_field name args) [ none ↦ false | some v ↦ truthy v ]

-- `except WDPError as exc: raise ToolError(exc.code, exc.message)`
unfoldable pub as_tool_error : Result WdpError Value → Result Fault Value
as_tool_error (ok v) = ok v
as_tool_error (err e) = err (tool_error e.code e.message)

module _ {W : Type 0} (send : Text → QueryParams → W → Response × W) (limits : Limits) where
  abbrev pub Wdp : Type 0 → Type 0
  Wdp A = Action Fault W A

  -- `_envelope_from`
  unfoldable pub envelope_from : Value → Result Fault Fields
  envelope_from (obj raw) = elim (results_in raw) [
    | err e ↦ err e
    | ok rows ↦ elim (total_in raw rows) [
      | err e ↦ err e
      | ok total ↦ ok (envelope_dict (envelope rows total limits.max_rows limits.max_chars) end)
    ]
  ]
  envelope_from v = err crash

  -- The end of each handler: the request, its errors, and the envelope.
  unfoldable pub answered : (W → Result WdpError Value × W) → Wdp Fields
  answered request w =
      let (reply, after) = request w in
      (elim (as_tool_error reply) [ err e ↦ err e | ok raw ↦ envelope_from raw ], after)

  unfoldable pub limit_arg : Fields → Result Fault (Option Value)
  limit_arg args = elim (clamp_limit (get_field (codes "limit") args) limits.max_rows) [
    | err e ↦ err e
    | ok z ↦ ok (some (int z))
  ]

  unfoldable pub ask_person : Fields → Wdp Fields
  ask_person args = do
    limit ← returned (limit_arg args)
    answered (persons send (get_field (codes "orcid") args) (get_field (codes "name") args) limit)

  unfoldable pub search_wdp_person : Handler W
  search_wdp_person args =
      if has_arg (codes "orcid") args || has_arg (codes "name") args
      then ask_person args
      else returned
          (err (tool_error (codes "invalid_args") (codes "provide at least one of orcid or name")))

  unfoldable pub ask_entity : Fields → Wdp Fields
  ask_entity args = do
    limit ← returned (limit_arg args)
    answered (entities send (get_field (codes "uei") args) (get_field (codes "name") args) limit)

  unfoldable pub search_wdp_entity : Handler W
  search_wdp_entity args =
      if has_arg (codes "uei") args || has_arg (codes "name") args
      then ask_entity args
      else returned
          (err (tool_error (codes "invalid_args") (codes "provide at least one of uei or name")))

  abbrev pub ref_id_arg : Fields → Result Fault Text
  ref_id_arg args = elim (get_field (codes "ref_id") args) [ some (str s) ↦ ok s | _ ↦ err crash ]

  unfoldable pub retrieve_wdp_documents : Handler W
  retrieve_wdp_documents args = do
    ref_id ← returned (ref_id_arg args)
    limit ← returned (limit_arg args)
    answered (documents send ref_id limit)
