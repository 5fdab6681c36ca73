-- ===== src/Runner/Attempt.antt =====
-- `_attempt_calls`: the tool calls of one step.
use stpp_connector.Base.{
  ℕ, ◌+◌, Bool, true, false, ◌||◌, Option, none, some, List, [], ◌∷◌, ◌++◌, Text, codes, text_eq,
  mem_text, sorted_texts, length, take, first, leb, ltb, ◌==◌, if◌then◌else◌,
}
use stpp_connector.Json.{
  Value, Fields, null, bool, int, pos, str, arr, obj, nil, end, field, items_of, get_field, truthy,
}
use stpp_connector.Plan.{Step}
use stpp_connector.Refs.Calls.{FanPlan}
use stpp_connector.Runner.Reports.{
  ToolFault, Answer, envelope, tool_error, transport_error, Summary, no_values, one_call, fan_calls,
  complete, StepReport, StepOutcome, StepEvent, type_raise, step_event,
}
use stpp_connector.Runner.Effects.{Services, M, pure, raise, ◌>>=◌, needs, emit, store, call_tool}

-- `_RESULT_MAX_BYTES`
abbrev pub result_max_bytes : ℕ
result_max_bytes = 100000

-- `_EMPTY_ENVELOPE`
abbrev pub empty_envelope : Value
empty_envelope = obj (
    field (codes "data") (arr nil) (
      field (codes "meta")
        (obj (
          field (codes "total") (int (pos 0))
            (field (codes "returned") (int (pos 0)) (field (codes "truncated") (bool false) end))))
        end))

-- `envelope.get("meta", {})` where the envelope is a dict; `none` is a `meta` without `get`.
unfoldable pub meta_of : Value → Option Fields
meta_of (obj fs) = elim (get_field (codes "meta") fs) [
  | none ↦ some end
  | some (obj meta) ↦ some meta
  | some v ↦ none
]
meta_of v = some end

abbrev pub get_or : Text → Value → Fields → Value
get_or k d fs = elim (get_field k fs) [ none ↦ d | some v ↦ v ]

-- `meta.get("returned", 0)`
abbrev pub rows_of : Fields → Value
rows_of meta = get_or (codes "returned") (int (pos 0)) meta

-- `bool(meta.get("truncated", False))`
abbrev pub was_truncated : Fields → Bool
was_truncated meta = truthy (get_or (codes "truncated") (bool false) meta)

-- A count that `rows +=` takes. Another value, which no tool returns, is taken for a TypeError.
abbrev pub count_of : Value → Option ℕ
count_of (int (pos n)) = some n
count_of v = none

-- `{"error": {"code": exc.code, "message": exc.message}}`
abbrev pub error_slot : ToolFault → Value
error_slot e = obj (
    field (codes "error")
      (obj (field (codes "code") (str e.code) (field (codes "message") (str e.message) end))) end)

-- `MCPToolError("upstream_unavailable", str(exc))`
abbrev pub unavailable : Text → ToolFault
unavailable text = record { code = codes "upstream_unavailable"; message = text }

abbrev pub is_denial : ToolFault → Bool
is_denial e = text_eq e.code (codes "not_authorized")

-- `sorted({e.code for e in errors})`
abbrev pub distinct_codes : List ToolFault → List Text
distinct_codes [] = []
distinct_codes (e ∷ es) =
    let rest = distinct_codes es in if mem_text e.code rest then rest else e.code ∷ rest

-- The variables of the fan-out loop.
pub record Slots : Type 0 where
  pub slots : List Value
  pub errors : List ToolFault
  pub rows : ℕ
  pub any_truncated : Bool

unfoldable pub with_error : ToolFault → Slots → Slots
with_error e s = record s { slots = s.slots ++ error_slot e ∷ []; errors = s.errors ++ e ∷ [] }

unfoldable pub with_envelope : Value → Bool → ℕ → Slots → Slots
with_envelope v truncated n s = record s {
  slots = s.slots ++ v ∷ [];
  rows = s.rows + n;
  any_truncated = s.any_truncated || truncated;
}

-- The step completed, or failed with the error left in `self._last_error`.
pub data Attempt : Type 0 where
  finished : StepOutcome → Attempt
  broken : ToolFault → Attempt

-- `denial or errors[0]`, where every call failed.
unfoldable pub whole_error : List ToolFault → Option ToolFault
whole_error [] = none
whole_error (e ∷ es) = elim (first is_denial (e ∷ es)) [ none ↦ some e | some d ↦ some d ]

module _ {W : Type 0} (services : Services W) where
  -- `_cap_result`: what is stored, and the size of a result that is too large.
  unfoldable pub cap_result : Value → Value × Option ℕ
  cap_result value =
      let n = length (services.dumps value) in
      if leb n result_max_bytes then (value, none) else (
        obj (
            field (codes "data") null (
              field (codes "meta")
                (obj (
                  field (codes "stored_truncated") (bool true)
                    (field (codes "original_bytes") (int (pos n)) end)))
                end)),
        some n,
      )

  -- `_report` of a complete step.
  unfoldable pub report : Step → Summary → Value → Bool → Value → StepReport
  report step summary rows truncated stored = record {
    step_id = step.id;
    tool = step.tool;
    status = complete;
    summary = some summary;
    rows = some rows;
    truncated = some truncated;
    result_json = some (take result_max_bytes (services.dumps stored));
    error = none;
  }

  -- The end of every complete step: its event and its outcome.
  unfoldable pub completed : Step → Value → Value → Summary → Value → Bool → M W Attempt
  completed step args stored summary rows truncated = do
    let event : StepEvent = record {
      step_id = step.id;
      status = complete;
      tool = step.tool;
      args = args;
      result = some stored;
      summary = some summary;
      rows = some rows;
      truncated = some truncated;
      error = none;
    }
    _ ← emit (step_event event)
    pure (finished (record { report = report step summary rows truncated stored; failed = false }))

  unfoldable pub attempt_none : Step → FanPlan → M W Attempt
  attempt_none step fan = do
    _ ← store step.id (record { value = empty_envelope; fanned = fan.fanned; failed = false })
    completed step step.args empty_envelope no_values (int (pos 0)) false

  unfoldable pub take_answer : Step → Value → Answer → M W Attempt
  take_answer step args (tool_error e) = pure (broken e)
  take_answer step args (transport_error text) = pure (broken (unavailable text))
  take_answer step args (envelope v) = do
    let (stored, capped) = cap_result v
    _ ← store step.id (record { value = stored; fanned = false; failed = false })
    meta ← needs type_raise (meta_of v)
    completed step args stored (one_call (rows_of meta) capped) (rows_of meta) (was_truncated meta)

  unfoldable pub attempt_one : Step → List Value → M W Attempt
  attempt_one step [] = raise type_raise
  attempt_one step (args ∷ more) = do
    answer ← call_tool services step.tool args
    take_answer step args answer

  -- One round of the fan-out loop, after the call.
  unfoldable pub take_slot : Slots → Answer → M W Slots
  take_slot s (tool_error e) = pure (with_error e s)
  take_slot s (transport_error text) = pure (with_error (unavailable text) s)
  take_slot s (envelope v) = do
    meta ← needs type_raise (meta_of v)
    n ← needs type_raise (count_of (rows_of meta))
    pure (with_envelope v (was_truncated meta) n s)

  unfoldable pub run_calls : Text → List Value → Slots → M W Slots
  run_calls tool [] s = pure s
  run_calls tool (args ∷ more) s = do
    answer ← call_tool services tool args
    next ← take_slot s answer
    run_calls tool more next

  -- What follows the loop, where some call succeeded.
  unfoldable pub store_slots : Step → FanPlan → Slots → M W Attempt
  store_slots step fan s = do
    let (stored, capped) = cap_result (arr (items_of s.slots))
    _ ← store step.id (record { value = stored; fanned = true; failed = false })
    let summary =
        fan_calls (length fan.calls) s.rows capped fan.truncated_count (length s.errors)
          (sorted_texts (distinct_codes s.errors))
    completed step step.args stored summary (int (pos s.rows)) s.any_truncated

  -- `if errors and len(errors) == len(fan.calls)`
  unfoldable pub settle : Step → FanPlan → Slots → M W Attempt
  settle step fan s =
      if length s.errors == length fan.calls
      then elim (whole_error s.errors) [ none ↦ store_slots step fan s | some e ↦ pure (broken e) ]
      else store_slots step fan s

  unfoldable pub attempt_fan : Step → FanPlan → M W Attempt
  attempt_fan step fan = do
    s ←
        run_calls step.tool fan.calls
          (record { slots = []; errors = []; rows = 0; any_truncated = ltb 0 fan.truncated_count })
    settle step fan s

  unfoldable pub attempt_calls : Step → FanPlan → M W Attempt
  attempt_calls step fan =
      if fan.empty
      then attempt_none step fan
      else if fan.fanned
      then attempt_fan step fan
      else attempt_one step fan.calls
