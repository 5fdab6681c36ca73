-- ===== src/Runner/Budget.antt =====
-- How many tool calls and LLM calls the runner makes.
use stpp_connector.Base.{
  ℕ, ◌*◌, ◌≤◌, ◌≡◌, refl, Bool, true, false, Option, none, some, List, [], ◌∷◌, Text, length, arith,
  if◌then◌else◌, ◌==◌,
}
use stpp_connector.Json.{Value}
use stpp_connector.Plan.{Step}
use stpp_connector.Refs.Calls.{FanPlan}
use stpp_connector.Runner.Reports.{
  ToolFault, Answer, envelope, tool_error, transport_error, Summary, type_raise,
}
use stpp_connector.Runner.Effects.{Services, pure}
use stpp_connector.Runner.Attempt.{
  Slots, broken, meta_of, count_of, rows_of, whole_error, completed, attempt_none, take_answer,
  attempt_one, take_slot, run_calls, store_slots, settle, attempt_fan, attempt_calls,
}
use stpp_connector.Runner.Costs.{
  suc_mul, Spends, unchanged, Spends-more, Spends-bind, Spends-first, Spends-last, needs-Spends,
  emit-Spends, store-Spends, call_tool-Spends,
}

module _ {W : Type 0} (c l : ℕ) (services : Services W) where
  completed-Spends :
      (step : Step) (args stored : Value) (summary : Summary) (rows : Value) (truncated : Bool)
      → Spends c l 0 (completed services step args stored summary rows truncated)
  unfolding completed
  completed-Spends step args stored summary rows truncated =
      Spends-first c l 0 _ _ (emit-Spends c l _) (λ u. unchanged c l 0)

  attempt_none-Spends :
      (step : Step) (fan : FanPlan) → Spends c l 0 (attempt_none services step fan)
  unfolding attempt_none
  attempt_none-Spends step fan =
      Spends-first c l 0 _ _ (store-Spends c l _ _) (λ u. completed-Spends _ _ _ _ _ _)

  take_answer-Spends :
      (step : Step) (args : Value) (answer : Answer)
      → Spends c l 0 (take_answer services step args answer)
  unfolding take_answer
  take_answer-Spends step args (tool_error e) = unchanged c l 0
  take_answer-Spends step args (transport_error text) = unchanged c l 0
  take_answer-Spends step args (envelope v) = Spends-first c l 0 _ _ (store-Spends c l _ _) (λ u.
      Spends-first c l 0 _ _ (needs-Spends c l 0 type_raise (meta_of v))
        (λ meta. completed-Spends _ _ _ _ _ _))

  attempt_one-Spends :
      (step : Step) (calls : List Value) → Spends c l c (attempt_one services step calls)
  unfolding attempt_one
  attempt_one-Spends step [] = unchanged c l c
  attempt_one-Spends step (args ∷ more) =
      Spends-first c l c _ _ (call_tool-Spends c l services _ _) (take_answer-Spends step args)

  take_slot-Spends : (s : Slots) (answer : Answer) → Spends c l 0 (take_slot services s answer)
  unfolding take_slot
  take_slot-Spends s (tool_error e) = unchanged c l 0
  take_slot-Spends s (transport_error text) = unchanged c l 0
  take_slot-Spends s (envelope v) =
      Spends-first c l 0 _ _ (needs-Spends c l 0 type_raise (meta_of v)) (λ meta.
        Spends-first c l 0 _ _ (needs-Spends c l 0 type_raise (count_of (rows_of meta)))
          (λ n. unchanged c l 0))

  run_calls-Spends :
      (tool : Text) (calls : List Value) (s : Slots)
      → Spends c l (length calls * c) (run_calls services tool calls s)
  unfolding run_calls
  run_calls-Spends tool [] s = unchanged c l _
  run_calls-Spends tool (args ∷ more) s = rw (suc_mul (length more) c) (
      Spends-bind c l c (length more * c) _ _ (call_tool-Spends c l services _ _) (λ answer.
        Spends-last c l (length more * c) _ _ (take_slot-Spends s answer)
          (run_calls-Spends tool more)))

  store_slots-Spends :
      (step : Step) (fan : FanPlan) (s : Slots) → Spends c l 0 (store_slots services step fan s)
  unfolding store_slots
  store_slots-Spends step fan s =
      Spends-first c l 0 _ _ (store-Spends c l _ _) (λ u. completed-Spends _ _ _ _ _ _)

  settle-Spends :
      (step : Step) (fan : FanPlan) (s : Slots) → Spends c l 0 (settle services step fan s)
  unfolding settle
  settle-Spends step fan s = by_count (length s.errors == length fan.calls) (whole_error s.errors)
    where
      by_count :
          (b : Bool) (o : Option ToolFault)
          → Spends c l 0 (
              if b
              then elim o [ none ↦ store_slots services step fan s | some e ↦ pure (broken e) ]
              else store_slots services step fan s)
      by_count true none = store_slots-Spends step fan s
      by_count true (some e) = unchanged c l 0
      by_count false o = store_slots-Spends step fan s

  attempt_fan-Spends :
      (step : Step) (fan : FanPlan)
      → Spends c l (length fan.calls * c) (attempt_fan services step fan)
  unfolding attempt_fan
  attempt_fan-Spends step fan =
      Spends-first c l (length fan.calls * c) _ _ (run_calls-Spends _ _ _) (settle-Spends step fan)

  -- The calls of an attempt are paid by a budget of `n` calls, at least one.
  pub attempt_calls-Spends :
      (step : Step) (fan : FanPlan) (n : ℕ)
      → c ≤ n
      → (fan.fanned ≡ true → length fan.calls * c ≤ n)
      → Spends c l n (attempt_calls services step fan)
  unfolding attempt_calls
  attempt_calls-Spends step fan n one many = by_fan fan.empty fan.fanned many
    where
      by_fan :
          (e f : Bool)
          → (f ≡ true → length fan.calls * c ≤ n)
          → Spends c l n (
              if e
              then attempt_none services step fan
              else if f
              then attempt_fan services step fan
              else attempt_one services step fan.calls)
      by_fan true f h =
          Spends-more c l 0 n (attempt_none services step fan) (attempt_none-Spends step fan)
            (omega arith)
      by_fan false true h =
          Spends-more c l (length fan.calls * c) n (attempt_fan services step fan)
            (attempt_fan-Spends step fan) (h refl)
      by_fan false false h =
          Spends-more c l c n (attempt_one services step fan.calls)
            (attempt_one-Spends step fan.calls) one
