-- ===== src/Refs/FanOut/Bounds.antt =====
-- The number of tool calls of a step.
use stpp_connector.Base.{
  ℕ, ◌≤◌, ◌≡◌, true, false, Option, none, some, List, [], ◌∷◌, arith, take, length, length-map,
  length-take, ok, Text, subst, >>=-Through, ok-injective,
}
use stpp_connector.Json.{Value}
use stpp_connector.Refs.Find.{find_refs}
use stpp_connector.Refs.Resolve.{Results}
use stpp_connector.Refs.Calls.{
  FanPlan, Chosen, start, lift_refs, found_refs, choose, substitute, calls_of, plan_step_calls,
}

-- A plan that fans out makes at most `max_fanout` calls, any other at most one; an empty plan
-- makes none; and a plan that tells of dropped values makes `max_fanout` calls.
pub record IsBounded (max_fanout : ℕ) (plan : FanPlan) : Type 0 where
  pub fan : plan.fanned ≡ true → length plan.calls ≤ max_fanout
  pub single : plan.fanned ≡ false → length plan.calls ≤ 1
  pub none_made : plan.empty ≡ true → plan.calls ≡ []
  pub dropped : 1 ≤ plan.truncated_count → length plan.calls ≡ max_fanout

calls_of-IsBounded :
    (args : Value) (max_fanout : ℕ) (o : Option Chosen)
    → IsBounded max_fanout (calls_of args max_fanout o)
unfolding calls_of
calls_of-IsBounded args n none = ground arith
calls_of-IsBounded args n (some c) = by_fan c.fan_raw c.fan_values
  where
    by_fan :
        (r : Option Text) (vs : List Value)
        → IsBounded n (calls_of args n (some (record c { fan_raw = r; fan_values = vs })))
    by_fan none vs = ground arith
    by_fan (some raw) [] = ground arith
    by_fan (some raw) (v ∷ vs) =
        let call : Value → Value = λ value. substitute args ((raw, value) ∷ c.scalar) in
        let made = length-map call (take n (v ∷ vs)) in
        let kept = length-take n (v ∷ vs) in
        record {
          fan = λ e. omega (arith, made, kept);
          single = λ e. cc;
          none_made = λ e. cc;
          dropped = λ e. omega (arith, made, kept);
        }

-- Whatever the arguments and results, the plan of a step is within its budget of calls.
pub plan_step_calls-IsBounded :
    (args : Value) (results : Results) (max_fanout : ℕ) (plan : FanPlan)
    → plan_step_calls args results max_fanout ≡ ok plan
    → IsBounded max_fanout plan
unfolding plan_step_calls
plan_step_calls-IsBounded args results n plan e =
    let (found, e1, rest) = >>=-Through (lift_refs (find_refs args)) _ e in
    let (chosen, e2, last) = >>=-Through (choose (found_refs found) results start) _ rest in
    subst (IsBounded n) (ok-injective last) (calls_of-IsBounded args n chosen)
