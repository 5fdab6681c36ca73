-- ===== src/Refs/FanOut/Counts.antt =====
-- `plan_step_calls`: which values become calls, and how many are left out.
use stpp_connector.Base.{
  ℕ, ◌+◌, ◌≡◌, refl, subst, true, false, inl, inr, Option, none, some, List, [], ◌∷◌, arith, take,
  length, length-map, length-take, ok, Text, >>=-Through, ok-injective, All-Member,
}
use stpp_connector.Json.{Value}
use stpp_connector.Refs.Syntax.{Ref}
use stpp_connector.Refs.Find.{Place, Found, find_refs}
use stpp_connector.Refs.Places.{IsRefAt}
use stpp_connector.Refs.Places.Sound.{find_refs-Sound}
use stpp_connector.Refs.Places.Complete.{find_refs-exact}
use stpp_connector.Refs.Resolve.{Results, Resolution, resolve}
use stpp_connector.Refs.Calls.{
  FanPlan, Chosen, start, lift_refs, found_refs, choose, substitute, calls_of, plan_step_calls,
}
use stpp_connector.Refs.FanOut.{IsHandled}
use stpp_connector.Refs.FanOut.Bounds.{IsBounded, plan_step_calls-IsBounded}
use stpp_connector.Refs.FanOut.Empty.{HasEmptyRef, calls_of-empty}
use stpp_connector.Refs.FanOut.Handled.{choose-IsHandled}
use stpp_connector.Refs.FanOut.Filled.{found_refs-IsRead, found_refs-Member, lift_refs-ok}

-- The values that fan out, each a call or counted as dropped.
abbrev pub IsCounted : Value → Results → FanPlan → Type 0
IsCounted args results plan =
    (path : List Place) (ref : Ref) (res : Resolution)
    → IsRefAt args path ref
    → resolve ref results ≡ some res
    → res.fanned ≡ true
    → length plan.calls + plan.truncated_count ≡ length res.values

-- A plan that is not empty fans out only at values, which are all counted.
calls_of-counted :
    (args : Value) (n : ℕ) (c : Chosen) (raw : Text)
    → c.fan_raw ≡ some raw
    → length (calls_of args n (some c)).calls + (calls_of args n (some c)).truncated_count
      ≡ length c.fan_values
unfolding calls_of
calls_of-counted args n c raw e = rw e (by_values c.fan_values)
  where
    by_values :
        (vs : List Value)
        → (let p = calls_of args n (some (record c { fan_raw = some raw; fan_values = vs })) in
            length p.calls + p.truncated_count ≡ length vs)
    by_values [] = refl
    by_values (v ∷ vs) =
        let call : Value → Value = λ value. substitute args ((raw, value) ∷ c.scalar) in
        omega (arith, length-map call (take n (v ∷ vs)), length-take n (v ∷ vs))

calls_of-alone :
    (args : Value) (n : ℕ) (o : Option Chosen)
    → (calls_of args n o).fanned ≡ false
    → (calls_of args n o).truncated_count ≡ 0
unfolding calls_of
calls_of-alone args n none h = refl
calls_of-alone args n (some c) h = by_fan c.fan_raw c.fan_values h
  where
    by_fan :
        (r : Option Text) (vs : List Value)
        → (calls_of args n (some (record c { fan_raw = r; fan_values = vs }))).fanned ≡ false
        → (calls_of args n (some (record c { fan_raw = r; fan_values = vs }))).truncated_count ≡ 0
    by_fan none vs k = refl
    by_fan (some raw) [] k = refl
    by_fan (some raw) (v ∷ vs) k = cc k

handled-counted :
    (args : Value) (results : Results) (n : ℕ) (c : Chosen) (ref : Ref) (res : Resolution)
    → IsHandled results c ref
    → resolve ref results ≡ some res
    → res.fanned ≡ true
    → length (calls_of args n (some c)).calls + (calls_of args n (some c)).truncated_count
      ≡ length res.values
handled-counted args results n c ref res (r, e, inl (f, raw, values)) found fanned =
    let same : r ≡ res = cc in
    subst
      (λ vs.
        length (calls_of args n (some c)).calls + (calls_of args n (some c)).truncated_count
        ≡ length vs)
      (cc (values, same)) (calls_of-counted args n c ref.raw raw)
handled-counted args results n c ref res (r, e, inr (f, rest)) found fanned =
    let same : r ≡ res = cc in cc

-- The plan of a step is within its budget of calls, and tells the truth about what it leaves out:
-- it is empty only where a reference of the arguments resolves to no value; a plan that does not fan
-- out drops nothing; and unless the plan is empty, each reference of the arguments that fans out has
-- exactly as many values as the plan has calls and dropped values.
pub plan_step_calls-IsCounted :
    (args : Value) (results : Results) (max_fanout : ℕ) (plan : FanPlan)
    → plan_step_calls args results max_fanout ≡ ok plan
    → IsBounded max_fanout plan
      × (plan.empty ≡ true → HasEmptyRef args results)
      × (plan.fanned ≡ false → plan.truncated_count ≡ 0)
      × (plan.empty ≡ false → IsCounted args results plan)
unfolding plan_step_calls calls_of
plan_step_calls-IsCounted args results n plan e =
    let (found, e1, rest) = >>=-Through (lift_refs (find_refs args)) _ e in
    let (chosen, e2, last) = >>=-Through (choose (found_refs found) results start) _ rest in
    (
      plan_step_calls-IsBounded args results n plan e,
      subst (λ (p : FanPlan). p.empty ≡ true → HasEmptyRef args results) (ok-injective last)
          (calls_of-empty args results n found chosen (lift_refs-ok (find_refs args) found e1) e2),
      subst (λ (p : FanPlan). p.fanned ≡ false → p.truncated_count ≡ 0) (ok-injective last)
          (calls_of-alone args n chosen),
      subst (λ (p : FanPlan). p.empty ≡ false → IsCounted args results p) (ok-injective last)
          (by_chosen found (lift_refs-ok (find_refs args) found e1) chosen e2),
    )
  where
    by_chosen :
        (found : Found)
        → find_refs args ≡ ok found
        → (o : Option Chosen) → choose (found_refs found) results start ≡ ok o
        → (calls_of args n o).empty ≡ false
        → IsCounted args results (calls_of args n o)
    by_chosen found f none g h path ref res place resolved fanned = cc h
    by_chosen found f (some c) g h path ref res place resolved fanned =
        let reads = found_refs-IsRead args found (find_refs-Sound args found f) in
        let member = (find_refs-exact args found f path ref).1 place in
        let (keeps, all) = choose-IsHandled results (found_refs found) start c reads g in
        handled-counted args results n c ref res
          (All-Member (IsHandled results c) all (found_refs-Member found member)) resolved fanned
