-- ===== src/Refs/FanOut/Filled.antt =====
-- `plan_step_calls` as a whole: what each of its calls holds at each place of the arguments.
use stpp_connector.Base.{
  ℕ, ◌≡◌, refl, ap, sym, subst, Option, none, some, List, [], ◌∷◌, Text, get_elem?, ok, >>=-Through,
  ok-injective, All, All-Member, Member, top, below, Result, err,
}
use stpp_connector.Json.{Value, str}
use stpp_connector.Refs.Syntax.{Ref, RefFault, parse_ref}
use stpp_connector.Refs.Find.{Place, Found, find_refs}
use stpp_connector.Refs.Places.{At, IsRefAt}
use stpp_connector.Refs.Places.Sound.{find_refs-Sound}
use stpp_connector.Refs.Places.Complete.{find_refs-exact}
use stpp_connector.Refs.Resolve.{Results}
use stpp_connector.Refs.Calls.{
  Chosen, FanPlan, replaced, substitute, start, choose, found_refs, lift_refs, calls_of,
  plan_step_calls,
}
use stpp_connector.Refs.FanOut.{IsRead, IsHandled}
use stpp_connector.Refs.FanOut.Handled.{choose-IsHandled}
use stpp_connector.Refs.FanOut.Origin.{choose-IsFromRefs, start-IsFromRefs}
use stpp_connector.Refs.FanOut.Values.{
  IsCall, calls_of-IsCall, IsValueOf, bound_value, unbound_literal, substitute-At,
}

pub found_refs-IsRead :
    (args : Value) (found : Found)
    → All (λ (path, ref). IsRefAt args path ref) found
    → All IsRead (found_refs found)
found_refs-IsRead args [] h = tt
found_refs-IsRead args ((path, ref) ∷ found) h = (h.0.1, found_refs-IsRead args found h.1)

pub found_refs-Member :
    {path : List Place} {ref : Ref} (found : Found)
    → Member (path, ref) found
    → Member ref (found_refs found)
found_refs-Member [] m = elim m [ ]
found_refs-Member (x ∷ found) (top e) = top (ap (λ p. p.1) e)
found_refs-Member (x ∷ found) (below m) = below (found_refs-Member found m)

pub lift_refs-ok : {A : Type 0} (m : Result RefFault A) (a : A) → lift_refs m ≡ ok a → m ≡ ok a
lift_refs-ok (ok b) a e = ap ok (ok-injective e)
lift_refs-ok (err f) a e = cc

-- The parts of a run that makes a call.
record Run (args : Value) (results : Results) (i : ℕ) (call : Value) : Type 0 where
  found : Found
  searched : find_refs args ≡ ok found
  chosen : Chosen
  chose : choose (found_refs found) results start ≡ ok (some chosen)
  is_call : IsCall args chosen i call

Run-plan :
    (args : Value) (results : Results) (max_fanout : ℕ) (plan : FanPlan) (i : ℕ) (call : Value)
    → plan_step_calls args results max_fanout ≡ ok plan
    → get_elem? plan.calls i ≡ some call
    → Run args results i call
unfolding plan_step_calls calls_of
Run-plan args results n plan i call e at =
    let (found, e1, rest) = >>=-Through (lift_refs (find_refs args)) _ e in
    let (chosen, e2, last) = >>=-Through (choose (found_refs found) results start) _ rest in
    by_chosen found (lift_refs-ok (find_refs args) found e1) chosen e2 (ok-injective last)
  where
    by_chosen :
        (found : Found)
        → find_refs args ≡ ok found
        → (o : Option Chosen) → choose (found_refs found) results start ≡ ok o
        → calls_of args n o ≡ plan
        → Run args results i call
    by_chosen found e1 none e2 p =
        cc (subst (λ (q : FanPlan). get_elem? q.calls i ≡ some call) (sym p) at)
    by_chosen found e1 (some c) e2 p = record {
      found = found;
      searched = e1;
      chosen = c;
      chose = e2;
      is_call =
          calls_of-IsCall args n c i call
            (subst (λ (q : FanPlan). get_elem? q.calls i ≡ some call) (sym p) at);
    }

module _ (args : Value) (results : Results) (max_fanout : ℕ) (plan : FanPlan)
    (planned : plan_step_calls args results max_fanout ≡ ok plan) (i : ℕ) (call : Value)
    (made : get_elem? plan.calls i ≡ some call) where
  -- Wherever the arguments hold a reference, every planned call holds a value of it: value number
  -- `i` in call number `i` if the reference fans out, and its first value if it does not.
  pub plan_step_calls-fills :
      (path : List Place) (ref : Ref)
      → IsRefAt args path ref
      → (v : Value) × At call path v × IsValueOf results ref i v
  plan_step_calls-fills path ref place =
      let r = Run-plan args results max_fanout plan i call planned made in
      let reads = found_refs-IsRead args r.found (find_refs-Sound args r.found r.searched) in
      let member = (find_refs-exact args r.found r.searched path ref).1 place in
      let (keeps, all) =
        choose-IsHandled results (found_refs r.found) start r.chosen reads r.chose in
      let from =
        choose-IsFromRefs results (found_refs r.found) start r.chosen reads r.chose
          (start-IsFromRefs results) in
      let handled =
        All-Member (IsHandled results r.chosen) all (found_refs-Member r.found member) in
      let (v, bound, value) =
        bound_value args results r.chosen i call ref place.1 from handled r.is_call in
      (
        v,
        subst (λ w. At w path v) (sym r.is_call.is_substituted)
            (subst (λ o. At (substitute args r.is_call.bindings) path (replaced ref.raw o)) bound
              (substitute-At place.0 r.is_call.bindings ref.raw refl)),
        value,
      )

  -- A text of the arguments that is no reference is in every planned call at its place.
  pub plan_step_calls-keeps :
      (path : List Place) (s : Text)
      → At args path (str s)
      → parse_ref s ≡ ok none
      → At call path (str s)
  plan_step_calls-keeps path s place plain =
      let r = Run-plan args results max_fanout plan i call planned made in
      let reads = found_refs-IsRead args r.found (find_refs-Sound args r.found r.searched) in
      let from =
        choose-IsFromRefs results (found_refs r.found) start r.chosen reads r.chose
          (start-IsFromRefs results) in
      let unbound = unbound_literal args results r.chosen i call s plain from r.is_call in
      subst (λ v. At v path (str s)) (sym r.is_call.is_substituted)
        (subst (λ o. At (substitute args r.is_call.bindings) path (replaced s o)) unbound
          (substitute-At place r.is_call.bindings s refl))
