-- ===== src/Refs/FanOut/Handled.antt =====
-- The loop of `plan_step_calls` handles every reference.
use stpp_connector.Base.{
  ◌≡◌, refl, ap, sym, subst, Bool, true, false, inl, inr, Option, none, some, List, [], ◌∷◌, arith,
  All, Text, text_eq, text_eq_iff, text_eq_refl, Result, ok, err, Bool-cases, Option-cases,
}
use stpp_connector.Json.{Value}
use stpp_connector.Refs.Syntax.{Ref}
use stpp_connector.Refs.Resolve.{Results, Resolution, resolve}
use stpp_connector.Refs.Calls.{Chosen, CallFault, clash, take_in, round, choose}
use stpp_connector.Refs.FanOut.{IsRead, IsHandled}

pub same_ref : (a b : Ref) → IsRead a → IsRead b → a.raw ≡ b.raw → a ≡ b
same_ref a b ra rb e = cc

-- One round of the loop with the reference that fans out: what was handled stays handled.
clash-same : (other raw : Text) → clash (some other) raw ≡ none → raw ≡ other
unfolding clash
clash-same other raw h = ground (arith, text_eq_iff raw other)

fan_keeps :
    (results : Results) (c : Chosen) (a b : Ref) (res : Resolution)
    → IsRead a
    → IsRead b
    → resolve b results ≡ some res
    → clash c.fan_raw b.raw ≡ none
    → IsHandled results c a
    → IsHandled results (record c { fan_raw = some b.raw; fan_values = res.values }) a
fan_keeps results c a b res ra rb found fits (r, e, inl (f, raw, values)) =
    let same : b.raw ≡ a.raw =
      clash-same a.raw b.raw (subst (λ o. clash o b.raw ≡ none) raw fits) in
    let one : a ≡ b = same_ref a b ra rb (sym same) in
    let found_a : resolve a results ≡ some res =
      subst (λ x. resolve x results ≡ some res) (sym one) found in
    (r, e, inl (f, ap some same, cc))
fan_keeps results c a b res ra rb found fits (r, e, inr rest) = (r, e, inr rest)

scalar_keeps :
    (results : Results) (c : Chosen) (a b : Ref) (res : Resolution) (v : Value) (vs : List Value)
    → IsRead a
    → IsRead b
    → resolve b results ≡ some res
    → res.values ≡ v ∷ vs
    → IsHandled results c a
    → IsHandled results (record c { scalar = (b.raw, v) ∷ c.scalar }) a
scalar_keeps results c a b res v vs ra rb found first (r, e, inl fan) = (r, e, inl fan)
scalar_keeps results c a b res v vs ra rb found first (r, e, inr (f, (w, ws, vals, bound))) = (
  r,
  e,
  inr (
    f,
    (
      w,
      ws,
      vals,
      elim (Bool-cases (text_eq b.raw a.raw)) [
        | inl same ↦
            let one : a ≡ b = same_ref a b ra rb (sym ((text_eq_iff b.raw a.raw).0 same)) in
            let found_a : resolve a results ≡ some res =
              subst (λ x. resolve x results ≡ some res) (sym one) found in
            rw same (cc)
        | inr other ↦ rw other bound
      ],
    ),
  ),
)

-- A round that goes on handles its reference and keeps what was handled.
abbrev Round : Results → Ref → Chosen → Chosen → Type 0
Round results b c c' =
    IsHandled results c' b
    × ((a : Ref) → IsRead a → IsRead b → IsHandled results c a → IsHandled results c' a)

take_in-Round :
    (results : Results) (b : Ref) (c c' : Chosen) (res : Resolution)
    → resolve b results ≡ some res
    → take_in b c res ≡ ok (some c')
    → Round results b c c'
unfolding take_in
take_in-Round results b c c' res found e = by_fan res.fanned res.values refl refl
  where
    by_fan : (f : Bool) (vs : List Value) → res.fanned ≡ f → res.values ≡ vs → Round results b c c'
    by_fan true vs f vals = elim (Option-cases (clash c.fan_raw b.raw)) [
      | inl fits ↦
          subst (Round results b c) {x = record c { fan_raw = some b.raw; fan_values = res.values }}
            (cc (rw (f, fits, take_in) at e))
            (
              (res, found, inl (f, refl, refl)),
              λ a ra rb. fan_keeps results c a b res ra rb found fits,
            )
      | inr (o, n) ↦ cc (rw (f, n, take_in) at e)
    ]
    by_fan false [] f vals = cc (rw (f, vals, take_in) at e)
    by_fan false (v ∷ vs) f vals =
        subst (Round results b c) {x = record c { scalar = (b.raw, v) ∷ c.scalar }}
          (cc (rw (f, vals, take_in) at e))
          (
            (res, found, inr (f, (v, vs, vals, rw text_eq_refl refl))),
            λ a ra rb. scalar_keeps results c a b res v vs ra rb found vals,
          )

round-Round :
    (results : Results) (b : Ref) (c c' : Chosen)
    → round b results c ≡ ok (some c')
    → Round results b c c'
unfolding round
round-Round results b c c' e = elim (Option-cases (resolve b results)) [
  | inl n ↦ cc (rw (n, round) at e)
  | inr (res, found) ↦ take_in-Round results b c c' res found (rw (found, round) at e)
]

pub choose-cons :
    (results : Results) (b : Ref) (refs : List Ref) (c c' : Chosen)
    → choose (b ∷ refs) results c ≡ ok (some c')
    → (c1 : Chosen) × (round b results c ≡ ok (some c1)) × (choose refs results c1 ≡ ok (some c'))
unfolding choose
choose-cons results b refs c c' e = by_round (round b results c) refl
  where
    by_round :
        (m : Result CallFault (Option Chosen))
        → round b results c ≡ m
        → (c1 : Chosen) × (round b results c ≡ ok (some c1))
          × (choose refs results c1 ≡ ok (some c'))
    by_round (err f) q = cc (rw (q, choose) at e)
    by_round (ok none) q = cc (rw (q, choose) at e)
    by_round (ok (some c1)) q = (c1, q, rw (q, choose) at e)

-- Where the loop ends, what was handled before it and all its references are handled.
pub choose-IsHandled :
    (results : Results) (refs : List Ref) (c c' : Chosen)
    → All IsRead refs
    → choose refs results c ≡ ok (some c')
    → ((a : Ref) → IsRead a → IsHandled results c a → IsHandled results c' a)
      × All (IsHandled results c') refs
choose-IsHandled results [] c c' reads e =
    ((λ a ra h. subst (λ x. IsHandled results x a) {x = c} (unfold choose in cc) h), tt)
choose-IsHandled results (b ∷ refs) c c' reads e =
    let (c1, went, rest) = choose-cons results b refs c c' e in
    let (here, keeps) = round-Round results b c c1 went in
    let (later, all) = choose-IsHandled results refs c1 c' reads.1 rest in
    ((λ a ra h. later a ra (keeps a ra reads.0 h)), (later b reads.0 here, all))
