-- ===== src/Refs/FanOut/Origin.antt =====
-- What the loop of `plan_step_calls` binds comes from references.
use stpp_connector.Base.{
  ◌≡◌, refl, subst, Bool, true, false, inl, inr, none, some, List, [], ◌∷◌, All, Text, text_eq,
  text_eq_iff, lookup_text, ok, Bool-cases, Option-cases,
}
use stpp_connector.Json.{Value}
use stpp_connector.Refs.Syntax.{Ref, parse_ref}
use stpp_connector.Refs.Resolve.{Results, Resolution, resolve}
use stpp_connector.Refs.Calls.{Chosen, clash, take_in, round, choose, start}
use stpp_connector.Refs.FanOut.{IsRead}
use stpp_connector.Refs.FanOut.Handled.{choose-cons}

-- The text that fans out is a reference whose resolution fans out.
abbrev pub FanRef : Results → Text → Type 0
FanRef results raw =
    (b : Ref) × IsRead b
    × (b.raw ≡ raw)
    × ((r : Resolution) × (resolve b results ≡ some r) × (r.fanned ≡ true))

pub record IsFromRefs (results : Results) (c : Chosen) : Type 0 where
  pub fan : (raw : Text) → c.fan_raw ≡ some raw → FanRef results raw
  pub literal : (s : Text) → parse_ref s ≡ ok none → lookup_text s c.scalar ≡ none

take_in-IsFromRefs :
    (results : Results) (b : Ref) (c c' : Chosen) (res : Resolution)
    → IsRead b
    → resolve b results ≡ some res
    → take_in b c res ≡ ok (some c')
    → IsFromRefs results c
    → IsFromRefs results c'
unfolding take_in
take_in-IsFromRefs results b c c' res rb found e h = by_fan res.fanned res.values refl refl
  where
    by_fan : (f : Bool) (vs : List Value) → res.fanned ≡ f → res.values ≡ vs → IsFromRefs results c'
    by_fan true vs f vals = elim (Option-cases (clash c.fan_raw b.raw)) [
      | inl fits ↦
          subst (IsFromRefs results)
            {x = record c { fan_raw = some b.raw; fan_values = res.values }}
            (cc (rw (f, fits, take_in) at e))
            (record { fan = λ raw p. (b, rb, cc, (res, found, f)); literal = h.literal })
      | inr (o, n) ↦ cc (rw (f, n, take_in) at e)
    ]
    by_fan false [] f vals = cc (rw (f, vals, take_in) at e)
    by_fan false (v ∷ vs) f vals =
        subst (IsFromRefs results) {x = record c { scalar = (b.raw, v) ∷ c.scalar }}
          (cc (rw (f, vals, take_in) at e))
          (record {
            fan = h.fan;
            literal = λ s p. elim (Bool-cases (text_eq b.raw s)) [
              | inl same ↦ cc (rb, p, (text_eq_iff b.raw s).0 same)
              | inr other ↦ rw other (h.literal s p)
            ];
          })

round-IsFromRefs :
    (results : Results) (b : Ref) (c c' : Chosen)
    → IsRead b
    → round b results c ≡ ok (some c')
    → IsFromRefs results c
    → IsFromRefs results c'
unfolding round
round-IsFromRefs results b c c' rb went h = elim (Option-cases (resolve b results)) [
  | inl n ↦ cc (rw (n, round) at went)
  | inr (res, found) ↦ take_in-IsFromRefs results b c c' res rb found (rw (found, round) at went) h
]

pub choose-IsFromRefs :
    (results : Results) (refs : List Ref) (c c' : Chosen)
    → All IsRead refs
    → choose refs results c ≡ ok (some c')
    → IsFromRefs results c
    → IsFromRefs results c'
choose-IsFromRefs results [] c c' reads e h =
    subst (IsFromRefs results) {x = c} (unfold choose in cc) h
choose-IsFromRefs results (b ∷ refs) c c' reads e h =
    let (c1, went, rest) = choose-cons results b refs c c' e in
    choose-IsFromRefs results refs c1 c' reads.1 rest
      (round-IsFromRefs results b c c1 reads.0 went h)

pub start-IsFromRefs : (results : Results) → IsFromRefs results start
start-IsFromRefs results = record { fan = λ raw p. cc; literal = λ s p. refl }
