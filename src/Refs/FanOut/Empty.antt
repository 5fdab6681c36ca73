-- ===== src/Refs/FanOut/Empty.antt =====
-- `plan_step_calls`: why a plan is empty.
use stpp_connector.Base.{
  ℕ, ◌≡◌, refl, sym, ◌∙◌, ap, subst, Bool, true, false, ◌⊎◌, inl, inr, Option, none, some, List, [],
  ◌∷◌, Text, Result, ok, err, Member, top, below, Option-cases,
}
use stpp_connector.Json.{Value}
use stpp_connector.Refs.Syntax.{Ref}
use stpp_connector.Refs.Find.{Place, Found, find_refs}
use stpp_connector.Refs.Places.{IsRefAt}
use stpp_connector.Refs.Places.Complete.{find_refs-exact}
use stpp_connector.Refs.Resolve.{Results, Resolution, resolve}
use stpp_connector.Refs.Calls.{
  Chosen, CallFault, clash, take_in, round, choose, found_refs, start, calls_of,
}
use stpp_connector.Refs.FanOut.Handled.{choose-cons}

-- What the reference resolves to.
abbrev Resolves : Results → Ref → List Value → Type 0
Resolves results b values = (r : Resolution) × (resolve b results ≡ some r) × (r.values ≡ values)

take_in-none :
    (results : Results) (b : Ref) (c : Chosen) (res : Resolution)
    → resolve b results ≡ some res
    → take_in b c res ≡ ok none
    → Resolves results b []
unfolding take_in
take_in-none results b c res found e = by_fan res.fanned res.values refl refl
  where
    by_fan : (f : Bool) (vs : List Value) → res.fanned ≡ f → res.values ≡ vs → Resolves results b []
    by_fan true vs f vals = elim (Option-cases (clash c.fan_raw b.raw)) [
      | inl fits ↦ absurd (cc (rw (f, fits, take_in) at e))
      | inr (o, n) ↦ absurd (cc (rw (f, n, take_in) at e))
    ]
    by_fan false [] f vals = (res, found, vals)
    by_fan false (v ∷ vs) f vals = absurd (cc (rw (f, vals, take_in) at e))

round-none :
    (results : Results) (b : Ref) (c : Chosen) → round b results c ≡ ok none → Resolves results b []
unfolding round
round-none results b c e = elim (Option-cases (resolve b results)) [
  | inl n ↦ absurd (cc (rw (n, round) at e))
  | inr (res, found) ↦ take_in-none results b c res found (rw (found, round) at e)
]

-- A round leaves the values that fan out, or takes those of its reference.
abbrev Keeps : Chosen → Chosen → Type 0
Keeps c c' = (c'.fan_raw ≡ c.fan_raw) × (c'.fan_values ≡ c.fan_values)

take_in-fan :
    (results : Results) (b : Ref) (c c' : Chosen) (res : Resolution)
    → resolve b results ≡ some res
    → take_in b c res ≡ ok (some c')
    → Keeps c c' ⊎ Resolves results b c'.fan_values
unfolding take_in
take_in-fan results b c c' res found e = by_fan res.fanned res.values refl refl
  where
    by_fan :
        (f : Bool) (vs : List Value)
        → res.fanned ≡ f
        → res.values ≡ vs
        → Keeps c c' ⊎ Resolves results b c'.fan_values
    by_fan true vs f vals = elim (Option-cases (clash c.fan_raw b.raw)) [
      | inl fits ↦
          subst (λ (x : Chosen). Keeps c x ⊎ Resolves results b x.fan_values)
            {x = record c { fan_raw = some b.raw; fan_values = res.values }} {y = c'}
            (cc (rw (f, fits, take_in) at e)) (inr (res, found, refl))
      | inr (o, n) ↦ absurd (cc (rw (f, n, take_in) at e))
    ]
    by_fan false [] f vals = absurd (cc (rw (f, vals, take_in) at e))
    by_fan false (v ∷ vs) f vals =
        subst (λ (x : Chosen). Keeps c x ⊎ Resolves results b x.fan_values)
          {x = record c { scalar = (b.raw, v) ∷ c.scalar }} {y = c'}
          (cc (rw (f, vals, take_in) at e)) (inl (refl, refl))

round-fan :
    (results : Results) (b : Ref) (c c' : Chosen)
    → round b results c ≡ ok (some c')
    → Keeps c c' ⊎ Resolves results b c'.fan_values
unfolding round
round-fan results b c c' e = elim (Option-cases (resolve b results)) [
  | inl n ↦ absurd (cc (rw (n, round) at e))
  | inr (res, found) ↦ take_in-fan results b c c' res found (rw (found, round) at e)
]

-- One of the references resolves to the values.
abbrev OneResolves : Results → List Ref → List Value → Type 0
OneResolves results refs values = (b : Ref) × Member b refs × Resolves results b values

choose-none :
    (results : Results) (refs : List Ref) (c : Chosen)
    → choose refs results c ≡ ok none
    → OneResolves results refs []
unfolding choose
choose-none results [] c e = absurd (cc e)
choose-none results (b ∷ refs) c e =
    by_round (λ c1 k. choose-none results refs c1 k) (round b results c) refl
  where
    by_round :
        ((c1 : Chosen) → choose refs results c1 ≡ ok none → OneResolves results refs [])
        → (m : Result CallFault (Option Chosen)) → round b results c ≡ m
        → OneResolves results (b ∷ refs) []
    by_round later (err f) q = absurd (cc (rw (q, choose) at e))
    by_round later (ok none) q = (b, top refl, round-none results b c q)
    by_round later (ok (some c1)) q =
        let (d, member, r) = later c1 (rw (q, choose) at e) in (d, below member, r)

choose-fan :
    (results : Results) (refs : List Ref) (c c' : Chosen)
    → choose refs results c ≡ ok (some c')
    → Keeps c c' ⊎ OneResolves results refs c'.fan_values
choose-fan results [] c c' e =
    subst (λ (x : Chosen). Keeps c x ⊎ OneResolves results [] x.fan_values) {x = c} {y = c'}
      (unfold choose in cc) (inl (refl, refl))
choose-fan results (b ∷ refs) c c' e =
    let (c1, went, rest) = choose-cons results b refs c c' e in
    elim (choose-fan results refs c1 c' rest) [
      | inr (d, member, r) ↦ inr (d, below member, r)
      | inl (raw, values) ↦ elim (round-fan results b c c1 went) [
        | inl (raw1, values1) ↦ inl (raw ∙ raw1, values ∙ values1)
        | inr (r, found, vals) ↦ inr (b, top refl, (r, found, vals ∙ sym values))
      ]
    ]

-- A reference of the arguments that resolves to no value.
abbrev pub HasEmptyRef : Value → Results → Type 0
HasEmptyRef args results =
    (path : List Place) × (ref : Ref) × IsRefAt args path ref
    × ((r : Resolution) × (resolve ref results ≡ some r) × (r.values ≡ []))

Member-found_refs :
    {ref : Ref} (found : Found)
    → Member ref (found_refs found)
    → (path : List Place) × Member (path, ref) found
Member-found_refs [] m = elim m [ ]
Member-found_refs ((path, b) ∷ found) (top e) = (path, top (ap (λ r. (path, r)) e))
Member-found_refs ((path, b) ∷ found) (below m) =
    let (p, n) = Member-found_refs found m in (p, below n)

empty-HasEmptyRef :
    (args : Value) (results : Results) (found : Found)
    → find_refs args ≡ ok found
    → OneResolves results (found_refs found) []
    → HasEmptyRef args results
empty-HasEmptyRef args results found searched (b, member, r) =
    let (path, place) = Member-found_refs found member in
    (path, b, (find_refs-exact args found searched path b).0 place, r)

pub calls_of-empty :
    (args : Value) (results : Results) (n : ℕ) (found : Found) (o : Option Chosen)
    → find_refs args ≡ ok found
    → choose (found_refs found) results start ≡ ok o
    → (calls_of args n o).empty ≡ true
    → HasEmptyRef args results
unfolding calls_of
calls_of-empty args results n found none searched chose h =
    empty-HasEmptyRef args results found searched
      (choose-none results (found_refs found) start chose)
calls_of-empty args results n found (some c) searched chose h =
    by_fan c.fan_raw c.fan_values refl refl h
  where
    by_fan :
        (r : Option Text) (vs : List Value)
        → c.fan_raw ≡ r
        → c.fan_values ≡ vs
        → (calls_of args n (some (record c { fan_raw = r; fan_values = vs }))).empty ≡ true
        → HasEmptyRef args results
    by_fan none vs e1 e2 k = absurd (cc k)
    by_fan (some raw) (v ∷ vs) e1 e2 k = absurd (cc k)
    by_fan (some raw) [] e1 e2 k = elim (choose-fan results (found_refs found) start c chose) [
      | inl (same, v) ↦ absurd (cc (same, e1))
      | inr (b, member, (r, found_r, vals)) ↦
          empty-HasEmptyRef args results found searched (b, member, (r, found_r, vals ∙ e2))
    ]
