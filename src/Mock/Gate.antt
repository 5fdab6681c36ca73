-- ===== src/Mock/Gate.antt =====
-- Whom the stand-in answers.
use stpp_connector.Base.{
  ◌≡◌, true, some, List, [], ◌∷◌, Text, Bool-cases, Option-cases, inl, inr, Member, top, below, ok,
}
use stpp_connector.Json.{Value, Fields}
use stpp_connector.Mock.Session.{
  Fixture, is_named, definition_of, may_call, tools_list, allowed, tools_call,
}

module _ (lower : Text → Text) (deny_orcids : List Text) (roles : List Text) (defs : List Value)
    (fixtures : List (Text × Fixture)) where
  -- The tool's definition, which `tools/list` shows to the user.
  pub record IsListed (tool : Text) : Type 0 where
    pub definition : Value
    pub named : is_named tool definition ≡ true
    pub shown : Member definition (tools_list lower deny_orcids roles defs fixtures defs)

  definition_of-Member :
      (tool : Text) (d : Value) (ds : List Value)
      → definition_of tool ds ≡ some d
      → may_call roles d ≡ true
      → (is_named tool d ≡ true) × Member d (tools_list lower deny_orcids roles defs fixtures ds)
  unfolding definition_of tools_list
  definition_of-Member tool d [] h k = absurd (cc h)
  definition_of-Member tool d (e ∷ ds) h k = elim (Bool-cases (is_named tool e)) [
    | inl f ↦
        let same : e ≡ d = cc (rw (definition_of, f) at h) in
        let may : may_call roles e ≡ true = cc in
        let named : is_named tool d ≡ true = cc in (named, rw (tools_list, may) (top same))
    | inr f ↦
        let (named, m) = definition_of-Member tool d ds (rw (definition_of, f) at h) k in
        elim (Bool-cases (may_call roles e)) [
          | inl g ↦ (named, rw (tools_list, g) (below m))
          | inr g ↦ (named, rw (tools_list, g) m)
        ]
  ]

  -- The stand-in answers a call, with a fixture or a canned result, only if the tool is one that it
  -- lists for the same user: a tool whose role the user has. Any other call raises.
  pub tools_call-IsListed :
      (tool : Text) (args result : Fields)
      → tools_call lower deny_orcids roles defs fixtures tool args ≡ ok result
      → IsListed tool
  unfolding tools_call allowed
  tools_call-IsListed tool args result h = elim (Option-cases (definition_of tool defs)) [
    | inl e ↦ absurd (cc (rw (tools_call, e) at h))
    | inr (d, e) ↦ elim (Bool-cases (may_call roles d)) [
      | inr f ↦ absurd (cc (rw (tools_call, e, allowed, f) at h))
      | inl f ↦
          let (named, shown) = definition_of-Member tool d defs e f in
          record { definition = d; named = named; shown = shown }
    ]
  ]
