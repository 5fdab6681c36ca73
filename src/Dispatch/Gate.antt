-- ===== src/Dispatch/Gate.antt =====
-- Every call is checked and audited.
use stpp_connector.Base.{
  ◌≡◌, refl, true, some, List, [], ◌∷◌, ◌++◌, append_assoc, Text, codes, ◌⊎◌, inl, inr, Bool-cases,
  Option-cases, lookup_text, Result, ok, err, >>=-Through,
}
use stpp_connector.Json.{Value, Fields, lookup_key}
use stpp_connector.Dispatch.{
  Fault, tool_error, crash, Handled, User, Audit, ran, audited, Handler, ServerState, has_role,
  error_result, outcome_of, validate_arguments, admitted, handle, audit, dispatch_tool_call,
}

module _ {W : Type 0} (schema_errors : Value → Fields → List Text) (joined : List Text → Text)
    (dumps : Fields → Text) (registry : List (Text × Value))
    (handlers : List (Text × Handler W)) where
  -- The tool is registered, the user has its role, and the arguments fit its schema.
  pub record IsAllowed (user : User) (name : Text) (arguments : Fields) : Type 0 where
    pub tool : Value
    pub registered : lookup_text name registry ≡ some tool
    pub authorized : has_role tool user.roles ≡ true
    pub schema : Value
    pub declared : lookup_key (codes "inputSchema") tool ≡ some schema
    pub valid : schema_errors schema arguments ≡ []

  validate_arguments-nil :
      (schema : Value) (arguments : Fields)
      → validate_arguments schema_errors joined dumps registry handlers schema arguments ≡ ok tt
      → schema_errors schema arguments ≡ []
  unfolding validate_arguments
  validate_arguments-nil schema arguments h = by_errors (schema_errors schema arguments) refl
    where
      by_errors :
          (es : List Text)
          → schema_errors schema arguments ≡ es
          → schema_errors schema arguments ≡ []
      by_errors [] k = k
      by_errors (e ∷ es) k = cc (rw (validate_arguments, k) at h)

  admitted-IsAllowed :
      (user : User) (name : Text) (arguments : Fields) (handler : Handler W)
      → admitted schema_errors joined dumps registry handlers user name arguments ≡ ok handler
      → IsAllowed user name arguments
  unfolding admitted
  admitted-IsAllowed user name arguments handler h =
      elim (Option-cases (lookup_text name registry)) [
        | inl e ↦ cc (rw (admitted, e) at h)
        | inr (tool, e) ↦ elim (Bool-cases (has_role tool user.roles)) [
          | inr f ↦ cc (rw (admitted, e, f) at h)
          | inl f ↦ elim (Option-cases (lookup_key (codes "inputSchema") tool)) [
            | inl g ↦ cc (rw (admitted, e, f, g) at h)
            | inr (schema, g) ↦
                let (u, checked, rest) =
                  >>=-Through
                    (validate_arguments schema_errors joined dumps registry handlers schema
                      arguments)
                    _ (rw (admitted, e, f, g) at h) in
                record {
                  tool = tool;
                  registered = e;
                  authorized = f;
                  schema = schema;
                  declared = g;
                  valid = validate_arguments-nil schema arguments checked;
                }
          ]
        ]
      ]

  -- The outcome is ok, or it is the code in the error of the result.
  abbrev pub IsTold : Text → Fields → Type 0
  IsTold outcome result =
      (outcome ≡ codes "ok") ⊎ ((message : Text) × (result ≡ error_result outcome message))

  outcome_of-IsTold : (h : Handled) → IsTold (outcome_of h).0 (outcome_of h).1
  unfolding outcome_of
  outcome_of-IsTold (ok result) = inl refl
  outcome_of-IsTold (err (tool_error code message)) = inr (message, refl)
  outcome_of-IsTold (err crash) = inr (codes "internal error", refl)

  -- What one call adds to the trace, with its result.
  pub record IsAudited (user : User) (name : Text) (arguments : Fields) (s : ServerState W)
      (done : Fields × ServerState W) : Type 0 where
    pub entry : Audit
    pub of_user : entry.sub ≡ user.sub
    pub of_tool : entry.tool ≡ name
    pub of_args : entry.args ≡ arguments
    pub told : IsTold entry.outcome done.0
    pub gated :
        ((done.1.trace ≡ s.trace ++ audited entry ∷ []) × (done.1.world ≡ s.world))
        ⊎ (IsAllowed user name arguments
            × (done.1.trace ≡ s.trace ++ (ran name arguments ∷ audited entry ∷ [])))

  finished :
      {user : User} {name : Text} {arguments : Fields} {s : ServerState W}
      (x : Result Fault (Handler W))
      → admitted schema_errors joined dumps registry handlers user name arguments ≡ x
      → IsAudited user name arguments s
          (dispatch_tool_call schema_errors joined dumps registry handlers user name arguments s)
  unfolding dispatch_tool_call handle audit
  finished {user} {name} {arguments} {s} (err fault) e = rw e (record {
    entry =
        audit schema_errors joined dumps registry handlers user name arguments
          (outcome_of (err fault));
    of_user = refl;
    of_tool = refl;
    of_args = refl;
    told = outcome_of-IsTold (err fault);
    gated = inl (refl, refl);
  })
  finished {user} {name} {arguments} {s} (ok handler) e = rw e (record {
    entry =
        audit schema_errors joined dumps registry handlers user name arguments
          (outcome_of (handler arguments s.world).0);
    of_user = refl;
    of_tool = refl;
    of_args = refl;
    told = outcome_of-IsTold (handler arguments s.world).0;
    gated = inr (
      admitted-IsAllowed user name arguments handler e,
      append_assoc s.trace (ran name arguments ∷ []) _,
    );
  })

  -- Each call of a tool adds exactly one audit record, its last entry, with the user, the tool and
  -- the arguments, and its outcome is ok or the code of the error that is returned. The handler
  -- runs only if the tool is registered, the user has its role and the arguments fit its schema;
  -- otherwise nothing else changes.
  pub dispatch_tool_call-IsAudited :
      (user : User) (name : Text) (arguments : Fields) (s : ServerState W)
      → IsAudited user name arguments s
          (dispatch_tool_call schema_errors joined dumps registry handlers user name arguments s)
  dispatch_tool_call-IsAudited user name arguments s =
      finished (admitted schema_errors joined dumps registry handlers user name arguments) refl
