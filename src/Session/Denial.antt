-- ===== src/Session/Denial.antt =====
-- What a step of a plan meets on the server if the user may not call its tool:
-- services/integration-api/agent/runner.py over mcp_http.py, and
-- services/mcp-server/app/main.py behind it.
use stpp_connector.Base.{
  ℕ, suc, ◌≡◌, refl, sym, ap, ◌∙◌, true, false, Option, none, some, List, [], ◌∷◌, ◌++◌, Text,
  codes, lookup_text, Result, ok, err,
}
use stpp_connector.Json.{Value, Fields, obj}
use stpp_connector.Registry.{Observed}
use stpp_connector.Plan.{Step}
use stpp_connector.Refs.Calls.{FanPlan, plan_step_calls}
use stpp_connector.Dispatch.{
  Fault, User, Handler, ServerState, audited, has_role, error_result, admitted, audit,
  dispatch_tool_call,
}
use stpp_connector.Endpoint.{by_name}
use stpp_connector.Session.{SessionFault, tool_fault, transport, crashed, read_result, tools_call}
use stpp_connector.Session.Wire.{serve, tools_call-served}
use stpp_connector.Runner.Reports.{
  ToolFault, Answer, envelope, tool_error, transport_error, denied, Status, step_event,
}
use stpp_connector.Runner.Reports
use stpp_connector.Runner.Effects.{Services, Setting, RunState}
use stpp_connector.Runner.Steps.{progress, failed_report, execute_step}
use stpp_connector.Runner.Safety.{execute_step-denied}

-- What the runner sees of a call of the session; it catches the two exceptions of agent/errors.py.
unfoldable pub answer_of : Result SessionFault Fields → Option Answer
answer_of (ok result) = some (envelope (obj result))
answer_of (err (tool_fault e)) = some (tool_error e)
answer_of (err (transport text)) = some (transport_error text)
answer_of (err crashed) = none

abbrev pub denial : ToolFault
denial = record { code = codes "not_authorized"; message = codes "role required to call the tool" }

module _ {W : Type 0} (schema_errors : Value → Fields → List Text) (joined : List Text → Text)
    (dumps : Fields → Text) (defs : List Value) (handlers : List (Text × Handler W))
    (observed : Observed) where
  -- The server after a call that it refuses.
  abbrev pub refused : User → Text → Fields → ServerState W → ServerState W
  refused user name args s = record s {
    trace =
        s.trace
        ++ audited (
            audit schema_errors joined dumps (by_name defs []) handlers user name args (
              codes "not_authorized",
              error_result (codes "not_authorized") (codes "role required to call the tool"),
            ))
          ∷ [];
  }

  admitted-unauthorized :
      (user : User) (name : Text) (args : Fields) (tool : Value)
      → lookup_text name (by_name defs []) ≡ some tool
      → has_role tool user.roles ≡ false
      → admitted schema_errors joined dumps (by_name defs []) handlers user name args
        ≡ err (Fault.tool_error (codes "not_authorized") (codes "role required to call the tool"))
  unfolding admitted
  admitted-unauthorized user name args tool found lacks = rw (admitted, found, lacks) refl

  dispatch_tool_call-unauthorized :
      (user : User) (name : Text) (args : Fields) (s : ServerState W) (tool : Value)
      → lookup_text name (by_name defs []) ≡ some tool
      → has_role tool user.roles ≡ false
      → dispatch_tool_call schema_errors joined dumps (by_name defs []) handlers user name args s
        ≡ (
          error_result (codes "not_authorized") (codes "role required to call the tool"),
          refused user name args s,
        )
  unfolding dispatch_tool_call stpp_connector.Dispatch.handle stpp_connector.Dispatch.outcome_of
      audit
  dispatch_tool_call-unauthorized user name args s tool found lacks =
      rw (admitted-unauthorized user name args tool found lacks) refl

  tools_call-unauthorized :
      (user : User) (name : Text) (args : Fields) (n : ℕ) (s : ServerState W) (tool : Value)
      → lookup_text name (by_name defs []) ≡ some tool
      → has_role tool user.roles ≡ false
      → tools_call
          (serve schema_errors joined dumps defs handlers observed user)
          name
          (obj args)
          (n, s)
        ≡ (err (tool_fault denial), (suc n, refused user name args s))
  unfolding read_result stpp_connector.Json.get_field stpp_connector.Base.text_eq
  tools_call-unauthorized user name args n s tool found lacks =
      tools_call-served schema_errors joined dumps defs handlers observed user name args n s
      ∙ ap (λ d. (read_result d.0, (suc n, d.1)))
          (dispatch_tool_call-unauthorized user name args s tool found lacks)

  -- A step of one call, whose session reaches the server with the token of a user that has not the
  -- role of the tool: whatever the plan asks for, the step fails with the denial after that one
  -- call. No handler runs and the server's data stay as they are; its audit trail has one more
  -- entry. No LLM call follows.
  pub execute_step-unauthorized :
      (services : Services (ℕ × ServerState W)) (setting : Setting) (user : User) (step : Step)
      (r : RunState (ℕ × ServerState W)) (fan : FanPlan) (args : Fields) (tool : Value)
      → plan_step_calls step.args r.results setting.plan_max_fanout ≡ ok fan
      → fan.empty ≡ false
      → fan.fanned ≡ false
      → fan.calls ≡ obj args ∷ []
      → lookup_text step.tool (by_name defs []) ≡ some tool
      → has_role tool user.roles ≡ false
      → answer_of
          (tools_call
            (serve schema_errors joined dumps defs handlers observed user)
            step.tool
            (obj args)
            r.world).0
        ≡ some (services.call step.tool (obj args) r.world).0
      → (tools_call
          (serve schema_errors joined dumps defs handlers observed user)
          step.tool
          (obj args)
          r.world).1
        ≡ (services.call step.tool (obj args) r.world).1
      → execute_step services setting step r ≡ (
        ok (record { report = failed_report step (denied denial.message); failed = true }),
        record r {
          world = (suc r.world.0, refused user step.tool args r.world.1);
          log =
              r.log
              ++ (step_event (progress step Status.running none)
                  ∷ Reports.tools_call step.tool (obj args)
                  ∷ step_event (progress step Status.failed (some (denied denial.message)))
                  ∷ []);
        },
      )
  unfolding answer_of stpp_connector.Base.text_eq
  execute_step-unauthorized services setting user step r fan args tool planned h k calls found lacks
        answered moved =
      let served =
        tools_call-unauthorized user step.tool args r.world.0 r.world.1 tool found lacks in
      let first : (services.call step.tool (obj args) r.world).0 ≡ tool_error denial =
        cc (sym answered ∙ ap (λ d. answer_of d.0) served) in
      let second = sym moved ∙ ap (λ d. d.1) served in
      execute_step-denied services setting step r fan (obj args) denial _ planned h k calls
        (λ i. (first i, second i)) refl
