-- ===== src/Tests/WireTests.antt =====
-- The agent, the server and the stand-ins together, on small inputs.
use stpp_connector.Base.{
  ℕ, suc, ◌≡◌, refl, true, false, Option, none, some, List, [], ◌∷◌, Text, codes, text_eq, mem_text,
  ok, err,
}
use stpp_connector.Json.{ℤ, pos, Value, Fields, int, str, obj, arr, nil, end, field, get_field}
use stpp_connector.Http.{Response}
use stpp_connector.Dispatch.{
  tool_error, User, Handler, ServerState, has_role, dispatch_tool_call, outcome_of, admitted,
  handle,
}
use stpp_connector.Endpoint.{by_name}
use stpp_connector.Session.{read_result}
use stpp_connector.Session
use stpp_connector.Session.Wire.{serve, tools_call-served}
use stpp_connector.Session.Denial.{answer_of, denial, refused, execute_step-unauthorized}
use stpp_connector.Refs.Calls.{FanPlan, plan_step_calls}
use stpp_connector.Rfff.Rows.{clamp_limit}
use stpp_connector.Runner.Reports.{denied, Status, step_event, transport_error, Answer}
use stpp_connector.Runner.Reports
use stpp_connector.Runner.Effects.{Services, Setting, RunState}
use stpp_connector.Runner.Steps.{progress, failed_report, execute_step}
use stpp_connector.Rfff.Tools.{Limits}
use stpp_connector.Wdp.Client.{QueryParams}
use stpp_connector.Wdp.Tools.{limit_arg, retrieve_wdp_documents}
use stpp_connector.FakeWdp.Service.{Pool, documents}
use stpp_connector.FakeWdp.Denial.{retrieve_wdp_documents-denied}
use stpp_connector.Tests.PlanTests.{
  checking, no_errors, session_tools, plan_schema, people_step, plan_document,
}

abbrev personnel_tool : Value
personnel_tool = obj (
    field (codes "name") (str (codes "search_personnel")) (
      field (codes "x-role") (str (codes "rfff_reader"))
        (field (codes "inputSchema") (obj end) end)))

abbrev personnel_handlers : List (Text × Handler ℕ)
personnel_handlers = (codes "search_personnel", λ args n. (ok end, suc n)) ∷ []

-- A user without roles.
abbrev guest : User
guest = record { sub = codes "u2"; name = []; component = []; roles = [] }

abbrev idle : ServerState ℕ
idle = record { world = 0; trace = [] }

abbrev no_schema_errors : Value → Fields → List Text
no_schema_errors schema args = []

abbrev joined : List Text → Text
joined ts = []

abbrev dumped : Fields → Text
dumped fs = []

tools_call-served_example :
    Session.tools_call
      (serve no_schema_errors joined dumped (personnel_tool ∷ []) personnel_handlers [] guest)
      (codes "search_personnel")
      (obj end)
      (1, idle)
    ≡ (
      read_result
          (dispatch_tool_call no_schema_errors joined dumped
            (by_name (personnel_tool ∷ []) [])
            personnel_handlers
            guest
            (codes "search_personnel")
            end
            idle).0,
      (
        2,
        (dispatch_tool_call no_schema_errors joined dumped
            (by_name (personnel_tool ∷ []) [])
            personnel_handlers
            guest
            (codes "search_personnel")
            end
            idle).1,
      ),
    )
tools_call-served_example =
    tools_call-served no_schema_errors joined dumped (personnel_tool ∷ []) personnel_handlers []
      guest (codes "search_personnel") end 1 idle

abbrev post : Value → ServerState ℕ → Response × ServerState ℕ
post = serve no_schema_errors joined dumped (personnel_tool ∷ []) personnel_handlers [] guest

abbrev or_crashed : Option Answer → Answer
or_crashed none = transport_error []
or_crashed (some a) = a

-- The session of the agent goes to the server.
abbrev connected : Services (ℕ × ServerState ℕ)
connected = record {
  complete = λ q w. (ok (codes "{}"), w);
  call = λ tool args w.
      let (result, after) = Session.tools_call post tool args w in
      (or_crashed (answer_of result), after);
  schema_errors = no_errors;
  loads = λ text. ok plan_document;
  dumps = λ v. codes "...";
}

abbrev small_setting : Setting
small_setting = record {
  plan_max_steps = 8;
  plan_max_fanout = 5;
  plan_schema = plan_schema;
  tools = session_tools;
  observed = [];
}

abbrev first_run : RunState (ℕ × ServerState ℕ)
first_run = record { world = (1, idle); results = []; current_intent = []; log = [] }

abbrev people_call : FanPlan
people_call = record {
  calls = people_step.args ∷ [];
  truncated_count = 0;
  empty = false;
  fanned = false;
}

people_planned : plan_step_calls people_step.args [] 5 ≡ ok people_call
unfolding checking
people_planned = refl

guest_refused :
    answer_of (Session.tools_call post (codes "search_personnel") people_step.args (1, idle)).0
    ≡ some (Services.call connected (codes "search_personnel") people_step.args (1, idle)).0
unfolding answer_of Session.tools_call Session.rpc Session.read_reply Session.read_body read_result
    stpp_connector.Endpoint.mcp_endpoint stpp_connector.Endpoint.request_of
    stpp_connector.Endpoint.with_params stpp_connector.Endpoint.method_of
    stpp_connector.Endpoint.call_method stpp_connector.Endpoint.dict_or_empty
    stpp_connector.Endpoint.rpc_result by_name dispatch_tool_call admitted handle outcome_of
    has_role get_field stpp_connector.Json.lookup_key text_eq mem_text
guest_refused = refl

abbrev people_fields : Fields
people_fields = field (codes "proposal_number") (str (codes "N-1")) end

-- The role of the tool is not among the guest's.
execute_step-unauthorized_example : execute_step connected small_setting people_step first_run ≡ (
  ok (record { report = failed_report people_step (denied denial.message); failed = true }),
  record first_run {
    world = (
      2,
      refused no_schema_errors joined dumped
          (personnel_tool ∷ [])
          personnel_handlers
          []
          guest
          (codes "search_personnel")
          people_fields
          idle,
    );
    log =
        step_event (progress people_step Status.running none)
        ∷ Reports.tools_call (codes "search_personnel") (obj people_fields)
        ∷ step_event (progress people_step Status.failed (some (denied denial.message)))
        ∷ [];
  },
)
unfolding by_name has_role get_field stpp_connector.Json.lookup_key text_eq mem_text
execute_step-unauthorized_example =
    execute_step-unauthorized no_schema_errors joined dumped (personnel_tool ∷ [])
      personnel_handlers [] connected small_setting guest people_step first_run people_call
      people_fields personnel_tool people_planned refl refl refl refl refl guest_refused refl

-- One person, who is denied.
abbrev one_person : Pool ℕ
one_person = record {
  uuid_of = λ t. some t;
  loads = λ t. str t;
  person_orcid = λ id n. (some (some (codes "0002")), suc n);
  has_entity = λ id n. (false, suc n);
  fetch_persons = λ q n. ([], suc n);
  fetch_entities = λ q n. ([], suc n);
  fetch_documents = λ q n. ([], suc n);
}

abbrev to_documents : Text → QueryParams → ℕ → Response × ℕ
to_documents path params = documents one_person (codes "0002" ∷ []) (codes "r1") (some (pos 50))

abbrev limits : Limits
limits = record { max_rows = 50; max_chars = 1000 }

abbrev document_args : Fields
document_args = field (codes "ref_id") (str (codes "r1")) end

retrieve_wdp_documents-denied_example :
    retrieve_wdp_documents to_documents limits document_args 0
    ≡ (err (tool_error (codes "not_authorized") (codes "WDP denies access to this person")), 1)
unfolding limit_arg clamp_limit get_field text_eq mem_text
retrieve_wdp_documents-denied_example =
    retrieve_wdp_documents-denied one_person (codes "0002" ∷ []) to_documents limits document_args
      (codes "r1") (codes "r1") (codes "0002") (pos 50) 0 refl refl refl refl refl refl
