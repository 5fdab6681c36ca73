-- ===== src/Session/Wire.antt =====
-- A session whose POST reaches the MCP server: `tools_call` of
-- services/integration-api/agent/mcp_http.py over `mcp_endpoint` of
-- services/mcp-server/app/main.py.
use stpp_connector.Base.{ℕ, suc, ◌≡◌, refl, some, List, [], Text}
use stpp_connector.Json.{Value, Fields, obj}
use stpp_connector.Http.{Response, response}
use stpp_connector.Registry.{Observed}
use stpp_connector.Dispatch.{User, Handler, ServerState, dispatch_tool_call}
use stpp_connector.Endpoint.{by_name, mcp_endpoint}
use stpp_connector.Session.{read_result, tools_call}

module _ {W : Type 0} (schema_errors : Value → Fields → List Text) (joined : List Text → Text)
    (dumps : Fields → Text) (defs : List Value) (handlers : List (Text × Handler W))
    (observed : Observed) where
  -- The POST of a user whose token the server accepts: the reply is passed on as it is.
  abbrev pub serve : User → Value → ServerState W → Response × ServerState W
  serve user body s =
      let (reply, after) =
        mcp_endpoint schema_errors joined dumps defs handlers observed user (some body) s in
      (response 200 (some reply), after)

  -- Over that POST, a tool call of the agent is the call of the tool on the server: the requests
  -- and replies of JSON-RPC between them lose and add nothing, for any name, arguments and state,
  -- and one id is used up.
  pub tools_call-served :
      (user : User) (name : Text) (args : Fields) (n : ℕ) (s : ServerState W)
      → tools_call (serve user) name (obj args) (n, s) ≡ (
        read_result
            (dispatch_tool_call schema_errors joined dumps
              (by_name defs [])
              handlers
              user
              name
              args
              s).0,
        (
          suc n,
          (dispatch_tool_call schema_errors joined dumps
              (by_name defs [])
              handlers
              user
              name
              args
              s).1,
        ),
      )
  unfolding tools_call stpp_connector.Session.rpc stpp_connector.Session.read_reply
      stpp_connector.Session.read_body mcp_endpoint stpp_connector.Endpoint.request_of
      stpp_connector.Endpoint.with_params stpp_connector.Endpoint.method_of
      stpp_connector.Endpoint.call_method stpp_connector.Endpoint.dict_or_empty
      stpp_connector.Endpoint.rpc_result stpp_connector.Json.get_field read_result
      stpp_connector.Base.text_eq dispatch_tool_call
  tools_call-served user name args n s = refl
