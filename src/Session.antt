-- ===== src/Session.antt =====
-- `HTTPMCPSession` of services/integration-api/agent/mcp_http.py.
pub mod Wire
pub mod Denial
use stpp_connector.Base.{
  ℕ, suc, Bool, true, false, Option, none, some, List, [], ◌∷◌, Text, codes, Result, ok, err,
  if◌then◌else◌, ◌==◌,
}
use stpp_connector.Http.{Response, no_response, response}
use stpp_connector.Json.{
  ℤ, pos, Value, Items, Fields, int, str, arr, obj, end, field, get_field, truthy,
}
use stpp_connector.Runner.Reports.{ToolFault}

-- MCPToolError, MCPTransportError, or an AttributeError on an `error` that is no dict.
pub data SessionFault : Type 0 where
  tool_fault : ToolFault → SessionFault
  transport : Text → SessionFault
  crashed : SessionFault

abbrev pub payload : ℕ → Text → Fields → Value
payload n method params = obj (
    field (codes "jsonrpc") (str (codes "2.0")) (
      field (codes "id") (int (pos n))
        (field (codes "method") (str method) (field (codes "params") (obj params) end))))

-- `error = body["error"] or {}`, of which the code and the message are read.
unfoldable pub rpc_fault : Value → SessionFault
rpc_fault (obj fs) = transport (codes "JSON-RPC error")
rpc_fault v = if truthy v then crashed else transport (codes "JSON-RPC error")

unfoldable pub read_body : Fields → Result SessionFault Fields
read_body body = elim (get_field (codes "error") body) [
  | some error ↦ err (rpc_fault error)
  | none ↦ elim (get_field (codes "result") body) [
    | some (obj result) ↦ ok result
    | _ ↦ err (transport (codes "JSON-RPC response missing result"))
  ]
]

-- What `_rpc` makes of the response.
unfoldable pub read_reply : Response → Result SessionFault Fields
read_reply (no_response text) = err (transport text)
read_reply (response status body) =
    if status == 200
    then elim body [
      | none ↦ err (transport (codes "MCP server returned malformed JSON"))
      | some (obj fs) ↦ read_body fs
      | some v ↦ err (transport (codes "MCP response is not a JSON-RPC object"))
    ]
    else err (transport (codes "MCP server returned an HTTP status"))

-- `error.get(key, default)`. A value that is no text, which the servers never send, is passed on by
-- the source and taken for the default here.
abbrev pub text_or : Text → Option Value → Text
text_or d (some (str s)) = s
text_or d other = d

-- `error` of a result, if it is a dict.
unfoldable pub read_result : Fields → Result SessionFault Fields
read_result result = elim (get_field (codes "error") result) [
  | some (obj error) ↦ err (
      tool_fault (record {
        code = text_or (codes "upstream_unavailable") (get_field (codes "code") error);
        message = text_or [] (get_field (codes "message") error);
      }))
  | _ ↦ ok result
]

unfoldable pub read_tools : Fields → Result SessionFault Items
read_tools result = elim (get_field (codes "tools") result) [
  | some (arr tools) ↦ ok tools
  | _ ↦ err (transport (codes "tools/list result missing tools array"))
]

-- `post` stands for the POST of httpx to /mcp, with the user's token; the number is the next id.
module _ {W : Type 0} (post : Value → W → Response × W) where
  unfoldable pub rpc : Text → Fields → ℕ × W → Result SessionFault Fields × (ℕ × W)
  rpc method params (n, w) =
      let (reply, after) = post (payload n method params) w in (read_reply reply, (suc n, after))

  unfoldable pub tools_list : ℕ × W → Result SessionFault Items × (ℕ × W)
  tools_list s =
      let (reply, after) = rpc (codes "tools/list") end s in
      (elim reply [ err e ↦ err e | ok result ↦ read_tools result ], after)

  unfoldable pub tools_call : Text → Value → ℕ × W → Result SessionFault Fields × (ℕ × W)
  tools_call tool args s =
      let params = field (codes "name") (str tool) (field (codes "arguments") args end) in
      let (reply, after) = rpc (codes "tools/call") params s in
      (elim reply [ err e ↦ err e | ok result ↦ read_result result ], after)
