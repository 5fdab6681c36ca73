-- ===== src/Endpoint.antt =====
-- `mcp_endpoint` of services/mcp-server/app/main.py: JSON-RPC 2.0 over one POST.
use stpp_connector.Base.{
  Bool, false, Option, none, some, List, [], ◌∷◌, Text, codes, text_eq, put_text, if◌then◌else◌,
}
use stpp_connector.Json.{
  ℤ, negsuc, Value, Fields, null, int, str, arr, obj, end, field, get_field, items_of, lookup_key,
  truthy,
}
use stpp_connector.Dispatch.{User, Handler, ServerState, dispatch_tool_call}
use stpp_connector.Registry.{Observed, render, visible}

-- `{d["name"]: d for d in self._defs}`; a contract without a name is left out here and refused
-- there.
unfoldable pub by_name : List Value → List (Text × Value) → List (Text × Value)
by_name [] index = index
by_name (d ∷ ds) index = elim (lookup_key (codes "name") d) [
  | some (str name) ↦ by_name ds (put_text name d index)
  | _ ↦ by_name ds index
]

unfoldable pub rpc_result : Value → Fields → Value
rpc_result rpc_id result = obj (
    field (codes "jsonrpc") (str (codes "2.0"))
      (field (codes "id") rpc_id (field (codes "result") (obj result) end)))

unfoldable pub rpc_error : Value → ℤ → Text → Value
rpc_error rpc_id code message = obj (
    field (codes "jsonrpc") (str (codes "2.0")) (
      field (codes "id") rpc_id (
        field (codes "error")
          (obj (field (codes "code") (int code) (field (codes "message") (str message) end))) end)))

abbrev pub parse_failure : ℤ
parse_failure = negsuc 32699

abbrev pub invalid_request : ℤ
invalid_request = negsuc 32599

abbrev pub unknown_method : ℤ
unknown_method = negsuc 32600

abbrev pub is_text : Text → Option Value → Bool
is_text t (some (str s)) = text_eq s t
is_text t other = false

-- `value or {}`, for a value that then must be a dict.
unfoldable pub dict_or_empty : Option Value → Option Fields
dict_or_empty none = some end
dict_or_empty (some (obj fs)) = some fs
dict_or_empty (some v) = if truthy v then none else some end

abbrev pub id_or_null : Option Value → Value
id_or_null none = null
id_or_null (some v) = v

module _ {W : Type 0} (schema_errors : Value → Fields → List Text) (joined : List Text → Text)
    (dumps : Fields → Text) (defs : List Value) (handlers : List (Text × Handler W))
    (observed : Observed) where
  -- `tools/call`
  unfoldable pub call_method : User → Value → Fields → ServerState W → Value × ServerState W
  call_method user rpc_id params s = elim (get_field (codes "name") params) [
    | some (str name) ↦ elim (dict_or_empty (get_field (codes "arguments") params)) [
      | some arguments ↦
          let (result, after) =
            dispatch_tool_call schema_errors joined dumps (by_name defs []) handlers user name
              arguments s in
          (rpc_result rpc_id result, after)
      | none ↦ (
        rpc_error rpc_id invalid_request
            (codes "tools/call needs a string name and object arguments"),
        s,
      )
    ]
    | _ ↦ (
      rpc_error rpc_id invalid_request
          (codes "tools/call needs a string name and object arguments"),
      s,
    )
  ]

  unfoldable pub list_method : User → Fields
  list_method user =
      field (codes "tools") (arr (items_of (visible (render defs observed) user.roles))) end

  unfoldable pub method_of : User → Value → Value → Fields → ServerState W → Value × ServerState W
  method_of user method rpc_id params s =
      if is_text (codes "tools/list") (some method)
      then (rpc_result rpc_id (list_method user), s)
      else if is_text (codes "tools/call") (some method)
      then call_method user rpc_id params s
      else (rpc_error rpc_id unknown_method (codes "unknown method"), s)

  unfoldable pub with_params :
      User → Value → Value → Option Fields → ServerState W → Value × ServerState W
  with_params user method rpc_id none s =
      (rpc_error rpc_id invalid_request (codes "params must be an object"), s)
  with_params user method rpc_id (some params) s = method_of user method rpc_id params s

  -- A dict with `jsonrpc` 2.0, a method and an id.
  unfoldable pub request_of : User → Fields → ServerState W → Value × ServerState W
  request_of user body s =
      let refused =
        rpc_error (id_or_null (get_field (codes "id") body)) invalid_request
          (codes "invalid JSON-RPC 2.0 request") in
      if is_text (codes "2.0") (get_field (codes "jsonrpc") body)
      then elim (get_field (codes "method") body) [
        | none ↦ (refused, s)
        | some method ↦ elim (get_field (codes "id") body) [
          | none ↦ (refused, s)
          | some rpc_id ↦
              with_params user method rpc_id (dict_or_empty (get_field (codes "params") body)) s
        ]
      ]
      else (refused, s)

  -- The body as `request.json()` reads it, `none` where it raises.
  unfoldable pub mcp_endpoint : User → Option Value → ServerState W → Value × ServerState W
  mcp_endpoint user none s = (rpc_error null parse_failure (codes "parse error"), s)
  mcp_endpoint user (some (obj body)) s = request_of user body s
  mcp_endpoint user (some v) s =
      (rpc_error null invalid_request (codes "invalid JSON-RPC 2.0 request"), s)
