-- ===== src/Wdp/Client.antt =====
-- `WDPClient` of services/mcp-server/app/wdpclient.py.
use stpp_connector.Base.{
  Option, none, some, List, [], ◌∷◌, ◌++◌, Text, codes, Result, ok, err, if◌then◌else◌, ◌==◌,
}
use stpp_connector.Http.{Response, no_response, response}
use stpp_connector.Json.{Value, null, str, lookup_key}

-- `WDPError`
pub record WdpError : Type 0 where
  pub code : Text
  pub message : Text

-- The parameters of a query, those that are None left out.
abbrev pub QueryParams : Type 0
QueryParams = List (Text × Value)

abbrev pub optional_param : Text → Option Value → QueryParams → QueryParams
optional_param k none ps = ps
optional_param k (some null) ps = ps
optional_param k (some v) ps = (k, v) ∷ ps

-- `resp.json()["error"]["message"]`, or the fallback. A message that is no text is not shown.
unfoldable pub upstream_message : Option Value → Text → Text
upstream_message none fallback = fallback
upstream_message (some body) fallback = elim (lookup_key (codes "error") body) [
  | none ↦ fallback
  | some error ↦ elim (lookup_key (codes "message") error) [
    | some (str message) ↦ message
    | _ ↦ fallback
  ]
]

abbrev pub unavailable : Text → WdpError
unavailable message = record { code = codes "upstream_unavailable"; message = message }

-- What follows the request in `_get`.
unfoldable pub read_response : Response → Result WdpError Value
read_response (no_response text) = err (unavailable text)
read_response (response status body) =
    if status == 403
    then err (record {
      code = codes "not_authorized";
      message = upstream_message body (codes "not_authorized");
    })
    else if status == 404
    then err
        (record { code = codes "not_found"; message = upstream_message body (codes "not_found") })
    else if status == 200
    then elim body [
      | none ↦ err (unavailable (codes "WDP returned malformed JSON"))
      | some v ↦ ok v
    ]
    else err (unavailable (codes "WDP returned an HTTP status"))

-- `send path params` stands for the GET request of httpx, with the client's base URL and token.
module _ {W : Type 0} (send : Text → QueryParams → W → Response × W) where
  unfoldable pub get : Text → QueryParams → W → Result WdpError Value × W
  get path params w = let (reply, after) = send path params w in (read_response reply, after)

  unfoldable pub persons :
      Option Value → Option Value → Option Value → W → Result WdpError Value × W
  persons orcid name limit = get (codes "/v1/persons") (
      optional_param (codes "orcid") orcid
        (optional_param (codes "name") name (optional_param (codes "limit") limit [])))

  unfoldable pub entities :
      Option Value → Option Value → Option Value → W → Result WdpError Value × W
  entities uei name limit = get (codes "/v1/entities") (
      optional_param (codes "uei") uei
        (optional_param (codes "name") name (optional_param (codes "limit") limit [])))

  unfoldable pub documents : Text → Option Value → W → Result WdpError Value × W
  documents ref_id limit =
      get (codes "/v1/documents/" ++ ref_id) (optional_param (codes "limit") limit [])
