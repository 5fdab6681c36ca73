-- ===== src/FakeWdp/Denial.antt =====
-- A denied person, from the stand-in of services/fake-wdp/app/main.py to the tool of
-- services/mcp-server/app/wdp_tools.py that asks it.
use stpp_connector.Base.{
  ◌≡◌, refl, true, Option, some, List, [], ◌∷◌, ◌++◌, Text, codes, mem_text, Result, ok, err,
}
use stpp_connector.Json.{ℤ, Value, Fields, int, get_field}
use stpp_connector.Http.{Response}
use stpp_connector.Dispatch.{tool_error}
use stpp_connector.Rfff.Tools.{Limits}
use stpp_connector.Wdp.Client.{QueryParams, get, read_response, upstream_message}
use stpp_connector.Wdp.Tools.{
  limit_arg, ref_id_arg, answered, as_tool_error, retrieve_wdp_documents,
}
use stpp_connector.FakeWdp.Service.{Pool, denied_response, api_error, known_documents, documents}

module _ {W : Type 0} (pool : Pool W) (deny_orcids : List Text)
    (send : Text → QueryParams → W → Response × W) (limits : Limits) where
  documents-denied :
      (ref_id uuid orcid : Text) (limit : Option ℤ) (w : W)
      → pool.uuid_of ref_id ≡ some uuid
      → (pool.person_orcid uuid w).0 ≡ some (some orcid)
      → mem_text orcid deny_orcids ≡ true
      → documents pool deny_orcids ref_id limit w ≡ (denied_response, (pool.person_orcid uuid w).1)
  unfolding documents known_documents
  documents-denied ref_id uuid orcid limit w parsed found denied =
      rw (documents, parsed, found, denied) refl

  -- The tool asks for the documents of a person whom WDP denies, and its request reaches the
  -- service: the tool fails with not_authorized and the message of the service, and only the person
  -- was looked up; the query for the documents is not made.
  pub retrieve_wdp_documents-denied :
      (args : Fields) (ref_id uuid orcid : Text) (limit : ℤ) (w : W)
      → ref_id_arg send limits args ≡ ok ref_id
      → limit_arg send limits args ≡ ok (some (int limit))
      → send (codes "/v1/documents/" ++ ref_id) ((codes "limit", int limit) ∷ []) w
        ≡ documents pool deny_orcids ref_id (some limit) w
      → pool.uuid_of ref_id ≡ some uuid
      → (pool.person_orcid uuid w).0 ≡ some (some orcid)
      → mem_text orcid deny_orcids ≡ true
      → retrieve_wdp_documents send limits args w ≡ (
        err (tool_error (codes "not_authorized") (codes "WDP denies access to this person")),
        (pool.person_orcid uuid w).1,
      )
  unfolding retrieve_wdp_documents answered as_tool_error stpp_connector.Wdp.Client.documents get
      read_response upstream_message api_error stpp_connector.Json.lookup_key get_field
      stpp_connector.Base.text_eq
  retrieve_wdp_documents-denied args ref_id uuid orcid limit w asked bounded reached parsed found
        denied =
      rw
        (
          retrieve_wdp_documents,
          asked,
          bounded,
          reached,
          documents-denied ref_id uuid orcid (some limit) w parsed found denied,
        )
        refl
