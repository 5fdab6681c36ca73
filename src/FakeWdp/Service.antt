-- ===== src/FakeWdp/Service.antt =====
-- The handlers of services/fake-wdp/app/main.py. The delay that `?_delay` asks for is not modelled.
use stpp_connector.Base.{
  ℕ, Bool, false, Option, none, some, List, [], ◌∷◌, ◌++◌, Text, codes, text_eq, mem_text, map,
  if◌then◌else◌,
}
use stpp_connector.Json.{ℤ, pos, Value, int, str, arr, obj, end, field, items_of}
use stpp_connector.Http.{Response, response}
use stpp_connector.Rfff.Sql.{Query}
use stpp_connector.FakeWdp.Queries.{persons_sql, entities_sql, documents_sql}

-- `ApiError`, as `api_error_handler` answers it.
unfoldable pub api_error : ℕ → Text → Text → Response
api_error status code message = response status (
    some (
      obj (
        field (codes "error")
          (obj (field (codes "code") (str code) (field (codes "message") (str message) end))) end)))

abbrev pub denied_response : Response
denied_response = api_error 403 (codes "not_authorized") (codes "WDP denies access to this person")

abbrev pub unknown_response : Response
unknown_response = api_error 404 (codes "not_found") (codes "unknown ref_id")

-- The rows of the three queries; ids as their texts.
pub record WdpPerson : Type 0 where
  pub ref_id : Text
  pub orcid : Value
  pub name : Value
  pub affiliations : List Value
  pub publication_count : ℤ
  pub funding_count : ℤ
  pub total : ℤ

pub record WdpEntity : Type 0 where
  pub ref_id : Text
  pub uei : Value
  pub name : Value
  pub country : Value
  pub record_count : ℤ
  pub total : ℤ

pub record WdpDocument : Type 0 where
  pub doc_id : Text
  pub type : Value
  pub title : Value
  pub year : Value
  pub source : Value
  pub detail : Value
  pub total : ℤ

unfoldable pub results_of : List Value → ℤ → Value
results_of rows total =
    obj (field (codes "results") (arr (items_of rows)) (field (codes "total") (int total) end))

-- `int(rows[0]["total"]) if rows else 0`
abbrev pub first_total : {A : Type 0} → (A → ℤ) → List A → ℤ
first_total total [] = pos 0
first_total total (r ∷ rs) = total r

unfoldable pub person_result : WdpPerson → Value
person_result row = obj (
    field (codes "ref_id") (str row.ref_id) (
      field (codes "orcid") row.orcid (
        field (codes "name") row.name (
          field (codes "affiliations") (arr (items_of row.affiliations)) (
            field (codes "publication_count") (int row.publication_count)
              (field (codes "funding_count") (int row.funding_count) end))))))

unfoldable pub entity_result : WdpEntity → Value
entity_result row = obj (
    field (codes "ref_id") (str row.ref_id) (
      field (codes "uei") row.uei (
        field (codes "name") row.name (
          field (codes "country") row.country
            (field (codes "record_count") (int row.record_count) end)))))

-- `_decode_detail`
abbrev pub decode_detail : (Text → Value) → Value → Value
decode_detail loads (str s) = loads s
decode_detail loads v = v

unfoldable pub document_result : (Text → Value) → WdpDocument → Value
document_result loads row = obj (
    field (codes "doc_id") (str row.doc_id) (
      field (codes "type") row.type (
        field (codes "title") row.title (
          field (codes "year") row.year (
            field (codes "source") row.source
              (field (codes "detail") (decode_detail loads row.detail) end))))))

-- The pool, `uuid.UUID` and `json.loads`. `person_orcid` and `has_entity` are the two lookups of a
-- ref_id; a person may have no ORCID.
pub record Pool (W : Type 0) : Type 0 where
  pub uuid_of : Text → Option Text
  pub loads : Text → Value
  pub person_orcid : Text → W → Option (Option Text) × W
  pub has_entity : Text → W → Bool × W
  pub fetch_persons : Query → W → List WdpPerson × W
  pub fetch_entities : Query → W → List WdpEntity × W
  pub fetch_documents : Query → W → List WdpDocument × W

abbrev pub is_denied : List Text → Option Text → Bool
is_denied deny_orcids none = false
is_denied deny_orcids (some orcid) = mem_text orcid deny_orcids

module _ {W : Type 0} (pool : Pool W) (deny_orcids : List Text) where
  unfoldable pub persons : Option Text → Option Text → Option ℤ → W → Response × W
  persons orcid name limit w =
      if is_denied deny_orcids orcid
      then (denied_response, w)
      else let (rows, after) = pool.fetch_persons (persons_sql orcid name limit) w in
        (
          response 200
              (some (results_of (map person_result rows) (first_total (λ r. r.total) rows))),
          after,
        )

  unfoldable pub entities : Option Text → Option Text → Option ℤ → W → Response × W
  entities uei name limit w =
      let (rows, after) = pool.fetch_entities (entities_sql uei name limit) w in
      (
        response 200 (some (results_of (map entity_result rows) (first_total (λ r. r.total) rows))),
        after,
      )

  unfoldable pub listed_documents : Text → Option ℤ → W → Response × W
  listed_documents ref_uuid limit w =
      let (rows, after) = pool.fetch_documents (documents_sql ref_uuid limit) w in
      (
        response 200 (
            some (
              results_of (map (document_result pool.loads) rows)
                (first_total (λ r. r.total) rows))),
        after,
      )

  -- No person has the id: it is an entity's, or unknown.
  unfoldable pub entity_documents : Text → Option ℤ → W → Response × W
  entity_documents ref_uuid limit w =
      let (found, after) = pool.has_entity ref_uuid w in
      if found then listed_documents ref_uuid limit after else (unknown_response, after)

  unfoldable pub known_documents : Text → Option ℤ → Option (Option Text) × W → Response × W
  known_documents ref_uuid limit (none, w) = entity_documents ref_uuid limit w
  known_documents ref_uuid limit (some orcid, w) =
      if is_denied deny_orcids orcid
      then (denied_response, w)
      else listed_documents ref_uuid limit w

  unfoldable pub documents : Text → Option ℤ → W → Response × W
  documents ref_id limit w = elim (pool.uuid_of ref_id) [
    | none ↦ (unknown_response, w)
    | some ref_uuid ↦ known_documents ref_uuid limit (pool.person_orcid ref_uuid w)
  ]

-- `require_token`, which comes before every handler but healthz.
unfoldable pub with_token :
    {W : Type 0} → Text → Option Text → (W → Response × W) → W → Response × W
with_token wdp_fake_token none handler w =
    (api_error 401 (codes "unauthorized") (codes "missing or invalid bearer token"), w)
with_token wdp_fake_token (some header) handler w =
    if text_eq header (codes "Bearer " ++ wdp_fake_token)
    then handler w
    else (api_error 401 (codes "unauthorized") (codes "missing or invalid bearer token"), w)
