-- ===== src/Mock/Canned.antt =====
-- `_canned` of services/integration-api/agent/mcp_mock.py: the results of the tools.
use stpp_connector.Base.{
  Bool, true, false, ◌&&◌, Option, none, some, List, [], ◌∷◌, ◌++◌, Text, codes, text_eq, mem_text,
  strip_prefix, if◌then◌else◌, Result, ok, err,
}
use stpp_connector.Json.{Value, Fields, int, pos, str, arr, obj, nil, get_field}
use stpp_connector.Mock.Rows.{
  MockFault, crashed, dict_of, list_of, refusal, meta, result, proposal_row, personnel,
  found_person, aggregated, group_by_of, ends_with, dashed, optional_text, or_else, text_or_null,
}

module _ (lower : Text → Text) (deny_orcids : List Text) where
  unfoldable pub wdp_person : Fields → Text → Text → Result MockFault Fields
  wdp_person args orcid name =
      if not_empty orcid && mem_text orcid deny_orcids
      then err (refusal (codes "not_authorized") (codes "WDP denies access to records"))
      else if not_empty orcid && ends_with (codes "0002") orcid
      then ok (result (arr nil) (meta 0))
      else ok (
          result
            (list_of (
              obj (
                dict_of (
                  (
                    codes "ref_id",
                    str (
                        codes "wdp-person-"
                        ++ or_else orcid (dashed (lower (or_else name (codes "unnamed"))))),
                  )
                  ∷ (codes "orcid", text_or_null (get_field (codes "orcid") args))
                  ∷ (codes "name", str (or_else name (codes "Avery Mockperson")))
                  ∷ (
                    codes "affiliations",
                    list_of (str (codes "Mock University") ∷ str (codes "Prior Institute") ∷ []),
                  )
                  ∷ (codes "publication_count", int (pos 12))
                  ∷ (codes "funding_count", int (pos 3))
                  ∷ []))
              ∷ []))
            (meta 1))
    where
      not_empty : Text → Bool
      not_empty [] = false
      not_empty (c ∷ s) = true

  unfoldable pub wdp_entity : Text → Text → Fields
  wdp_entity uei name =
      let id = or_else uei (codes "UEI0001MOCK") in
      result
        (list_of (
          obj (
            dict_of (
              (codes "ref_id", str (codes "wdp-entity-" ++ id))
              ∷ (codes "uei", str id)
              ∷ (codes "name", str (or_else name (codes "Mock University")))
              ∷ (codes "country", str (codes "USA"))
              ∷ (codes "record_count", int (pos 42))
              ∷ []))
          ∷ []))
        (meta 1)

  unfoldable pub wdp_documents : Text → Result MockFault Fields
  wdp_documents ref_id = elim (strip_prefix (codes "wdp-") ref_id) [
    | none ↦ err (refusal (codes "not_found") (codes "no WDP reference"))
    | some rest ↦ ok (
        result
          (list_of (
            obj (
              dict_of (
                (codes "doc_id", str (ref_id ++ codes "-doc-1"))
                ∷ (codes "type", str (codes "publication"))
                ∷ (codes "title", str (codes "Mock findings in applied research security"))
                ∷ (codes "year", int (pos 2024))
                ∷ (codes "source", str (codes "Journal of Mock Results"))
                ∷ (
                  codes "detail",
                  obj (
                      dict_of
                        ((codes "abstract", str (codes "Deterministic canned abstract.")) ∷ [])),
                )
                ∷ []))
            ∷ obj (
                dict_of (
                  (codes "doc_id", str (ref_id ++ codes "-doc-2"))
                  ∷ (codes "type", str (codes "funding_record"))
                  ∷ (codes "title", str (codes "Mock foreign grant"))
                  ∷ (codes "year", int (pos 2023))
                  ∷ (codes "source", str (codes "Mock Funding Agency"))
                  ∷ (
                    codes "detail",
                    obj (
                        dict_of (
                          (codes "amount", str (codes "250000"))
                          ∷ (codes "currency", str (codes "USD"))
                          ∷ [])),
                  )
                  ∷ []))
            ∷ []))
          (meta 2))
  ]

  -- An argument that the schema requires.
  abbrev pub required_text : Option Value → Result MockFault Text
  required_text (some (str t)) = ok t
  required_text v = err crashed

  unfoldable pub got_proposal : Text → Fields
  got_proposal number =
      result (obj (dict_of (proposal_row number ++ (codes "personnel", personnel) ∷ []))) (meta 1)

  unfoldable pub canned_wdp : Text → Fields → Result MockFault Fields
  canned_wdp tool args =
      if text_eq tool (codes "search_wdp_person")
      then elim (optional_text (get_field (codes "orcid") args)) [
        | err e ↦ err e
        | ok orcid ↦ elim (optional_text (get_field (codes "name") args)) [
          | err e ↦ err e
          | ok name ↦ wdp_person args orcid name
        ]
      ]
      else if text_eq tool (codes "search_wdp_entity")
      then elim (optional_text (get_field (codes "uei") args)) [
        | err e ↦ err e
        | ok uei ↦ elim (optional_text (get_field (codes "name") args)) [
          | err e ↦ err e
          | ok name ↦ ok (wdp_entity uei name)
        ]
      ]
      else if text_eq tool (codes "retrieve_wdp_documents")
      then elim (required_text (get_field (codes "ref_id") args)) [
        | err e ↦ err e
        | ok ref_id ↦ wdp_documents ref_id
      ]
      else err (refusal (codes "invalid_args") (codes "no canned behavior for tool"))

  -- Arguments of other types than the schemas have are taken to raise.
  unfoldable pub canned : Text → Fields → Result MockFault Fields
  canned tool args =
      if text_eq tool (codes "search_proposals")
      then ok (
          result
            (list_of (
              obj (dict_of (proposal_row (codes "P-2025-0101")))
              ∷ obj (dict_of (proposal_row (codes "P-2025-0102")))
              ∷ []))
            (meta 2))
      else if text_eq tool (codes "get_proposal")
      then elim (required_text (get_field (codes "proposal_number") args)) [
        | err e ↦ err e
        | ok number ↦ ok (got_proposal number)
      ]
      else if text_eq tool (codes "search_personnel")
      then ok (result (list_of (found_person ∷ [])) (meta 1))
      else if text_eq tool (codes "aggregate_assessments")
      then aggregated (group_by_of (get_field (codes "group_by") args))
      else canned_wdp tool args
