-- ===== src/Mock/Rows.antt =====
-- The canned rows of services/integration-api/agent/mcp_mock.py.
use stpp_connector.Base.{
  ℕ, suc, ◌+◌, ◌*◌, Bool, true, false, Option, none, some, List, [], ◌∷◌, ◌++◌, Text, codes,
  text_eq, strip_prefix, length, if◌then◌else◌, ◌==◌, Result, ok, err,
}
use stpp_connector.Base.Strip.{reversed}
use stpp_connector.Json.{
  Value, Fields, null, bool, int, pos, str, arr, obj, nil, end, field, items_of, elements,
}
use stpp_connector.Runner.Reports.{ToolFault}

unfoldable pub dict_of : List (Text × Value) → Fields
dict_of [] = end
dict_of ((k, v) ∷ kvs) = field k v (dict_of kvs)

abbrev pub list_of : List Value → Value
list_of vs = arr (items_of vs)

-- What a call raises: MCPToolError, or any other exception.
pub data MockFault : Type 0 where
  refused : ToolFault → MockFault
  crashed : MockFault

abbrev pub refusal : Text → Text → MockFault
refusal code message = refused (record { code = code; message = message })

-- `_meta(n)`
unfoldable pub meta : ℕ → Fields
meta n =
    field (codes "total") (int (pos n))
      (field (codes "returned") (int (pos n)) (field (codes "truncated") (bool false) end))

-- `{"data": …, "meta": …}`
unfoldable pub result : Value → Fields → Fields
result rows meta_fields = field (codes "data") rows (field (codes "meta") (obj meta_fields) end)

unfoldable pub proposal_row : Text → List (Text × Value)
proposal_row number =
    (codes "proposal_number", str number)
    ∷ (codes "fiscal_year", str (codes "2025"))
    ∷ (codes "ssa", null)
    ∷ (codes "opportunity_number", str (codes "OPP-25-01"))
    ∷ (codes "proposal_title", str (codes "Mock proposal " ++ number))
    ∷ (codes "submitting_entity_uei", str (codes "UEI0001MOCK"))
    ∷ (codes "submitting_entity_name", str (codes "Mock University"))
    ∷ (codes "review_type", str (codes "Standard"))
    ∷ (codes "reviewing_component", str (codes "DARPA"))
    ∷ (codes "reviewing_subcomponent", str (codes "DARPA-BTO"))
    ∷ (codes "assessment_state", str (codes "Complete"))
    ∷ (codes "approved_date", str (codes "2025-03-01"))
    ∷ (codes "review_notes", null)
    ∷ (codes "mitigation_status", str (codes "Complete"))
    ∷ (codes "mitigation_strategy_proposal", arr nil)
    ∷ (codes "mitigation_explanation", null)
    ∷ (codes "award_type", str (codes "Grant"))
    ∷ (codes "award_state", str (codes "Awarded"))
    ∷ (codes "fain", null)
    ∷ (codes "awarded_date", str (codes "2025-04-01"))
    ∷ (codes "award_pop_start", str (codes "2025-05-01"))
    ∷ (codes "award_pop_end", str (codes "2026-05-01"))
    ∷ []

unfoldable pub personnel : Value
personnel = list_of (
    obj (
      dict_of (
        (codes "person_orcid", str (codes "0000-0001-2345-0001"))
        ∷ (codes "first_name", str (codes "Avery"))
        ∷ (codes "middle_name", null)
        ∷ (codes "last_name", str (codes "Mockperson"))
        ∷ (codes "proposal_role", str (codes "PI"))
        ∷ (codes "affiliation_name", str (codes "Mock University"))
        ∷ (codes "factor1_assessment", str (codes "No Concerns"))
        ∷ (codes "factor2_assessment", str (codes "No Concerns"))
        ∷ (codes "factor3_assessment", str (codes "No Concerns"))
        ∷ (codes "factor4_assessment", str (codes "No Concerns"))
        ∷ (codes "person_overall_assessment", str (codes "Low"))
        ∷ []))
    ∷ obj (
        dict_of (
          (codes "person_orcid", str (codes "0000-0001-2345-0002"))
          ∷ (codes "first_name", str (codes "Blake"))
          ∷ (codes "middle_name", null)
          ∷ (codes "last_name", str (codes "Nowdprecords"))
          ∷ (codes "proposal_role", str (codes "Co-PI"))
          ∷ (codes "affiliation_name", str (codes "Mock Institute"))
          ∷ (codes "factor1_assessment", str (codes "No Concerns"))
          ∷ (codes "factor2_assessment", str (codes "No Concerns"))
          ∷ (codes "factor3_assessment", str (codes "No Concerns"))
          ∷ (codes "factor4_assessment", str (codes "Prohibited Factors"))
          ∷ (codes "person_overall_assessment", str (codes "High"))
          ∷ []))
    ∷ [])

abbrev pub found_person : Value
found_person = obj (
    dict_of (
      (codes "person_orcid", str (codes "0000-0001-2345-0001"))
      ∷ (codes "first_name", str (codes "Avery"))
      ∷ (codes "middle_name", null)
      ∷ (codes "last_name", str (codes "Mockperson"))
      ∷ (
        codes "proposals",
        list_of (
            obj (
              dict_of (
                (codes "proposal_number", str (codes "P-2025-0101"))
                ∷ (codes "proposal_title", str (codes "Mock proposal P-2025-0101"))
                ∷ (codes "proposal_role", str (codes "PI"))
                ∷ (codes "person_overall_assessment", str (codes "Low"))
                ∷ []))
            ∷ []),
      )
      ∷ []))

-- `_AGG_VALUES`
unfoldable pub agg_values : Text → List Text
agg_values name =
    if text_eq name (codes "reviewing_component")
    then codes "DARPA" ∷ codes "DTRA" ∷ codes "ONR" ∷ []
    else if text_eq name (codes "fiscal_year")
    then codes "2024" ∷ codes "2025" ∷ []
    else codes "Bucket A" ∷ codes "Bucket B" ∷ codes "Bucket C" ∷ []

unfoldable pub group_of : List Text → Text → Fields
group_of [] value = end
group_of (name ∷ names) value = field name (str value) (group_of names value)

unfoldable pub buckets_from : List Text → ℕ → List Text → List Value
buckets_from names i [] = []
buckets_from names i (value ∷ values) =
    obj (
      field (codes "group") (obj (group_of names value))
        (field (codes "count") (int (pos (10 + 3 * i))) end))
    ∷ buckets_from names (suc i) values

-- `args["group_by"]`, a list of texts that is not empty, as the schema has it.
unfoldable pub texts_in : List Value → Option (List Text)
texts_in [] = some []
texts_in (str t ∷ vs) = elim (texts_in vs) [ none ↦ none | some ts ↦ some (t ∷ ts) ]
texts_in (v ∷ vs) = none

unfoldable pub aggregated : Option (List Text) → Result MockFault Fields
aggregated (some (name ∷ names)) =
    let values = agg_values name in
    ok (
      result (list_of (buckets_from (name ∷ names) 0 values)) (
        field (codes "total") (int (pos (length values))) (
          field (codes "returned") (int (pos (length values))) (
            field (codes "truncated") (bool false)
              (field (codes "overlapping_buckets") (bool false) end)))))
aggregated names = err crashed

abbrev pub group_by_of : Option Value → Option (List Text)
group_by_of (some (arr vs)) = texts_in (elements vs)
group_by_of v = none

-- `s.endswith(suffix)`
unfoldable pub ends_with : Text → Text → Bool
ends_with suffix s = elim (strip_prefix (reversed suffix) (reversed s)) [
  | some rest ↦ true
  | none ↦ false
]

-- `.replace(" ", "-")`
unfoldable pub dashed : Text → Text
dashed [] = []
dashed (c ∷ s) = (if c == 32 then 45 else c) ∷ dashed s

-- An optional argument that is a text, or missing, or null; anything else raises.
unfoldable pub optional_text : Option Value → Result MockFault Text
optional_text none = ok []
optional_text (some null) = ok []
optional_text (some (str t)) = ok t
optional_text (some v) = err crashed

abbrev pub or_else : Text → Text → Text
or_else [] d = d
or_else (c ∷ s) d = c ∷ s

abbrev pub text_or_null : Option Value → Value
text_or_null none = null
text_or_null (some v) = v
