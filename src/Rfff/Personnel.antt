-- ===== src/Rfff/Personnel.antt =====
-- The arguments, the query of `search_personnel` and its people, of
-- services/mcp-server/app/rfff_tools.py.
use stpp_connector.Base.{
  ℕ, suc, none, some, List, [], ◌∷◌, ◌++◌, Text, codes, length, is_empty, put_text, lookup_text,
  Result, ok, err, if◌then◌else◌,
}
use stpp_connector.Json.{
  ℤ, Value, Fields, Items, null, int, str, arr, obj, nil, cons, end, get_field, put_field, items_of,
  truthy,
}
use stpp_connector.Dispatch.{Fault, crash}
use stpp_connector.Rfff.Sql.{raw, param, Sql, Query, Clauses, like, where_sql}
use stpp_connector.Rfff.Rows.{Row, row_dict, Person, person_of, text_at}

-- A text argument; None and a missing one are empty.
unfoldable pub text_arg : Text → Fields → Result Fault Text
text_arg name args = elim (get_field name args) [
  | none ↦ ok []
  | some null ↦ ok []
  | some (str s) ↦ ok s
  | some v ↦ err crash
]

-- `args.get("filters") or {}`
unfoldable pub filters_arg : Fields → Result Fault Fields
filters_arg args = elim (get_field (codes "filters") args) [
  | none ↦ ok end
  | some (obj fs) ↦ ok fs
  | some v ↦ if truthy v then err crash else ok end
]

abbrev pub texts_of : Items → Result Fault (List Text)
texts_of nil = ok []
texts_of (cons (str s) vs) = elim (texts_of vs) [ ok ts ↦ ok (s ∷ ts) | err e ↦ err e ]
texts_of (cons v vs) = err crash

-- `args["group_by"]`
unfoldable pub group_by_arg : Fields → Result Fault (List Text)
group_by_arg args = elim (get_field (codes "group_by") args) [
  | some (arr vs) ↦ texts_of vs
  | _ ↦ err crash
]

-- A clause with the next number, if its argument is not empty.
abbrev pub next_number : Clauses → ℕ
next_number c = suc (length c.1)

unfoldable pub with_name : Text → Clauses → Clauses
with_name name c = if is_empty name then c else (
  c.0
      ++ (raw (codes "(pe.first_name ILIKE ")
          ∷ param (next_number c)
          ∷ raw (codes " OR pe.middle_name ILIKE ")
          ∷ param (next_number c)
          ∷ raw (codes " OR pe.last_name ILIKE ")
          ∷ param (next_number c)
          ∷ raw (codes ")")
          ∷ [])
        ∷ [],
  c.1 ++ like name ∷ [],
)

unfoldable pub with_orcid : Text → Clauses → Clauses
with_orcid orcid c = if is_empty orcid then c else (
  c.0 ++ (raw (codes "pe.person_orcid = ") ∷ param (next_number c) ∷ []) ∷ [],
  c.1 ++ str orcid ∷ [],
)

unfoldable pub with_affiliation : Text → Clauses → Clauses
with_affiliation affiliation c = if is_empty affiliation then c else (
  c.0 ++ (raw (codes "pp.affiliation_name ILIKE ") ∷ param (next_number c) ∷ []) ∷ [],
  c.1 ++ like affiliation ∷ [],
)

abbrev pub affiliation_join : Text → Sql
affiliation_join affiliation =
    if is_empty affiliation
    then []
    else raw (codes " JOIN proposal_personnel pp ON pp.person_orcid = pe.person_orcid") ∷ []

unfoldable pub personnel_query : Text → Text → Text → ℤ → Query
personnel_query name orcid affiliation limit =
    let c = with_affiliation affiliation (with_orcid orcid (with_name name ([], []))) in
    record {
      sql =
          raw (codes "SELECT q.*, COUNT(*) OVER () AS _total FROM (")
          ∷ raw
              (codes "SELECT DISTINCT pe.person_orcid, pe.first_name, pe.middle_name, pe.last_name")
          ∷ raw (codes " FROM personnel pe")
          ∷ (affiliation_join affiliation
              ++ (where_sql c.0
                  ++ (raw (codes ") q ORDER BY q.person_orcid LIMIT ")
                      ∷ param (next_number c)
                      ∷ [])));
      params = c.1 ++ int limit ∷ [];
    }

abbrev pub People : Type 0
People = List (Text × Person)

-- `{r["person_orcid"]: {…} for r in rows}`
unfoldable pub people_of : List Row → People → Result Fault People
people_of [] people = ok people
people_of (r ∷ rs) people = elim (person_of r) [
  | err e ↦ err e
  | ok (orcid, p) ↦ people_of rs (put_text orcid p people)
]

-- `people[orcid]["proposals"].append(proposal)`
unfoldable pub append_proposal : Text → Value → People → Result Fault People
append_proposal orcid v people = elim (lookup_text orcid people) [
  | none ↦ err crash
  | some (fields, proposals) ↦ ok (put_text orcid (fields, proposals ++ v ∷ []) people)
]

abbrev pub proposal_entry_columns : List Text
proposal_entry_columns =
    codes "proposal_number"
    ∷ codes "proposal_title"
    ∷ codes "proposal_role"
    ∷ codes "person_overall_assessment"
    ∷ []

unfoldable pub add_proposals : List Row → People → Result Fault People
add_proposals [] people = ok people
add_proposals (r ∷ rs) people = elim (text_at (codes "person_orcid") r) [
  | err e ↦ err e
  | ok orcid ↦ elim (row_dict r proposal_entry_columns) [
    | err e ↦ err e
    | ok proposal ↦ elim (append_proposal orcid (obj proposal) people) [
      | err e ↦ err e
      | ok more ↦ add_proposals rs more
    ]
  ]
]

-- `list(people.values())`
unfoldable pub people_items : People → Items
people_items [] = nil
people_items ((orcid, (fields, proposals)) ∷ people) =
    cons (obj (put_field (codes "proposals") (arr (items_of proposals)) fields))
      (people_items people)
