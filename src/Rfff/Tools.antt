-- ===== src/Rfff/Tools.antt =====
-- The handlers of services/mcp-server/app/rfff_tools.py.
--
-- `fetch sql params` stands for the pool's `fetch`: it returns rows, or raises.
use stpp_connector.Base.{
  ℕ, ◌&&◌, Option, List, [], ◌∷◌, ◌++◌, map, Text, codes, is_empty, Result, ok, err, if◌then◌else◌,
}
use stpp_connector.Base.Actions.{Action, returned, ◌>>=◌}
use stpp_connector.Json.{
  pos, Value, Fields, Items, bool, int, str, arr, obj, end, field, get_field, put_field, items_of,
}
use stpp_connector.Hygiene.{truncate_fields, count_items, envelope, envelope_dict}
use stpp_connector.Dispatch.{Fault, tool_error, Handler}
use stpp_connector.Rfff.Columns.{proposal_columns, personnel_columns}
use stpp_connector.Rfff.Sql.{
  raw, param, Sql, show_sql, Query, join_sql, build_search_proposals_sql, build_aggregate_sql,
}
use stpp_connector.Rfff.Rows.{
  Row, needed, clamp_limit, row_dict, row_dicts, total_of, file_refs, buckets,
}
use stpp_connector.Rfff.Personnel.{
  text_arg, filters_arg, group_by_arg, personnel_query, People, people_of, add_proposals,
  people_items,
}

-- The two limits of the settings.
pub record Limits : Type 0 where
  pub max_rows : ℕ
  pub max_chars : ℕ

abbrev pub proposal_sql : Sql
proposal_sql =
    raw (codes "SELECT ")
    ∷ (join_sql (codes ", ") (map (λ c. raw c ∷ []) proposal_columns)
        ++ (raw (codes " FROM proposals WHERE proposal_number = ") ∷ param 1 ∷ []))

abbrev pub proposal_personnel_sql : Sql
proposal_personnel_sql =
    raw (codes "SELECT pp.person_orcid, pe.first_name, pe.middle_name, pe.last_name,")
    ∷ raw (codes " pp.proposal_role, pp.affiliation_uei, pp.affiliation_name,")
    ∷ raw (codes " pp.factor1_assessment, pp.factor2_assessment, pp.factor3_assessment,")
    ∷ raw (codes " pp.factor4_assessment, pp.person_overall_assessment,")
    ∷ raw (codes " pp.multiple_mitigation, pp.mitigation_explanation_person")
    ∷ raw
        (codes " FROM proposal_personnel pp JOIN personnel pe ON pe.person_orcid = pp.person_orcid")
    ∷ raw (codes " WHERE pp.proposal_number = ")
    ∷ param 1
    ∷ raw (codes " ORDER BY pp.person_orcid")
    ∷ []

abbrev pub file_refs_sql : Sql
file_refs_sql =
    raw (codes "SELECT scope, person_orcid, filename, metadata FROM file_refs")
    ∷ raw (codes " WHERE proposal_number = ")
    ∷ param 1
    ∷ raw (codes " ORDER BY id")
    ∷ []

abbrev pub person_proposals_sql : Sql
person_proposals_sql =
    raw (codes "SELECT pp.person_orcid, pp.proposal_number, pr.proposal_title,")
    ∷ raw (codes " pp.proposal_role, pp.person_overall_assessment FROM proposal_personnel pp")
    ∷ raw (codes " JOIN proposals pr ON pr.proposal_number = pp.proposal_number")
    ∷ raw (codes " WHERE pp.person_orcid = ANY(")
    ∷ param 1
    ∷ raw (codes "::text[]) ORDER BY pp.person_orcid, pp.proposal_number")
    ∷ []

abbrev pub orcids_of : People → List Value
orcids_of [] = []
orcids_of ((orcid, p) ∷ people) = str orcid ∷ orcids_of people

module _ {W : Type 0} (fetch : Text → List Value → W → Option (List Row) × W)
    (loads : Text → Result Text Value) (limits : Limits) where
  abbrev pub Db : Type 0 → Type 0
  Db A = Action Fault W A

  -- `await pool.fetch(sql, *params)`
  unfoldable pub fetch_rows : Query → Db (List Row)
  fetch_rows q w = let (rows, after) = fetch (show_sql q.sql) q.params w in (needed rows, after)

  unfoldable pub search_proposals : Handler W
  search_proposals args = do
    limit ← returned (clamp_limit (get_field (codes "limit") args) limits.max_rows)
    filters ← returned (filters_arg args)
    keywords ← returned (text_arg (codes "keywords") args)
    query ← returned (build_search_proposals_sql filters keywords limit)
    rows ← fetch_rows query
    total ← returned (total_of rows)
    kept ← returned (row_dicts rows proposal_columns)
    returned (ok (envelope_dict (envelope kept total limits.max_rows limits.max_chars) end))

  -- `await pool.fetchrow(…)`, and `not_found` where it is None.
  unfoldable pub first_row : List Row → Result Fault Row
  first_row [] = err (tool_error (codes "not_found") (codes "unknown proposal_number"))
  first_row (r ∷ rs) = ok r

  unfoldable pub proposal_result : Fields → Items → Items → Fields
  proposal_result columns personnel refs =
      let (kept, cut) = truncate_fields limits.max_chars (
        put_field (codes "file_refs") (arr refs)
          (put_field (codes "personnel") (arr personnel) columns)) in
      field (codes "data") (obj kept) (
        field (codes "meta")
          (obj (
            field (codes "total") (int (pos 1))
              (field (codes "returned") (int (pos 1)) (field (codes "truncated") (bool cut) end))))
          end)

  unfoldable pub get_proposal : Handler W
  get_proposal args = do
    number ← returned (needed (get_field (codes "proposal_number") args))
    found ← fetch_rows (record { sql = proposal_sql; params = number ∷ [] })
    row ← returned (first_row found)
    personnel ← fetch_rows (record { sql = proposal_personnel_sql; params = number ∷ [] })
    refs ← fetch_rows (record { sql = file_refs_sql; params = number ∷ [] })
    columns ← returned (row_dict row proposal_columns)
    people ← returned (row_dicts personnel personnel_columns)
    files ← returned (file_refs loads refs)
    returned (ok (proposal_result columns people files))

  -- `if people:`
  unfoldable pub with_proposals : People → Db People
  with_proposals [] = returned (ok [])
  with_proposals (p ∷ people) = do
    let orcids = arr (items_of (orcids_of (p ∷ people)))
    rows ← fetch_rows (record { sql = person_proposals_sql; params = orcids ∷ [] })
    returned (add_proposals rows (p ∷ people))

  unfoldable pub personnel_result : People → ℕ → Fields
  personnel_result people total =
      envelope_dict (envelope (people_items people) total limits.max_rows limits.max_chars) end

  unfoldable pub run_personnel_query : Text → Text → Text → Option Value → Db Fields
  run_personnel_query name orcid affiliation wanted = do
    limit ← returned (clamp_limit wanted limits.max_rows)
    rows ← fetch_rows (personnel_query name orcid affiliation limit)
    total ← returned (total_of rows)
    people ← returned (people_of rows [])
    complete ← with_proposals people
    returned (ok (personnel_result complete total))

  -- `if not (name or orcid or affiliation)`
  unfoldable pub asked_for : Text → Text → Text → Option Value → Db Fields
  asked_for name orcid affiliation wanted =
      if is_empty name && (is_empty orcid && is_empty affiliation)
      then returned (
          err (
            tool_error (codes "invalid_args")
              (codes "provide at least one of name, orcid, or affiliation")))
      else run_personnel_query name orcid affiliation wanted

  unfoldable pub search_personnel : Handler W
  search_personnel args = do
    name ← returned (text_arg (codes "name") args)
    orcid ← returned (text_arg (codes "orcid") args)
    affiliation ← returned (text_arg (codes "affiliation") args)
    asked_for name orcid affiliation (get_field (codes "limit") args)

  unfoldable pub aggregate_assessments : Handler W
  aggregate_assessments args = do
    group_by ← returned (group_by_arg args)
    filters ← returned (filters_arg args)
    built ← returned (build_aggregate_sql group_by filters)
    rows ← fetch_rows built.0
    kept ← returned (buckets group_by rows)
    returned (
        ok (
          envelope_dict (envelope kept (count_items kept) limits.max_rows limits.max_chars)
            (field (codes "overlapping_buckets") (bool built.1) end)))
