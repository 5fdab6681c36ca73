-- ===== src/Tests/ToolTests.antt =====
-- The tools of the MCP server, the stand-ins and the clients, on small inputs.
use stpp_connector.Base.{
  ℕ, suc, ◌+◌, ◌≤◌, ◌≡◌, refl, ◌↔◌, ◌⊎◌, Bool, true, false, Option, none, some, List, [], ◌∷◌, ◌++◌,
  Text, codes, text_eq, mem_text, map, every, All, Result, ok, err, arith,
}
use stpp_connector.Json.{pos, Value, Fields, str, obj, end, field, keys, get_field}
use stpp_connector.Rfff.Sql.{
  column, raw, param, Query, filter_loop, filter_clauses, filter_clause, search_query,
  build_search_proposals_sql, aggregate_query, build_aggregate_sql, overlaps,
}
use stpp_connector.Rfff.Placeholders.{
  IsBound, build_search_proposals_sql-IsBound, build_aggregate_sql-IsBound,
}
use stpp_connector.Rfff.Values.{sql_of, build_search_proposals_sql-same_sql}
use stpp_connector.Rfff.Whitelist.{is_filter_field, build_search_proposals_sql_iff}
use stpp_connector.Registry.{Observed, render_observed}
use stpp_connector.Registry.Erase.{erase, erase-render_observed}
use stpp_connector.Registry.Cache.{
  Cache, new_cache, Answers, Calls, new, began, came_back, get_now, refresh,
}
use stpp_connector.Registry.Served.{IsRecent, last_time, last_values, Calls-served}

abbrev by_year : Fields
by_year = field (codes "fiscal_year") (str (codes "2025")) end

abbrev by_other_year : Fields
by_other_year = field (codes "fiscal_year") (str (codes "1' OR '1'='1")) end

abbrev one_clause : Query
one_clause = search_query (pos 5) (
  (column (codes "p") (codes "fiscal_year") ∷ raw (codes " = ") ∷ param 1 ∷ []) ∷ [],
  str (codes "2025") ∷ [],
)

year_query : build_search_proposals_sql by_year [] (pos 5) ≡ ok one_clause
unfolding build_search_proposals_sql filter_clauses filter_loop filter_clause
    stpp_connector.Rfff.Sql.with_keywords keys get_field text_eq mem_text
    stpp_connector.Base.sorted_texts stpp_connector.Base.insert_text
year_query = refl

build_search_proposals_sql-IsBound_example : IsBound one_clause
build_search_proposals_sql-IsBound_example =
    build_search_proposals_sql-IsBound by_year [] (pos 5) one_clause year_query

build_search_proposals_sql-same_sql_example :
    sql_of (build_search_proposals_sql by_year (codes "a") (pos 5))
    ≡ sql_of (build_search_proposals_sql by_other_year (codes "'; DROP TABLE") (pos 9))
unfolding keys
build_search_proposals_sql-same_sql_example =
    build_search_proposals_sql-same_sql by_year by_other_year (codes "a") (codes "'; DROP TABLE")
      (pos 5) (pos 9) refl refl

build_search_proposals_sql_iff_example :
    ((q : Query) × (build_search_proposals_sql by_year (codes "x") (pos 5) ≡ ok q))
    ↔ (every is_filter_field (keys by_year) ≡ true)
build_search_proposals_sql_iff_example = build_search_proposals_sql_iff by_year (codes "x") (pos 5)

abbrev per_state : List Text
per_state = codes "assessment_state" ∷ codes "factor1_assessment" ∷ []

abbrev state_query : Query
state_query = aggregate_query per_state (
  (column (codes "p") (codes "fiscal_year") ∷ raw (codes " = ") ∷ param 1 ∷ []) ∷ [],
  str (codes "2025") ∷ [],
)

state_built : build_aggregate_sql per_state by_year ≡ ok (state_query, true)
unfolding build_aggregate_sql filter_clauses filter_loop filter_clause overlaps keys get_field
    text_eq mem_text stpp_connector.Base.sorted_texts stpp_connector.Base.insert_text
state_built = refl

build_aggregate_sql-IsBound_example : IsBound state_query
build_aggregate_sql-IsBound_example =
    build_aggregate_sql-IsBound per_state by_year state_query true state_built

abbrev year_schema : Value
year_schema = obj (
    field (codes "properties")
      (obj (
        field (codes "fiscal_year")
          (obj (field (codes "description") (str (codes "The year.")) end)) end))
      end)

abbrev years_seen : Observed
years_seen = (codes "fiscal_year", codes "2024" ∷ codes "2025" ∷ []) ∷ []

erase-render_observed_example : erase (render_observed year_schema years_seen) ≡ erase year_schema
erase-render_observed_example = erase-render_observed year_schema years_seen

-- Two calls overlap; the query of the second one works and comes back first, the other one raises.
abbrev seen_rows : List (Text × Text)
seen_rows = (codes "a", codes "b") ∷ []

abbrev seen_answers : Answers
seen_answers = (10, none) ∷ (12, some seen_rows) ∷ []

abbrev seen_cache : Cache
seen_cache = refresh 10 none (refresh 12 (some seen_rows) new_cache)

two_calls : Calls 5 seen_answers [] seen_cache
unfolding get_now
two_calls =
    came_back [] [] 10 none
      (came_back [] (10 ∷ []) 12 (some seen_rows) (began 12 (began 10 new refl) refl))

Calls-served_example :
    ((values : Observed)
      → (get_now 5 14 seen_cache ≡ some values)
        ↔ (IsRecent 5 14 (last_time seen_answers) × (last_values seen_answers ≡ values)))
    × ((rows : Option (List (Text × Text)))
        → (refresh 14 rows seen_cache).cached ≡ last_values ((14, rows) ∷ seen_answers))
Calls-served_example = Calls-served 5 14 two_calls

-- Four ticks after the older call began the values are served, after five they are asked for.
served_then_asked :
    (get_now 5 14 seen_cache ≡ some ((codes "a", codes "b" ∷ []) ∷ []))
    × (get_now 5 15 seen_cache ≡ none)
unfolding get_now refresh stpp_connector.Registry.Cache.collect
    stpp_connector.Registry.Cache.add_value
served_then_asked = (refl, refl)
