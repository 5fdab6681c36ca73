-- ===== src/Rfff/Sql.antt =====
-- The SQL builders of services/mcp-server/app/rfff_tools.py. A statement is kept as the pieces that
-- its f-strings put together; `show_sql` is its text.
use stpp_connector.Base.{
  ℕ, suc, Bool, true, false, not, none, some, List, [], ◌∷◌, ◌++◌, map, Text, codes, mem_text,
  sorted_texts, length, is_empty, keep_if, some_of, Result, ok, err, ◌>>=◌, if◌then◌else◌,
}
use stpp_connector.Base.Numerals.{decimal}
use stpp_connector.Json.{ℤ, Value, Fields, int, str, get_field, keys}
use stpp_connector.Dispatch.{Fault, tool_error, crash}
use stpp_connector.Rfff.Columns.{
  proposal_filter_fields, person_filter_fields, agg_proposal_fields, agg_person_fields,
  proposal_columns,
}

-- `column t c` is `t.c`, and `param n` is `$n`.
pub data Piece : Type 0 where
  raw : Text → Piece
  column : Text → Text → Piece
  param : ℕ → Piece

abbrev pub Sql : Type 0
Sql = List Piece

unfoldable pub show_sql : Sql → Text
show_sql [] = []
show_sql (raw t ∷ ps) = t ++ show_sql ps
show_sql (column t c ∷ ps) = t ++ (codes "." ++ (c ++ show_sql ps))
show_sql (param n ∷ ps) = codes "$" ++ (decimal n ++ show_sql ps)

-- A statement with the values that its parameters are bound to.
pub record Query : Type 0 where
  pub sql : Sql
  pub params : List Value

-- `sep.join(…)`
unfoldable pub join_sql : Text → List Sql → Sql
join_sql sep [] = []
join_sql sep (c ∷ []) = c
join_sql sep (c ∷ d ∷ cs) = c ++ (raw sep ∷ join_sql sep (d ∷ cs))

unfoldable pub filter_clause : Text → ℕ → Result Fault Sql
filter_clause name n =
    if mem_text name proposal_filter_fields
    then ok (column (codes "p") name ∷ raw (codes " = ") ∷ param n ∷ [])
    else if mem_text name person_filter_fields
    then ok (
        raw (codes "EXISTS (SELECT 1 FROM proposal_personnel pp")
        ∷ raw (codes " WHERE pp.proposal_number = p.proposal_number AND ")
        ∷ column (codes "pp") name
        ∷ raw (codes " = ")
        ∷ param n
        ∷ raw (codes ")")
        ∷ [])
    else err (tool_error (codes "invalid_args") (codes "unknown filter field"))

-- The clauses, and the parameters after them.
abbrev pub Clauses : Type 0
Clauses = List Sql × List Value

abbrev pub value_at : Text → Fields → Result Fault Value
value_at name filters = elim (get_field name filters) [ none ↦ err crash | some v ↦ ok v ]

-- The loop over `sorted(filters)`.
unfoldable pub filter_loop : List Text → Fields → List Value → Result Fault Clauses
filter_loop [] filters params = ok ([], params)
filter_loop (name ∷ names) filters params = value_at name filters >>= λ v.
    filter_clause name (suc (length params)) >>= λ clause.
    filter_loop names filters (params ++ v ∷ []) >>= λ (clauses, all). ok (clause ∷ clauses, all)

unfoldable pub filter_clauses : Fields → Result Fault Clauses
filter_clauses filters = filter_loop (sorted_texts (keys filters)) filters []

-- `%{text}%`
abbrev pub like : Text → Value
like text = str (codes "%" ++ (text ++ codes "%"))

unfoldable pub keyword_clause : ℕ → Sql
keyword_clause n =
    raw (codes "(p.proposal_title ILIKE ")
    ∷ param n
    ∷ raw (codes " OR p.submitting_entity_name ILIKE ")
    ∷ param n
    ∷ raw (codes ")")
    ∷ []

-- `if keywords:`, for a text or None.
unfoldable pub with_keywords : Text → Clauses → Clauses
with_keywords keywords (clauses, params) =
    if is_empty keywords
    then (clauses, params)
    else (clauses ++ keyword_clause (suc (length params)) ∷ [], params ++ like keywords ∷ [])

-- `" WHERE " + " AND ".join(clauses)`, if there are any.
unfoldable pub where_sql : List Sql → Sql
where_sql [] = []
where_sql (c ∷ cs) = raw (codes " WHERE ") ∷ join_sql (codes " AND ") (c ∷ cs)

abbrev pub columns_sql : Text → List Text → Sql
columns_sql t names = join_sql (codes ", ") (map (λ c. column t c ∷ []) names)

unfoldable pub search_query : ℤ → Clauses → Query
search_query limit (clauses, params) = record {
  sql =
      raw (codes "SELECT ")
      ∷ (columns_sql (codes "p") proposal_columns
          ++ (raw (codes ", COUNT(*) OVER () AS _total FROM proposals p")
              ∷ (where_sql clauses
                  ++ (raw (codes " ORDER BY p.proposal_number LIMIT ")
                      ∷ param (suc (length params))
                      ∷ []))));
  params = params ++ int limit ∷ [];
}

unfoldable pub build_search_proposals_sql : Fields → Text → ℤ → Result Fault Query
build_search_proposals_sql filters keywords effective_limit =
    filter_clauses filters >>= λ c. ok (search_query effective_limit (with_keywords keywords c))

-- `f"pp.{g}" if g in AGG_PERSON_FIELDS else f"p.{g}"`
unfoldable pub group_expr : Text → Piece
group_expr g = if mem_text g agg_person_fields then column (codes "pp") g else column (codes "p") g

abbrev pub group_name : ℕ → Piece
group_name i = raw (codes "g" ++ decimal i)

unfoldable pub group_exprs : ℕ → List Text → List Sql
group_exprs i [] = []
group_exprs i (g ∷ gs) =
    (group_expr g ∷ raw (codes " AS ") ∷ group_name i ∷ []) ∷ group_exprs (suc i) gs

unfoldable pub group_cols : ℕ → List Text → List Sql
group_cols i [] = []
group_cols i (g ∷ gs) = (group_name i ∷ []) ∷ group_cols (suc i) gs

abbrev pub is_group_field : Text → Bool
is_group_field g = mem_text g (agg_proposal_fields ++ agg_person_fields)

unfoldable pub overlaps : List Text → Bool
overlaps group_by = some_of (λ g. mem_text g agg_person_fields) group_by

unfoldable pub join_persons : Bool → Sql
join_persons true =
    raw (codes " JOIN proposal_personnel pp ON pp.proposal_number = p.proposal_number") ∷ []
join_persons false = []

unfoldable pub aggregate_query : List Text → Clauses → Query
aggregate_query group_by (clauses, params) = record {
  sql =
      raw (codes "SELECT ")
      ∷ (join_sql (codes ", ") (group_exprs 0 group_by)
          ++ (raw (codes ", COUNT(DISTINCT p.proposal_number) AS count FROM proposals p")
              ∷ (join_persons (overlaps group_by)
                  ++ (where_sql clauses
                      ++ (raw (codes " GROUP BY ")
                          ∷ (join_sql (codes ", ") (group_cols 0 group_by)
                              ++ (raw (codes " ORDER BY count DESC, ")
                                  ∷ join_sql (codes ", ") (group_cols 0 group_by))))))));
  params = params;
}

-- The third part of the result is `overlapping`.
unfoldable pub build_aggregate_sql : List Text → Fields → Result Fault (Query × Bool)
build_aggregate_sql group_by filters = elim (keep_if (λ g. not (is_group_field g)) group_by) [
  | g ∷ gs ↦ err (tool_error (codes "invalid_args") (codes "unknown group_by field(s)"))
  | [] ↦ filter_clauses filters >>= λ c. ok (aggregate_query group_by c, overlaps group_by)
]
