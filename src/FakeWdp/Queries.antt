-- ===== src/FakeWdp/Queries.antt =====
-- `_persons_sql`, `_entities_sql` and `_documents_sql` of services/fake-wdp/app/main.py.
use stpp_connector.Base.{ℕ, suc, max, Option, none, some, List, [], ◌∷◌, ◌++◌, Text, codes, length}
use stpp_connector.Json.{ℤ, pos, negsuc, Value, int, str}
use stpp_connector.Rfff.Sql.{raw, column, param, Sql, Query, Clauses, where_sql}

unfoldable pub equals_clause : Text → Text → ℕ → Sql
equals_clause t c n = column t c ∷ raw (codes " = ") ∷ param n ∷ []

unfoldable pub like_clause : Text → Text → ℕ → Sql
like_clause t c n = column t c ∷ raw (codes " ILIKE '%' || ") ∷ param n ∷ raw (codes " || '%'") ∷ []

-- `if value is not None`: the value, and its clause.
unfoldable pub add_filter : Option Text → (ℕ → Sql) → Clauses → Clauses
add_filter none clause c = c
add_filter (some v) clause (clauses, params) =
    (clauses ++ clause (suc (length params)) ∷ [], params ++ str v ∷ [])

-- `max(limit, 1)`
abbrev pub at_least_1 : ℤ → ℤ
at_least_1 (pos n) = pos (max n 1)
at_least_1 (negsuc n) = pos 1

unfoldable pub with_limit : Option ℤ → Sql → List Value → Query
with_limit none sql params = record { sql = sql; params = params }
with_limit (some limit) sql params = record {
  sql = sql ++ (raw (codes " LIMIT ") ∷ param (suc (length params)) ∷ []);
  params = params ++ int (at_least_1 limit) ∷ [];
}

unfoldable pub filtered : Text → Text → Option ℤ → Clauses → Query
filtered front back limit (clauses, params) =
    with_limit limit (raw front ∷ (where_sql clauses ++ (raw back ∷ []))) params

abbrev pub persons_front : Text
persons_front =
    codes "SELECT p.ref_id, p.orcid, p.name, p.affiliations,"
    ++ codes " COUNT(d.doc_id) FILTER (WHERE d.type = 'publication') AS publication_count,"
    ++ codes " COUNT(d.doc_id) FILTER (WHERE d.type = 'funding_record') AS funding_count,"
    ++ codes " COUNT(*) OVER () AS total"
    ++ codes " FROM persons p LEFT JOIN documents d ON d.ref_id = p.ref_id"

unfoldable pub persons_sql : Option Text → Option Text → Option ℤ → Query
persons_sql orcid name limit =
    filtered persons_front (codes " GROUP BY p.ref_id ORDER BY p.orcid") limit (
      add_filter name (like_clause (codes "p") (codes "name"))
        (add_filter orcid (equals_clause (codes "p") (codes "orcid")) ([], [])))

abbrev pub entities_front : Text
entities_front =
    codes "SELECT e.ref_id, e.uei, e.name, e.country,"
    ++ codes " COUNT(d.doc_id) AS record_count,"
    ++ codes " COUNT(*) OVER () AS total"
    ++ codes " FROM entities e LEFT JOIN documents d ON d.ref_id = e.ref_id"

unfoldable pub entities_sql : Option Text → Option Text → Option ℤ → Query
entities_sql uei name limit =
    filtered entities_front (codes " GROUP BY e.ref_id ORDER BY e.uei") limit (
      add_filter name (like_clause (codes "e") (codes "name"))
        (add_filter uei (equals_clause (codes "e") (codes "uei")) ([], [])))

unfoldable pub documents_sql : Text → Option ℤ → Query
documents_sql ref_id limit =
    with_limit limit
      (raw (
          codes "SELECT doc_id, type, title, year, source, detail,"
          ++ codes " COUNT(*) OVER () AS total"
          ++ codes " FROM documents WHERE ref_id = ")
        ∷ param 1
        ∷ raw (codes " ORDER BY year DESC NULLS LAST, doc_id")
        ∷ [])
      (str ref_id ∷ [])
