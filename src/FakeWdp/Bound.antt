-- ===== src/FakeWdp/Bound.antt =====
-- The placeholders of the service's statements.
use stpp_connector.Base.{
  ℕ, suc, ◌≡◌, refl, sym, ◌∙◌, subst, Option, none, some, List, [], ◌∷◌, ◌++◌, append-nil, Text,
  codes, length, length-append, arith,
}
use stpp_connector.Json.{ℤ, Value, int, str}
use stpp_connector.Rfff.Sql.{raw, param, Sql, Clauses, where_sql}
use stpp_connector.Rfff.Placeholders.{
  placeholders, IsNumbered, IsBound, placeholders-append, in_clauses, in_clauses-append, no_params,
  placeholders-where_sql, IsNumbered-more,
}
use stpp_connector.FakeWdp.Queries.{
  equals_clause, like_clause, add_filter, at_least_1, with_limit, filtered, persons_front,
  persons_sql, entities_front, entities_sql, documents_sql,
}

abbrev IsFitting : Clauses → Type 0
IsFitting c = IsNumbered (length c.1) (in_clauses c.0)

-- A clause with the one placeholder that it is given.
abbrev IsUnary : (ℕ → Sql) → Type 0
IsUnary clause = (n : ℕ) → placeholders (clause n) ≡ n ∷ []

equals_clause-IsUnary : (t c : Text) → IsUnary (equals_clause t c)
unfolding equals_clause placeholders
equals_clause-IsUnary t c n = refl

like_clause-IsUnary : (t c : Text) → IsUnary (like_clause t c)
unfolding like_clause placeholders
like_clause-IsUnary t c n = refl

add_filter-IsFitting :
    (v : Option Text) (clause : ℕ → Sql) (c : Clauses)
    → IsUnary clause
    → IsFitting c
    → IsFitting (add_filter v clause c)
unfolding add_filter
add_filter-IsFitting none clause c u h = h
add_filter-IsFitting (some v) clause c u h =
    rw (in_clauses-append c.0 (clause (suc (length c.1)) ∷ [])) (
      rw (length-append c.1 (str v ∷ [])) (
        unfold in_clauses in
        rw (u (suc (length c.1))) (
          subst (λ n. IsNumbered n (in_clauses c.0 ++ suc (length c.1) ∷ [])) (omega arith)
            (IsNumbered-more (length c.1) (in_clauses c.0) h))))

with_limit-IsBound :
    (limit : Option ℤ) (sql : Sql) (params : List Value)
    → IsNumbered (length params) (placeholders sql)
    → IsBound (with_limit limit sql params)
unfolding with_limit
with_limit-IsBound none sql params h = h
with_limit-IsBound (some z) sql params h = rw (length-append params (int (at_least_1 z) ∷ [])) (
    rw (placeholders-append sql (raw (codes " LIMIT ") ∷ param (suc (length params)) ∷ [])) (
      unfold placeholders in
      subst (λ n. IsNumbered n (placeholders sql ++ suc (length params) ∷ [])) (omega arith)
        (IsNumbered-more (length params) (placeholders sql) h)))

filtered-IsBound :
    (front back : Text) (limit : Option ℤ) (c : Clauses)
    → IsFitting c
    → IsBound (filtered front back limit c)
unfolding filtered placeholders in_clauses
filtered-IsBound front back limit c h = with_limit-IsBound limit _ c.1 (
    subst (IsNumbered (length c.1))
      (sym (
        placeholders-append (where_sql c.0) (raw back ∷ [])
        ∙ append-nil (placeholders (where_sql c.0))
        ∙ placeholders-where_sql c.0))
      h)

-- Every placeholder of each of the three statements is the number of one of its parameters, and
-- every parameter has a placeholder, whichever filters and limit a request has.
pub queries-IsBound :
    (orcid name uei : Option Text) (ref_id : Text) (limit : Option ℤ)
    → IsBound (persons_sql orcid name limit)
      × IsBound (entities_sql uei name limit)
      × IsBound (documents_sql ref_id limit)
unfolding persons_sql entities_sql documents_sql in_clauses placeholders
queries-IsBound orcid name uei ref_id limit = (
  filtered-IsBound persons_front (codes " GROUP BY p.ref_id ORDER BY p.orcid") limit _ (
      add_filter-IsFitting name (like_clause (codes "p") (codes "name")) _
        (like_clause-IsUnary (codes "p") (codes "name"))
        (add_filter-IsFitting orcid (equals_clause (codes "p") (codes "orcid")) ([], [])
          (equals_clause-IsUnary (codes "p") (codes "orcid")) no_params)),
  filtered-IsBound entities_front (codes " GROUP BY e.ref_id ORDER BY e.uei") limit _ (
      add_filter-IsFitting name (like_clause (codes "e") (codes "name")) _
        (like_clause-IsUnary (codes "e") (codes "name"))
        (add_filter-IsFitting uei (equals_clause (codes "e") (codes "uei")) ([], [])
          (equals_clause-IsUnary (codes "e") (codes "uei")) no_params)),
  with_limit-IsBound limit _ (str ref_id ∷ []) (IsNumbered-more 0 [] no_params),
)
