-- ===== src/Rfff/Placeholders.antt =====
-- The placeholders of a statement and the values that it is sent with.
use stpp_connector.Base.{
  ℕ, suc, ◌≤◌, ◌≡◌, refl, sym, ap, ◌∙◌, subst, Bool, true, false, not, List, [], ◌∷◌, ◌++◌,
  append_assoc, append-nil, map, Text, codes, mem, mem-append, mem_text, All, All-append, All-map,
  length, length-append, is_empty, keep_if, Result, ok, err, ◌>>=◌, >>=-Through, ok-injective,
  Bool-cases, inl, inr, arith, sorted_texts,
}
use stpp_connector.Json.{ℤ, Value, Fields, int, keys}
use stpp_connector.Dispatch.{Fault, tool_error}
use stpp_connector.Rfff.Columns.{
  proposal_filter_fields, person_filter_fields, agg_person_fields, proposal_columns,
}
use stpp_connector.Rfff.Sql.{
  raw, column, param, Sql, Query, join_sql, filter_clause, Clauses, value_at, filter_loop,
  filter_clauses, keyword_clause, with_keywords, where_sql, search_query,
  build_search_proposals_sql, group_expr, group_exprs, group_cols, is_group_field, overlaps,
  join_persons, aggregate_query, build_aggregate_sql, like,
}

unfoldable pub placeholders : Sql → List ℕ
placeholders [] = []
placeholders (raw t ∷ ps) = placeholders ps
placeholders (column t c ∷ ps) = placeholders ps
placeholders (param n ∷ ps) = n ∷ placeholders ps

-- Every placeholder has a value, and every value is used.
pub record IsNumbered (n : ℕ) (ns : List ℕ) : Type 0 where
  pub within : All (λ k. (1 ≤ k) × (k ≤ n)) ns
  pub used : (k : ℕ) → 1 ≤ k → k ≤ n → mem k ns ≡ true

abbrev pub IsBound : Query → Type 0
IsBound q = IsNumbered (length q.params) (placeholders q.sql)

pub placeholders-append : (a b : Sql) → placeholders (a ++ b) ≡ placeholders a ++ placeholders b
unfolding placeholders
placeholders-append [] b = refl
placeholders-append (raw t ∷ a) b = placeholders-append a b
placeholders-append (column t c ∷ a) b = placeholders-append a b
placeholders-append (param n ∷ a) b = ap (λ ns. n ∷ ns) (placeholders-append a b)

-- The placeholders of a list of clauses.
unfoldable pub in_clauses : List Sql → List ℕ
in_clauses [] = []
in_clauses (c ∷ cs) = placeholders c ++ in_clauses cs

pub placeholders-join_sql :
    (sep : Text) (cs : List Sql) → placeholders (join_sql sep cs) ≡ in_clauses cs
unfolding join_sql in_clauses placeholders
placeholders-join_sql sep [] = refl
placeholders-join_sql sep (c ∷ []) = sym (append-nil (placeholders c))
placeholders-join_sql sep (c ∷ d ∷ cs) =
    placeholders-append c (raw sep ∷ join_sql sep (d ∷ cs))
    ∙ ap (λ ns. placeholders c ++ ns) (placeholders-join_sql sep (d ∷ cs))

pub in_clauses-append : (a b : List Sql) → in_clauses (a ++ b) ≡ in_clauses a ++ in_clauses b
unfolding in_clauses
in_clauses-append [] b = refl
in_clauses-append (c ∷ a) b =
    ap (λ ns. placeholders c ++ ns) (in_clauses-append a b)
    ∙ sym (append_assoc (placeholders c) (in_clauses a) (in_clauses b))

pub placeholders-where_sql : (cs : List Sql) → placeholders (where_sql cs) ≡ in_clauses cs
unfolding where_sql placeholders
placeholders-where_sql [] = unfold in_clauses in refl
placeholders-where_sql (c ∷ cs) = placeholders-join_sql (codes " AND ") (c ∷ cs)

in_clauses-columns :
    (t : Text) (names : List Text) → in_clauses (map (λ c. column t c ∷ []) names) ≡ []
unfolding in_clauses placeholders
in_clauses-columns t [] = refl
in_clauses-columns t (c ∷ names) = in_clauses-columns t names

filter_clause-params :
    (name : Text) (n : ℕ) (clause : Sql)
    → filter_clause name n ≡ ok clause
    → placeholders clause ≡ n ∷ []
unfolding filter_clause
filter_clause-params name n clause h = elim (Bool-cases (mem_text name proposal_filter_fields)) [
  | inl e ↦ rw (← ok-injective (rw e at h)) (unfold placeholders in refl)
  | inr e ↦ elim (Bool-cases (mem_text name person_filter_fields)) [
    | inl f ↦ rw (← ok-injective (rw (e, f) at h)) (unfold placeholders in refl)
    | inr f ↦ cc (rw (e, f) at h)
  ]
]

pub IsNumbered-more :
    (n : ℕ) (ns : List ℕ) → IsNumbered n ns → IsNumbered (suc n) (ns ++ suc n ∷ [])
IsNumbered-more n ns h = record {
  within =
      All-append (λ k. (1 ≤ k) × (k ≤ suc n)) ns (suc n ∷ [])
        (All-map (λ k. (1 ≤ k) × (k ≤ n)) (λ k. (1 ≤ k) × (k ≤ suc n)) ns (λ k b. omega arith)
          h.within)
        (omega arith);
  used = λ k low high. rw (mem-append k ns (suc n ∷ [])) (ground (arith, h.used k));
}

-- The loop numbers on from the placeholders before it.
filter_loop-IsNumbered :
    (names : List Text) (filters : Fields) (params : List Value) (before : List ℕ)
    (clauses : List Sql) (all : List Value)
    → filter_loop names filters params ≡ ok (clauses, all)
    → IsNumbered (length params) before
    → IsNumbered (length all) (before ++ in_clauses clauses)
unfolding filter_loop in_clauses
filter_loop-IsNumbered [] filters params before clauses all h n =
    let same = ok-injective h in
    subst (λ (c : Clauses). IsNumbered (length c.1) (before ++ in_clauses c.0)) same
      (rw (append-nil before) n)
filter_loop-IsNumbered (name ∷ names) filters params before clauses all h n =
    let (v, e1, h1) = >>=-Through (value_at name filters) _ h in
    let (clause, e2, h2) = >>=-Through (filter_clause name (suc (length params))) _ h1 in
    let (rest, e3, h3) = >>=-Through (filter_loop names filters (params ++ v ∷ [])) _ h2 in
    let more =
      filter_loop-IsNumbered names filters (params ++ v ∷ []) (before ++ suc (length params) ∷ [])
        rest.0 rest.1 e3
        (rw (length-append params (v ∷ [])) (
          subst (λ k. IsNumbered k (before ++ suc (length params) ∷ [])) (omega arith)
            (IsNumbered-more (length params) before n))) in
    subst (λ (c : Clauses). IsNumbered (length c.1) (before ++ in_clauses c.0)) (ok-injective h3)
      (rw (filter_clause-params name (suc (length params)) clause e2)
        (rw (append_assoc before (suc (length params) ∷ []) (in_clauses rest.0)) at more))

pub no_params : IsNumbered 0 []
no_params = record { within = tt; used = λ k low high. absurd (omega arith) }

pub filter_clauses-IsNumbered :
    (filters : Fields) (c : Clauses)
    → filter_clauses filters ≡ ok c
    → IsNumbered (length c.1) (in_clauses c.0)
unfolding filter_clauses
filter_clauses-IsNumbered filters c h =
    filter_loop-IsNumbered (sorted_texts (keys filters)) filters [] [] c.0 c.1 h no_params

keyword-IsNumbered :
    (n : ℕ) (ns : List ℕ) → IsNumbered n ns → IsNumbered (suc n) (ns ++ suc n ∷ suc n ∷ [])
keyword-IsNumbered n ns h = record {
  within =
      All-append (λ k. (1 ≤ k) × (k ≤ suc n)) ns (suc n ∷ suc n ∷ [])
        (All-map (λ k. (1 ≤ k) × (k ≤ n)) (λ k. (1 ≤ k) × (k ≤ suc n)) ns (λ k b. omega arith)
          h.within)
        (omega arith);
  used = λ k low high. rw (mem-append k ns (suc n ∷ suc n ∷ [])) (ground (arith, h.used k));
}

with_keywords-IsNumbered :
    (keywords : Text) (c : Clauses)
    → IsNumbered (length c.1) (in_clauses c.0)
    → IsNumbered (length (with_keywords keywords c).1) (in_clauses (with_keywords keywords c).0)
unfolding with_keywords
with_keywords-IsNumbered keywords c h = elim (Bool-cases (is_empty keywords)) [
  | inl e ↦ rw e h
  | inr e ↦ rw e (
      rw (in_clauses-append c.0 (keyword_clause (suc (length c.1)) ∷ [])) (
        rw (length-append c.1 (like keywords ∷ [])) (
          unfold in_clauses keyword_clause placeholders in
          subst (λ n. IsNumbered n (in_clauses c.0 ++ suc (length c.1) ∷ suc (length c.1) ∷ []))
            (omega arith) (keyword-IsNumbered (length c.1) (in_clauses c.0) h))))
]

search_query-params :
    (limit : ℤ) (c : Clauses)
    → placeholders (search_query limit c).sql ≡ in_clauses c.0 ++ suc (length c.1) ∷ []
unfolding search_query placeholders
search_query-params limit c =
    let cols = map (λ n. column (codes "p") n ∷ []) proposal_columns in
    placeholders-append (join_sql (codes ", ") cols) _
    ∙ ap
        (λ ns.
          ns
          ++ placeholders (
              where_sql c.0
              ++ (raw (codes " ORDER BY p.proposal_number LIMIT ")
                  ∷ param (suc (length c.1))
                  ∷ [])))
        (placeholders-join_sql (codes ", ") cols ∙ in_clauses-columns (codes "p") proposal_columns)
    ∙ placeholders-append (where_sql c.0) _
    ∙ ap (λ ns. ns ++ suc (length c.1) ∷ []) (placeholders-where_sql c.0)

-- Every placeholder of the statement that `build_search_proposals_sql` returns is the number of one
-- of its parameters, and every parameter has a placeholder.
pub build_search_proposals_sql-IsBound :
    (filters : Fields) (keywords : Text) (limit : ℤ) (q : Query)
    → build_search_proposals_sql filters keywords limit ≡ ok q
    → IsBound q
unfolding build_search_proposals_sql
build_search_proposals_sql-IsBound filters keywords limit q h =
    let (c, e, rest) = >>=-Through (filter_clauses filters) _ h in
    let done = with_keywords keywords c in
    let numbered = with_keywords-IsNumbered keywords c (filter_clauses-IsNumbered filters c e) in
    subst IsBound (ok-injective rest) (
      rw (search_query-params limit done) (
        unfold search_query in
        rw (length-append done.1 (int limit ∷ [])) (
          subst (λ n. IsNumbered n (in_clauses done.0 ++ suc (length done.1) ∷ [])) (omega arith)
            (IsNumbered-more (length done.1) (in_clauses done.0) numbered))))

in_clauses-group_exprs : (i : ℕ) (gs : List Text) → in_clauses (group_exprs i gs) ≡ []
unfolding in_clauses group_exprs group_expr placeholders
in_clauses-group_exprs i [] = refl
in_clauses-group_exprs i (g ∷ gs) = elim (Bool-cases (mem_text g agg_person_fields)) [
  | inl e ↦ rw e (in_clauses-group_exprs (suc i) gs)
  | inr e ↦ rw e (in_clauses-group_exprs (suc i) gs)
]

in_clauses-group_cols : (i : ℕ) (gs : List Text) → in_clauses (group_cols i gs) ≡ []
unfolding in_clauses group_cols placeholders
in_clauses-group_cols i [] = refl
in_clauses-group_cols i (g ∷ gs) = in_clauses-group_cols (suc i) gs

no_placeholders-join_persons : (b : Bool) → placeholders (join_persons b) ≡ []
unfolding join_persons placeholders
no_placeholders-join_persons true = refl
no_placeholders-join_persons false = refl

aggregate_query-params :
    (group_by : List Text) (c : Clauses)
    → placeholders (aggregate_query group_by c).sql ≡ in_clauses c.0
unfolding aggregate_query placeholders
aggregate_query-params group_by c = simp (
  placeholders-append, placeholders-join_sql, placeholders-where_sql, in_clauses-group_exprs,
  in_clauses-group_cols, no_placeholders-join_persons, append-nil,
)

-- Every placeholder of the statement that `build_aggregate_sql` returns is the number of one of its
-- parameters, and every parameter has a placeholder.
pub build_aggregate_sql-IsBound :
    (group_by : List Text) (filters : Fields) (q : Query) (overlapping : Bool)
    → build_aggregate_sql group_by filters ≡ ok (q, overlapping)
    → IsBound q
unfolding build_aggregate_sql
build_aggregate_sql-IsBound group_by filters q overlapping h =
    by_unknown (keep_if (λ g. not (is_group_field g)) group_by) h
  where
    by_unknown :
        (unknown : List Text)
        → (elim unknown as (λ u. Result Fault (Query × Bool)) [
          | g ∷ gs ↦ err (tool_error (codes "invalid_args") (codes "unknown group_by field(s)"))
          | [] ↦ filter_clauses filters >>= λ c. ok (aggregate_query group_by c, overlaps group_by)
        ])
          ≡ ok (q, overlapping)
        → IsBound q
    by_unknown (g ∷ gs) k = cc
    by_unknown [] k =
        let (c, e, rest) = >>=-Through (filter_clauses filters) _ k in
        subst IsBound (ap (λ (p : Query × Bool). p.0) (ok-injective rest)) (
          rw (aggregate_query-params group_by c)
            (unfold aggregate_query in filter_clauses-IsNumbered filters c e))
