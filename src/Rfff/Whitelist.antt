-- ===== src/Rfff/Whitelist.antt =====
-- Which filters a statement is built for.
use stpp_connector.Base.{
  ℕ, suc, ◌≡◌, refl, sym, ap, ◌∙◌, ◌↔◌, Bool, true, ◌||◌, ◌&&◌, List, [], ◌∷◌, ◌++◌, Text, mem_text,
  text_eq, insert_text, sorted_texts, every, length, Result, ok, err, >>=-Through, >>=-of, &&-true,
  text_eq_refl, Bool-cases, inl, inr, arith,
}
use stpp_connector.Json.{ℤ, Value, Fields, field, end, get_field, keys}
use stpp_connector.Dispatch.{Fault}
use stpp_connector.Rfff.Columns.{proposal_filter_fields, person_filter_fields}
use stpp_connector.Rfff.Sql.{
  Sql, Query, Clauses, filter_clause, value_at, filter_loop, filter_clauses, with_keywords,
  search_query, build_search_proposals_sql,
}

-- `PROPOSAL_FILTER_FIELDS` or `PERSON_FILTER_FIELDS`
abbrev pub is_filter_field : Text → Bool
is_filter_field name = mem_text name proposal_filter_fields || mem_text name person_filter_fields

every-insert_text :
    (p : Text → Bool) (t : Text) (ts : List Text) → every p (insert_text t ts) ≡ (p t && every p ts)
unfolding insert_text
every-insert_text p t [] = refl
every-insert_text p t (u ∷ ts) = ground (arith, every-insert_text p t ts)

every-sorted_texts : (p : Text → Bool) (ts : List Text) → every p (sorted_texts ts) ≡ every p ts
unfolding sorted_texts
every-sorted_texts p [] = refl
every-sorted_texts p (t ∷ ts) =
    every-insert_text p t (sorted_texts ts) ∙ ap (λ b. p t && b) (every-sorted_texts p ts)

filter_clause-ok :
    (name : Text) (n : ℕ) (clause : Sql)
    → filter_clause name n ≡ ok clause
    → is_filter_field name ≡ true
unfolding filter_clause
filter_clause-ok name n clause h = ground arith

filter_loop-ok :
    (names : List Text) (filters : Fields) (params : List Value) (c : Clauses)
    → filter_loop names filters params ≡ ok c
    → every is_filter_field names ≡ true
unfolding filter_loop
filter_loop-ok [] filters params c h = refl
filter_loop-ok (name ∷ names) filters params c h =
    let (v, e1, h1) = >>=-Through (value_at name filters) _ h in
    let (clause, e2, h2) = >>=-Through (filter_clause name (suc (length params))) _ h1 in
    let (rest, e3, h3) = >>=-Through (filter_loop names filters (params ++ v ∷ [])) _ h2 in
    rw (filter_clause-ok name (suc (length params)) clause e2)
      (filter_loop-ok names filters (params ++ v ∷ []) rest e3)

filter_clause-listed :
    (name : Text) (n : ℕ)
    → is_filter_field name ≡ true
    → (clause : Sql) × (filter_clause name n ≡ ok clause)
unfolding filter_clause
filter_clause-listed name n h = by_result (filter_clause name n) refl
  where
    by_result :
        (x : Result Fault Sql)
        → filter_clause name n ≡ x
        → (clause : Sql) × (filter_clause name n ≡ ok clause)
    by_result (ok clause) e = (clause, e)
    by_result (err f) e = absurd (ground arith)

has_value :
    (fs : Fields) (k : Text) → mem_text k (keys fs) ≡ true → (v : Value) × (value_at k fs ≡ ok v)
unfolding get_field keys mem_text
has_value end k h = cc
has_value (field j v fs) k h = elim (Bool-cases (text_eq j k)) [
  | inl e ↦ (v, rw (e, value_at) refl)
  | inr e ↦ rw (e, value_at) (has_value fs k (rw e at h))
]

-- Every name of the list is in the dict.
abbrev AreIn : Fields → List Text → Type 0
AreIn fs ts = every (λ t. mem_text t (keys fs)) ts ≡ true

filter_loop-listed :
    (names : List Text) (filters : Fields) (params : List Value)
    → AreIn filters names
    → every is_filter_field names ≡ true
    → (c : Clauses) × (filter_loop names filters params ≡ ok c)
unfolding filter_loop
filter_loop-listed [] filters params i h = (([], params), refl)
filter_loop-listed (name ∷ names) filters params i h =
    let (here, rest) = &&-true (mem_text name (keys filters)) _ i in
    let (listed, others) = &&-true (is_filter_field name) _ h in
    let (v, e1) = has_value filters name here in
    let (clause, e2) = filter_clause-listed name (suc (length params)) listed in
    let (c, e3) = filter_loop-listed names filters (params ++ v ∷ []) rest others in
    ((clause ∷ c.0, c.1), >>=-of _ e1 ∙ >>=-of _ e2 ∙ >>=-of _ e3)

every-weaker :
    (p q : Text → Bool) (ts : List Text)
    → ((t : Text) → p t ≡ true → q t ≡ true)
    → every p ts ≡ true
    → every q ts ≡ true
every-weaker p q [] f h = refl
every-weaker p q (t ∷ ts) f h =
    let (here, rest) = &&-true (p t) (every p ts) h in rw (f t here) (every-weaker p q ts f rest)

AreIn-keys : (fs : Fields) → AreIn fs (keys fs)
unfolding keys mem_text
AreIn-keys end = refl
AreIn-keys (field k v fs) = rw (text_eq_refl k) (
    every-weaker (λ t. mem_text t (keys fs)) (λ t. mem_text t (k ∷ keys fs)) (keys fs)
      (λ t e. ground arith) (AreIn-keys fs))

-- `build_search_proposals_sql` returns a statement if and only if every name among the filters is in
-- one of the two whitelists.
pub build_search_proposals_sql_iff :
    (filters : Fields) (keywords : Text) (limit : ℤ)
    → ((q : Query) × (build_search_proposals_sql filters keywords limit ≡ ok q))
      ↔ (every is_filter_field (keys filters) ≡ true)
unfolding build_search_proposals_sql filter_clauses
build_search_proposals_sql_iff filters keywords limit = (
  λ (q, h).
      let (c, e, rest) = >>=-Through (filter_loop (sorted_texts (keys filters)) filters []) _ h in
      sym (every-sorted_texts is_filter_field (keys filters))
      ∙ filter_loop-ok (sorted_texts (keys filters)) filters [] c e,
  λ listed.
      let (c, e) =
        filter_loop-listed (sorted_texts (keys filters)) filters []
          (every-sorted_texts (λ t. mem_text t (keys filters)) (keys filters) ∙ AreIn-keys filters)
          (every-sorted_texts is_filter_field (keys filters) ∙ listed) in
      (search_query limit (with_keywords keywords c), >>=-of _ e),
)
