-- ===== src/Rfff/Values.antt =====
-- The text of a statement and the values of the caller.
use stpp_connector.Base.{
  suc, ◌≡◌, refl, sym, ap, ◌∙◌, Bool, true, false, Option, none, some, List, [], ◌∷◌, ◌++◌, Text,
  mem_text, sorted_texts, length, length-append, is_empty, Result, ok, err, ◌>>=◌, Bool-cases, inl,
  inr, arith,
}
use stpp_connector.Json.{ℤ, Value, Fields, field, end, get_field, keys}
use stpp_connector.Dispatch.{Fault, crash}
use stpp_connector.Rfff.Sql.{
  Sql, Query, Clauses, filter_clause, value_at, filter_loop, filter_clauses, like, with_keywords,
  search_query, build_search_proposals_sql,
}

abbrev pub sql_of : Result Fault Query → Result Fault Sql
sql_of (ok q) = ok q.sql
sql_of (err e) = err e

-- The same clauses, and as many parameters.
abbrev AreAlike : Result Fault Clauses → Result Fault Clauses → Type 0
AreAlike (ok c) (ok d) = (c.0 ≡ d.0) × (length c.1 ≡ length d.1)
AreAlike (err e) (err f) = e ≡ f
AreAlike x y = ⊥

abbrev is_some : Option Value → Bool
is_some none = false
is_some (some v) = true

is_some-get_field : (k : Text) (fs : Fields) → is_some (get_field k fs) ≡ mem_text k (keys fs)
unfolding get_field keys mem_text
is_some-get_field k end = refl
is_some-get_field k (field j v fs) = ground (arith, is_some-get_field k fs)

-- Looking a name up succeeds in both, or fails alike in both.
abbrev AreBoth : Result Fault Value → Result Fault Value → Type 0
AreBoth (ok v) (ok w) = Unit
AreBoth (err e) (err f) = e ≡ f
AreBoth x y = ⊥

value_at-AreBoth :
    (name : Text) (f g : Fields) → keys f ≡ keys g → AreBoth (value_at name f) (value_at name g)
value_at-AreBoth name f g same =
    by_value (get_field name f) (get_field name g)
      (is_some-get_field name f ∙ ap (mem_text name) same ∙ sym (is_some-get_field name g))
  where
    by_value :
        (a b : Option Value)
        → is_some a ≡ is_some b
        → AreBoth
            (elim a [ none ↦ err crash | some v ↦ ok v ])
            (elim b [ none ↦ err crash | some v ↦ ok v ])
    by_value none none e = refl
    by_value (some v) (some w) e = tt
    by_value none (some w) e = cc
    by_value (some v) none e = cc

AreAlike-cons :
    (clause : Sql) (x y : Result Fault Clauses)
    → AreAlike x y
    → AreAlike (x >>= λ (cs, all). ok (clause ∷ cs, all)) (y >>= λ (cs, all). ok (clause ∷ cs, all))
AreAlike-cons clause (ok c) (ok d) h = (ap (λ cs. clause ∷ cs) h.0, h.1)
AreAlike-cons clause (err e) (err f) h = h
AreAlike-cons clause (ok c) (err f) h = h
AreAlike-cons clause (err e) (ok d) h = h

filter_loop-AreAlike :
    (names : List Text) (f g : Fields) (ps qs : List Value)
    → keys f ≡ keys g
    → length ps ≡ length qs
    → AreAlike (filter_loop names f ps) (filter_loop names g qs)
unfolding filter_loop
filter_loop-AreAlike [] f g ps qs same n = (refl, n)
filter_loop-AreAlike (name ∷ names) f g ps qs same n =
    by_values (value_at name f) (value_at name g) (value_at-AreBoth name f g same) (λ v w.
      filter_loop-AreAlike names f g (ps ++ v ∷ []) (qs ++ w ∷ []) same
        (omega (arith, n, length-append ps (v ∷ []), length-append qs (w ∷ []))))
  where
    by_clause :
        (x : Result Fault Sql) (v w : Value)
        → AreAlike (filter_loop names f (ps ++ v ∷ [])) (filter_loop names g (qs ++ w ∷ []))
        → AreAlike
            (x >>= λ clause.
              filter_loop names f (ps ++ v ∷ []) >>= λ (cs, all). ok (clause ∷ cs, all))
            (x >>= λ clause.
              filter_loop names g (qs ++ w ∷ []) >>= λ (cs, all). ok (clause ∷ cs, all))
    by_clause (err e) v w h = refl
    by_clause (ok clause) v w h = AreAlike-cons clause _ _ h

    by_values :
        (x y : Result Fault Value)
        → AreBoth x y
        → ((v w : Value)
            → AreAlike (filter_loop names f (ps ++ v ∷ [])) (filter_loop names g (qs ++ w ∷ [])))
        → AreAlike
            (x >>= λ v. filter_clause name (suc (length ps)) >>= λ clause.
              filter_loop names f (ps ++ v ∷ []) >>= λ (cs, all). ok (clause ∷ cs, all))
            (y >>= λ v. filter_clause name (suc (length qs)) >>= λ clause.
              filter_loop names g (qs ++ v ∷ []) >>= λ (cs, all). ok (clause ∷ cs, all))
    by_values (ok v) (ok w) b h =
        rw n (by_clause (filter_clause name (suc (length qs))) v w (h v w))
    by_values (err e) (err e') b h = b
    by_values (ok v) (err e') b h = absurd b
    by_values (err e) (ok w) b h = absurd b

search_query-same :
    (keywords words : Text) (limit bound : ℤ) (c d : Clauses)
    → is_empty keywords ≡ is_empty words
    → c.0 ≡ d.0
    → length c.1 ≡ length d.1
    → (search_query limit (with_keywords keywords c)).sql
      ≡ (search_query bound (with_keywords words d)).sql
unfolding search_query with_keywords
search_query-same keywords words limit bound c d e cs n = elim (Bool-cases (is_empty words)) [
  | inl empty ↦ rw (e ∙ empty, empty) (rw (cs, n) refl)
  | inr filled ↦
      rw (e ∙ filled, filled)
        (rw (cs, n)
          (rw (length-append c.1 (like keywords ∷ []), length-append d.1 (like words ∷ []), n)
            refl))
]

-- The statement of a search, or its refusal, is the same for any two calls whose filters have the
-- same names and whose keywords are both empty or both not: no value that the caller gives stands
-- in the text of the statement.
pub build_search_proposals_sql-same_sql :
    (f g : Fields) (keywords words : Text) (limit bound : ℤ)
    → keys f ≡ keys g
    → is_empty keywords ≡ is_empty words
    → sql_of (build_search_proposals_sql f keywords limit)
      ≡ sql_of (build_search_proposals_sql g words bound)
unfolding build_search_proposals_sql filter_clauses
build_search_proposals_sql-same_sql f g keywords words limit bound same e = rw same (
    by_clauses (filter_loop (sorted_texts (keys g)) f []) (filter_loop (sorted_texts (keys g)) g [])
      (filter_loop-AreAlike (sorted_texts (keys g)) f g [] [] same refl))
  where
    by_clauses :
        (x y : Result Fault Clauses)
        → AreAlike x y
        → sql_of (x >>= λ c. ok (search_query limit (with_keywords keywords c)))
          ≡ sql_of (y >>= λ c. ok (search_query bound (with_keywords words c)))
    by_clauses (ok c) (ok d) h = ap ok (search_query-same keywords words limit bound c d e h.0 h.1)
    by_clauses (err x) (err y) h = ap err h
    by_clauses (ok c) (err y) h = absurd h
    by_clauses (err x) (ok d) h = absurd h
