-- ===== src/Context/Terms.antt =====
-- The terms that a query is searched for.
use stpp_connector.Base.{
  ◌≤◌, ◌≡◌, refl, ◌∙◌, Bool, true, false, not, ◌||◌, Option, none, some, &&-true, List, [], ◌∷◌,
  ◌++◌, Text, mem_text, text_eq, length, map, leb, All, All-append, Bool-cases, inl, inr, arith,
}
use stpp_connector.Context.{
  is_head, is_tail, scan, stopwords, is_term, add_terms, extract_terms, pattern_of,
}

-- Letters a to z, digits and hyphens.
abbrev pub IsWord : Text → Type 0
IsWord = All (λ c. is_tail c ≡ true)

abbrev IsStarted : Option Text → Type 0
IsStarted none = Unit
IsStarted (some token) = IsWord token

scan-IsWord : (o : Option Text) (s : Text) → IsStarted o → All IsWord (scan o s)
unfolding scan
scan-IsWord none [] h = tt
scan-IsWord (some token) [] h = (h, tt)
scan-IsWord none (c ∷ s) h = elim (Bool-cases (is_head c)) [
  | inl e ↦ rw (scan, e) (scan-IsWord (some (c ∷ [])) s (ground arith, tt))
  | inr e ↦ rw (scan, e) (scan-IsWord none s tt)
]
scan-IsWord (some token) (c ∷ s) h = elim (Bool-cases (is_tail c)) [
  | inl e ↦
      rw (scan, e)
        (scan-IsWord (some (token ++ c ∷ [])) s
          (All-append (λ d. is_tail d ≡ true) token (c ∷ []) h (e, tt)))
  | inr e ↦ rw (scan, e) (h, scan-IsWord none s tt)
]

-- A keyword of at least three characters that is no stopword.
abbrev pub IsKeyword : Text → Type 0
IsKeyword t = IsWord t × (3 ≤ length t) × (mem_text t stopwords ≡ false)

-- No term stands twice.
abbrev pub IsDistinct : List Text → Type 0
IsDistinct [] = Unit
IsDistinct (t ∷ ts) = (mem_text t ts ≡ false) × IsDistinct ts

||-false : (a b : Bool) → (a || b) ≡ false → (a ≡ false) × (b ≡ false)
||-false a b h = ground arith

text_eq_sym : (s t : Text) → text_eq s t ≡ text_eq t s
unfolding text_eq
text_eq_sym [] [] = refl
text_eq_sym [] (b ∷ t) = refl
text_eq_sym (a ∷ s) [] = refl
text_eq_sym (a ∷ s) (b ∷ t) = ground (arith, text_eq_sym s t)

mem_text-append :
    (t : Text) (xs ys : List Text) → mem_text t (xs ++ ys) ≡ (mem_text t xs || mem_text t ys)
unfolding mem_text
mem_text-append t [] ys = refl
mem_text-append t (x ∷ xs) ys = ground (arith, mem_text-append t xs ys)

IsDistinct-append :
    (xs : List Text) (t : Text) → IsDistinct xs → mem_text t xs ≡ false → IsDistinct (xs ++ t ∷ [])
unfolding mem_text
IsDistinct-append [] t h k = (refl, tt)
IsDistinct-append (x ∷ xs) t h k =
    let (first, rest) = ||-false _ _ k in
    (
      mem_text-append x xs (t ∷ []) ∙ rw (h.0) (rw (text_eq_sym t x ∙ first) refl),
      IsDistinct-append xs t h.1 rest,
    )

add_terms-good :
    (seen ts : List Text)
    → All IsKeyword seen
    → IsDistinct seen
    → All IsWord ts
    → All IsKeyword (add_terms seen ts) × IsDistinct (add_terms seen ts)
unfolding add_terms
add_terms-good seen [] h k w = (h, k)
add_terms-good seen (t ∷ ts) h k w = elim (Bool-cases (is_term seen t)) [
  | inr e ↦ rw (add_terms, e) (add_terms-good seen ts h k w.1)
  | inl e ↦
      let (long, other) = &&-true (leb 3 (length t)) _ e in
      let (common, fresh) = &&-true (not (mem_text t stopwords)) (not (mem_text t seen)) other in
      rw (add_terms, e)
        (add_terms-good (seen ++ t ∷ []) ts
          (All-append IsKeyword seen (t ∷ []) h ((w.0, ground arith, ground arith), tt))
          (IsDistinct-append seen t k (ground arith)) w.1)
]

-- The characters of a pattern between its two wildcards are letters, digits and hyphens.
abbrev pub IsPattern : Text → Type 0
IsPattern p = (t : Text) × (p ≡ pattern_of t) × IsWord t

patterns-IsPattern : (ts : List Text) → All IsKeyword ts → All IsPattern (map pattern_of ts)
patterns-IsPattern [] h = tt
patterns-IsPattern (t ∷ ts) h = ((t, refl, h.0.0), patterns-IsPattern ts h.1)

-- The terms of a query, whatever it is, are keywords of letters, digits and hyphens with at least
-- three characters, none of them a stopword and none twice; so that between the wildcards at their
-- ends the patterns of the catalog searches have no wildcard or escape of the user's.
pub extract_terms-IsKeyword :
    (lower : Text → Text) (query : Text)
    → All IsKeyword (extract_terms lower query)
      × IsDistinct (extract_terms lower query)
      × All IsPattern (map pattern_of (extract_terms lower query))
unfolding extract_terms
extract_terms-IsKeyword lower query =
    let (keywords, apart) =
      add_terms-good [] (scan none (lower query)) tt tt (scan-IsWord none (lower query) tt) in
    (keywords, apart, patterns-IsPattern (add_terms [] (scan none (lower query))) keywords)
