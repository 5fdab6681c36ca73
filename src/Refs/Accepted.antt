-- ===== src/Refs/Accepted.antt =====
-- Every text: `parse_ref` returns or raises, and what it accepts is well formed.
use stpp_connector.Base.{
  ℕ, zero, suc, ◌≤◌, ◌<◌, ◌≡◌, ◌≢◌, refl, Bool, true, false, not, Option, none, some, List, [], ◌∷◌,
  ◌++◌, arith, Text, text_eq, codes, is_empty, every, length, ok, err, ◌>>=◌, All, All-append, ◌==◌,
  Bool-cases, Option-cases, subst, inl, inr, strip_prefix, if◌then◌else◌,
}
use stpp_connector.Base.Numerals.{is_digit, int_of}
use stpp_connector.Refs.Syntax.{
  Ref, Segment, field, index, star, Parsed, syntax_error, bad_index, step_id_zero, out_of_fuel,
  is_delimiter, ref_prefix, find_bracket, span_field, integer, field_segment, index_segment,
  next_segment, segments_on, step_id_of, parse_body, parse_ref,
}

-- A field segment has a name, and no delimiter stands in it.
abbrev pub IsNamed : Segment → Type 0
IsNamed (field name) = (is_empty name ≡ false) × (every (λ c. not (is_delimiter c)) name ≡ true)
IsNamed s = Unit

pub record IsWellFormed (s : Text) (ref : Ref) : Type 0 where
  pub positive : 0 < ref.step_id
  pub named : All IsNamed ref.segments
  pub is_raw : ref.raw ≡ s

-- The run kept within its fuel, and `P` holds of its value if it has one.
abbrev Fine {ℓ} : {A : Type ℓ} → (A → Type 0) → Parsed A → Type 0
Fine P (ok a) = P a
Fine P (err e) = e ≢ out_of_fuel

Fine-bind {ℓ κ} :
    {X : Type ℓ} {Y : Type κ} (First : X → Type 0) (Last : Y → Type 0)
    → (parsed : Parsed X) (rest : X → Parsed Y) → Fine First parsed
    → ((x : X) → First x → Fine Last (rest x))
    → Fine Last (parsed >>= rest)
Fine-bind First Last (err fault) rest h k = h
Fine-bind First Last (ok x) rest h k = k x h

abbrev Shorter : Text → Segment × Text → Type 0
Shorter s (segment, rest) = IsNamed segment × (length rest ≤ length s)

abbrev Within : Text → Option (Text × Text) → Type 0
Within s none = Unit
Within s (some (inner, rest)) = length rest ≤ length s

find_bracket-Within : (s : Text) → Within s (find_bracket s)
unfolding find_bracket
find_bracket-Within [] = tt
find_bracket-Within (c ∷ s) = widen c s (c == 93) (find_bracket s) (find_bracket-Within s)
  where
    widen :
        (c : ℕ) (s : Text) (here : Bool) (o : Option (Text × Text))
        → Within s o
        → Within (c ∷ s) (
            if here
            then some ([], s)
            else elim o [ none ↦ none | some (inner, rest) ↦ some (c ∷ inner, rest) ])
    widen c s true o w = omega arith
    widen c s false none w = tt
    widen c s false (some (inner, rest)) w = omega arith

span_field-name : (s : Text) → every (λ c. not (is_delimiter c)) (span_field s).0 ≡ true
unfolding span_field
span_field-name [] = refl
span_field-name (c ∷ s) = ground (arith, span_field-name s)

span_field-shorter : (s : Text) → length (span_field s).1 ≤ length s
unfolding span_field
span_field-shorter [] = omega arith
span_field-shorter (c ∷ s) = ground (arith, span_field-shorter s)

Fine-integer : (raw digits : Text) → Fine (λ n. Unit) (integer raw digits)
unfolding integer
Fine-integer raw digits = elim (Option-cases (int_of digits)) [
  | inl e ↦ rw (e, integer) (λ p. cc)
  | inr (n, e) ↦ rw (e, integer) tt
]

Fine-field_segment : (raw s : Text) → Fine (Shorter s) (field_segment raw (span_field s))
unfolding field_segment
Fine-field_segment raw s = elim (Bool-cases (is_empty (span_field s).0)) [
  | inl e ↦ rw e (λ p. cc)
  | inr e ↦ rw e ((e, span_field-name s), span_field-shorter s)
]

Fine-index_segment :
    (raw s : Text) (o : Option (Text × Text)) → Within s o → Fine (Shorter s) (index_segment raw o)
unfolding index_segment
Fine-index_segment raw s none w = λ p. cc
Fine-index_segment raw s (some (inner, rest)) w =
    by_test (text_eq inner (codes "*")) (is_digit inner)
  where
    by_test :
        (starred digits : Bool)
        → Fine (Shorter s) (
            if starred
            then ok (star, rest)
            else if digits
            then (integer raw inner >>= λ n. ok (index n, rest))
            else err (syntax_error bad_index raw))
    by_test true digits = (tt, w)
    by_test false true =
        Fine-bind (λ n. Unit) (Shorter s) (integer raw inner) _ (Fine-integer raw inner)
          (λ n u. (tt, w))
    by_test false false = λ p. cc

Fine-next_segment : (raw : Text) (c : ℕ) (s : Text) → Fine (Shorter s) (next_segment raw c s)
unfolding next_segment
Fine-next_segment raw c s = elim (Bool-cases (c == b'.')) [
  | inl e ↦ rw e (Fine-field_segment raw s)
  | inr e ↦ rw e (elim (Bool-cases (c == b'[')) [
    | inl k ↦ rw k (Fine-index_segment raw s (find_bracket s) (find_bracket-Within s))
    | inr k ↦ rw k (λ p. cc)
  ])
]

Fine-segments_on :
    (fuel : ℕ) (raw s : Text) (segments : List Segment)
    → length s ≤ fuel
    → All IsNamed segments
    → Fine (All IsNamed) (segments_on fuel raw s segments)
unfolding segments_on
Fine-segments_on fuel raw [] segments h a = a
Fine-segments_on zero raw (c ∷ s) segments h a = absurd (omega arith)
Fine-segments_on (suc fuel) raw (c ∷ s) segments h a =
    Fine-bind (Shorter s) (All IsNamed) (next_segment raw c s) _ (Fine-next_segment raw c s)
      λ (segment, rest) fine.
        Fine-segments_on fuel raw rest (segments ++ segment ∷ []) (omega (arith, fine.1))
          (All-append IsNamed segments (segment ∷ []) a (fine.0, tt))

abbrev Positive : ℕ × Text → Type 0
Positive (n, rest) = 0 < n

Fine-step_id_of : (raw : Text) (o : Option (Text × Text)) → Fine Positive (step_id_of raw o)
unfolding step_id_of
Fine-step_id_of raw none = λ p. cc
Fine-step_id_of raw (some (id_text, rest)) = elim (Bool-cases (is_digit id_text)) [
  | inl e ↦ rw e (
      Fine-bind (λ n. Unit) Positive (integer raw id_text) _ (Fine-integer raw id_text)
        (λ n u. positive n))
  | inr e ↦ rw e (λ p. cc)
]
  where
    positive :
        (n : ℕ)
        → Fine Positive (if n == 0 then err (syntax_error step_id_zero raw) else ok (n, rest))
    positive zero = λ p. cc
    positive (suc n) = ground arith

Fine-parse_body : (raw s : Text) → Fine (IsWellFormed raw) (parse_body raw s)
unfolding parse_body
Fine-parse_body raw s =
    Fine-bind Positive (IsWellFormed raw) (step_id_of raw (find_bracket s)) _
      (Fine-step_id_of raw (find_bracket s))
      λ (n, rest) p.
        Fine-bind (All IsNamed) (IsWellFormed raw) (segments_on (length rest) raw rest []) _
          (Fine-segments_on (length rest) raw rest [] (omega arith) tt)
          λ segments a. record { positive = p; named = a; is_raw = refl }

abbrev OptionFine : Text → Option Ref → Type 0
OptionFine s none = Unit
OptionFine s (some ref) = IsWellFormed s ref

Fine-parse_ref : (s : Text) → Fine (OptionFine s) (parse_ref s)
unfolding parse_ref strip_prefix
Fine-parse_ref s = elim (Option-cases (strip_prefix ref_prefix s)) [
  | inl e ↦ rw e tt
  | inr (rest, e) ↦ rw e (
      Fine-bind (IsWellFormed s) (OptionFine s) (parse_body s rest) _ (Fine-parse_body s rest)
        (λ ref w. w))
]

-- The loop of `parse_ref` ends on every text: it never runs out of its fuel.
pub parse_ref-ne-out_of_fuel : (s : Text) → parse_ref s ≢ err out_of_fuel
parse_ref-ne-out_of_fuel s e = subst (Fine (OptionFine s)) e (Fine-parse_ref s) refl

-- What `parse_ref` accepts has a positive step id and named fields, and keeps the text it was
-- read from.
pub parse_ref-IsWellFormed :
    (s : Text) (ref : Ref) → parse_ref s ≡ ok (some ref) → IsWellFormed s ref
parse_ref-IsWellFormed s ref e = subst (Fine (OptionFine s)) e (Fine-parse_ref s)
