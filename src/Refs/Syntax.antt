-- ===== src/Refs/Syntax.antt =====
-- `parse_ref` of services/integration-api/agent/refs.py. The program walks the text by positions;
-- here the walk carries the text that is left. A message names its kind and the whole reference;
-- the position inside it is not kept.
use stpp_connector.Base.{
  ℕ, zero, suc, Bool, ◌||◌, Option, none, some, List, [], ◌∷◌, ◌++◌, Text, codes, text_eq, is_empty,
  strip_prefix, length, Result, ok, err, ◌>>=◌, if◌then◌else◌, ◌==◌, some_of,
}
use stpp_connector.Base.Numerals.{is_digit, int_of}

pub data Segment : Type 0 where
  field : Text → Segment
  index : ℕ → Segment
  star : Segment

pub record Ref : Type 0 where
  pub step_id : ℕ
  pub segments : List Segment
  pub raw : Text

-- The messages of `RefSyntaxError`.
pub data SyntaxKind : Type 0 where
  unclosed_step_id step_id_not_integer step_id_zero : SyntaxKind
  empty_field unclosed_bracket bad_index unexpected_character : SyntaxKind

-- What `parse_ref` raises: a `RefSyntaxError`, or the plain `ValueError` of `int`, which the
-- handlers of `RefSyntaxError` do not catch. `out_of_fuel` has no counterpart.
pub data RefFault : Type 0 where
  syntax_error : SyntaxKind → Text → RefFault
  value_error : Text → RefFault
  out_of_fuel : RefFault

abbrev pub Parsed {ℓ} : Type ℓ → Type ℓ
Parsed A = Result RefFault A

abbrev pub ref_prefix : Text
ref_prefix = codes "$steps["

-- What stands before the first `]` and after it: `s.find("]", pos)` and the two slices.
unfoldable pub find_bracket : Text → Option (Text × Text)
find_bracket [] = none
find_bracket (c ∷ s) =
    if c == b']'
    then some ([], s)
    else elim (find_bracket s) [ none ↦ none | some (inner, rest) ↦ some (c ∷ inner, rest) ]

-- The characters that end a field name.
abbrev pub is_delimiter : ℕ → Bool
is_delimiter c = (c == b'.') || ((c == b'[') || (c == b']'))

-- `_FIELD_RE.match`: the longest run of other characters, and what follows.
unfoldable pub span_field : Text → Text × Text
span_field [] = ([], [])
span_field (c ∷ s) =
    let (name, rest) = span_field s in if is_delimiter c then ([], c ∷ s) else (c ∷ name, rest)

unfoldable pub integer : Text → Text → Parsed ℕ
integer raw digits = elim (int_of digits) [ none ↦ err (value_error raw) | some n ↦ ok n ]

unfoldable pub field_segment : Text → Text × Text → Parsed (Segment × Text)
field_segment raw (name, rest) =
    if is_empty name then err (syntax_error empty_field raw) else ok (field name, rest)

unfoldable pub index_segment : Text → Option (Text × Text) → Parsed (Segment × Text)
index_segment raw none = err (syntax_error unclosed_bracket raw)
index_segment raw (some (inner, rest)) =
    if text_eq inner (codes "*")
    then ok (star, rest)
    else if is_digit inner
    then (integer raw inner >>= λ n. ok (index n, rest))
    else err (syntax_error bad_index raw)

-- One round of the loop: the segment that starts with the character `c`.
unfoldable pub next_segment : Text → ℕ → Text → Parsed (Segment × Text)
next_segment raw c s =
    if c == b'.'
    then field_segment raw (span_field s)
    else if c == b'['
    then index_segment raw (find_bracket s)
    else err (syntax_error unexpected_character raw)

-- The loop `while pos < len(s)`, on fuel. Each round takes a character, so the length is enough.
unfoldable pub segments_on : ℕ → Text → Text → List Segment → Parsed (List Segment)
segments_on fuel raw [] segments = ok segments
segments_on zero raw (c ∷ s) segments = err out_of_fuel
segments_on (suc fuel) raw (c ∷ s) segments =
    next_segment raw c s >>= λ (segment, rest). segments_on fuel raw rest (segments ++ segment ∷ [])

-- The step id, between the prefix and the first `]`.
unfoldable pub step_id_of : Text → Option (Text × Text) → Parsed (ℕ × Text)
step_id_of raw none = err (syntax_error unclosed_step_id raw)
step_id_of raw (some (id_text, rest)) =
    if is_digit id_text
    then (integer raw id_text >>= λ n.
        if n == 0 then err (syntax_error step_id_zero raw) else ok (n, rest))
    else err (syntax_error step_id_not_integer raw)

unfoldable pub parse_body : Text → Text → Parsed Ref
parse_body raw s = step_id_of raw (find_bracket s) >>= λ (n, rest).
    segments_on (length rest) raw rest [] >>= λ segments.
    ok (record { step_id = n; segments = segments; raw = raw })

-- `none`: a text that is no reference.
unfoldable pub parse_ref : Text → Parsed (Option Ref)
parse_ref s = elim (strip_prefix ref_prefix s) [
  | none ↦ ok none
  | some rest ↦ (parse_body s rest >>= λ ref. ok (some ref))
]

abbrev is_star : Segment → Bool
is_star star = Bool.true
is_star s = Bool.false

unfoldable pub has_star : Ref → Bool
has_star ref = some_of is_star ref.segments
