-- ===== src/Refs/RoundTrip.antt =====
-- Writing a reference and reading it back.
use stpp_connector.Base.{
  ℕ, zero, suc, ◌+◌, ◌≤◌, ◌<◌, ◌≡◌, refl, ap, ◌∙◌, Bool, true, false, not, some, List, [], ◌∷◌,
  ◌++◌, append_assoc, append-nil, arith, Text, codes, is_empty, every, length, length-append, ok,
  All, ◌==◌, strip_prefix, text_eq, text_eq_iff, Bool-cases, inl, inr,
}
use stpp_connector.Base.Numerals.{
  decimal, is_digit, is_digit-decimal, int_of-decimal, is_digit-no_bracket, max_int_digits,
  star_not_digits,
}
use stpp_connector.Refs.Syntax.{
  Segment, field, index, star, is_delimiter, ref_prefix, find_bracket, span_field, integer,
  field_segment, index_segment, next_segment, segments_on, step_id_of, parse_body, parse_ref,
}

-- The text of a reference.
abbrev pub show_segment : Segment → Text
show_segment (field name) = b'.' ∷ name
show_segment (index n) = b'[' ∷ (decimal n ++ b']' ∷ [])
show_segment star = codes "[*]"

abbrev pub show_segments : List Segment → Text
show_segments [] = []
show_segments (s ∷ ss) = show_segment s ++ show_segments ss

abbrev pub show_ref : ℕ → List Segment → Text
show_ref n segments = ref_prefix ++ (decimal n ++ b']' ∷ show_segments segments)

-- A segment that can be written: a field name is not empty and has no delimiter, and an index is
-- short enough for `int`.
abbrev pub IsWritable : Segment → Type 0
IsWritable (field name) = (is_empty name ≡ false) × (every (λ c. not (is_delimiter c)) name ≡ true)
IsWritable (index n) = length (decimal n) ≤ max_int_digits
IsWritable star = Unit

-- The start of a text at which a field name ends.
abbrev ends_field : Text → Bool
ends_field [] = true
ends_field (c ∷ s) = is_delimiter c

ends_field-show : (ss : List Segment) → ends_field (show_segments ss) ≡ true
ends_field-show [] = refl
ends_field-show (field name ∷ ss) = refl
ends_field-show (index n ∷ ss) = refl
ends_field-show (star ∷ ss) = refl

pub find_bracket-append :
    (t s : Text) → every (λ c. not (c == 93)) t ≡ true → find_bracket (t ++ 93 ∷ s) ≡ some (t, s)
unfolding find_bracket
find_bracket-append [] s h = refl
find_bracket-append (c ∷ t) s h = ground (arith, find_bracket-append t s)

span_field-append :
    (t s : Text)
    → every (λ c. not (is_delimiter c)) t ≡ true
    → ends_field s ≡ true
    → span_field (t ++ s) ≡ (t, s)
unfolding span_field
span_field-append [] [] h e = refl
span_field-append [] (c ∷ s) h e = ground arith
span_field-append (c ∷ t) s h e = ground (arith, span_field-append t s)

decimal-no_star : (n : ℕ) → text_eq (decimal n) (codes "*") ≡ false
decimal-no_star n = elim (Bool-cases (text_eq (decimal n) (codes "*"))) [
  | inl e ↦
      cc (
        star_not_digits,
        is_digit-decimal n,
        ap is_digit ((text_eq_iff (decimal n) (codes "*")).0 e),
      )
  | inr e ↦ e
]

read_index :
    (raw : Text) (n : ℕ) (rest : Text)
    → length (decimal n) ≤ max_int_digits
    → index_segment raw (find_bracket (decimal n ++ (93 ∷ rest))) ≡ ok (index n, rest)
unfolding index_segment integer
read_index raw n rest h =
    rw (find_bracket-append (decimal n) rest (is_digit-no_bracket (decimal n) (is_digit-decimal n)))
      (ground (arith, decimal-no_star n, is_digit-decimal n, int_of-decimal n h))

read_field :
    (raw name rest : Text)
    → IsWritable (field name)
    → ends_field rest ≡ true
    → field_segment raw (span_field (name ++ rest)) ≡ ok (field name, rest)
unfolding field_segment
read_field raw name rest w e = rw (span_field-append name rest w.1 e) (ground arith)

read_star : (raw rest : Text) → index_segment raw (find_bracket (42 ∷ 93 ∷ rest)) ≡ ok (star, rest)
unfolding index_segment find_bracket text_eq
read_star raw rest = refl

length-append_text : (xs ys : Text) → length (xs ++ ys) ≡ length xs + length ys
length-append_text = length-append

segments_on-show :
    (fuel : ℕ) (raw : Text) (ss acc : List Segment)
    → length (show_segments ss) ≤ fuel
    → All IsWritable ss
    → segments_on fuel raw (show_segments ss) acc ≡ ok (acc ++ ss)
unfolding segments_on next_segment
segments_on-show fuel raw [] acc h w = rw append-nil
segments_on-show zero raw (field name ∷ ss) acc h w = absurd (omega arith)
segments_on-show zero raw (index n ∷ ss) acc h w = absurd (omega arith)
segments_on-show zero raw (star ∷ ss) acc h w = absurd (omega arith)
segments_on-show (suc fuel) raw (field name ∷ ss) acc h w =
    rw (read_field raw name (show_segments ss) w.0 (ends_field-show ss)) (
      segments_on-show fuel raw ss (acc ++ field name ∷ [])
        (omega (arith, length-append_text name (show_segments ss))) w.1
      ∙ ap ok (append_assoc acc (field name ∷ []) ss))
segments_on-show (suc fuel) raw (index n ∷ ss) acc h w =
    rw (append_assoc (decimal n) (93 ∷ []) (show_segments ss)) (
      rw (read_index raw n (show_segments ss) w.0) (
        segments_on-show fuel raw ss (acc ++ index n ∷ [])
          (omega (
            arith,
            length-append_text (decimal n ++ 93 ∷ []) (show_segments ss),
            length-append_text (decimal n) (93 ∷ []),
          ))
          w.1
        ∙ ap ok (append_assoc acc (index n ∷ []) ss)))
segments_on-show (suc fuel) raw (star ∷ ss) acc h w = rw (read_star raw (show_segments ss)) (
    segments_on-show fuel raw ss (acc ++ star ∷ []) (omega arith) w.1
    ∙ ap ok (append_assoc acc (star ∷ []) ss))

parse_body-show :
    (raw : Text) (n : ℕ) (ss : List Segment)
    → 0 < n
    → length (decimal n) ≤ max_int_digits
    → All IsWritable ss
    → parse_body raw (decimal n ++ 93 ∷ show_segments ss)
      ≡ ok (record { step_id = n; segments = ss; raw = raw })
unfolding parse_body step_id_of integer
parse_body-show raw n ss p h w =
    let rest = show_segments ss in
    rw (find_bracket-append (decimal n) rest (is_digit-no_bracket (decimal n) (is_digit-decimal n)))
      (ground (
        arith,
        is_digit-decimal n,
        int_of-decimal n h,
        segments_on-show (length rest) raw ss [] (omega arith) w,
      ))

-- A reference with a positive step id and writable segments is read back from its text: the same
-- step and segments, with the text as its raw form. A number is at most 4300 digits long.
pub parse_ref-show :
    (n : ℕ) (ss : List Segment)
    → 0 < n
    → length (decimal n) ≤ max_int_digits
    → All IsWritable ss
    → parse_ref (show_ref n ss)
      ≡ ok (some (record { step_id = n; segments = ss; raw = show_ref n ss }))
unfolding parse_ref strip_prefix
parse_ref-show n ss p h w = rw (parse_body-show (show_ref n ss) n ss p h w)
