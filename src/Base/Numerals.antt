-- ===== src/Base/Numerals.antt =====
-- `str(n)` of a non-negative integer, `str.isdigit` and `int(text)` of Python 3.12.
use Prim.Native.Nat.{ℕ, zero, suc, ◌+◌, ◌-◌, ◌*◌, ◌/◌, ◌%◌, ◌≤◌, ◌<◌}
use mathlib.Core.Path.{◌≡◌, refl, ap, ◌∙◌}
use mathlib.Core.Logic.{inl, inr}
use mathlib.Core.Bool.{Bool, true, false, ◌&&◌, ◌||◌, not}
use mathlib.Core.Option.{Option, none, some}
use mathlib.Core.List.{List, [], ◌∷◌, ◌++◌}
use native.Mathlib.Omega.{arith}
use stpp_connector.Base.Tests.{if◌then◌else◌, ltb, leb, ◌==◌, ==_iff, Bool-cases, Option-cases}
use stpp_connector.Base.Lists.{length, every, is_empty}
use stpp_connector.Base.Strings.{Text}

-- The zeros of the blocks of ten decimal digits (category Nd, Unicode 15.0).
abbrev decimal_zeros : List ℕ
decimal_zeros =
    1632 ∷ 1776 ∷ 1984 ∷ 2406 ∷ 2534 ∷ 2662 ∷ 2790 ∷ 2918 ∷ 3046 ∷ 3174 ∷ 3302 ∷ 3430 ∷ 3558 ∷ 3664
    ∷ 3792 ∷ 3872 ∷ 4160 ∷ 4240 ∷ 6112 ∷ 6160 ∷ 6470 ∷ 6608 ∷ 6784 ∷ 6800 ∷ 6992 ∷ 7088 ∷ 7232
    ∷ 7248 ∷ 42528 ∷ 43216 ∷ 43264 ∷ 43472 ∷ 43504 ∷ 43600 ∷ 44016 ∷ 65296 ∷ 66720 ∷ 68912 ∷ 69734
    ∷ 69872 ∷ 69942 ∷ 70096 ∷ 70384 ∷ 70736 ∷ 70864 ∷ 71248 ∷ 71360 ∷ 71472 ∷ 71904 ∷ 72016 ∷ 72784
    ∷ 73040 ∷ 73120 ∷ 73552 ∷ 92768 ∷ 92864 ∷ 93008 ∷ 120782 ∷ 120792 ∷ 120802 ∷ 120812 ∷ 120822
    ∷ 123200 ∷ 123632 ∷ 124144 ∷ 125264 ∷ 130032 ∷ []

-- The runs of characters that are digits and not decimal: superscripts, circled digits and the
-- like. `isdigit` accepts them and `int` does not.
abbrev other_digits : List (ℕ × ℕ)
other_digits =
    (178, 2)
    ∷ (185, 1)
    ∷ (4969, 9)
    ∷ (6618, 1)
    ∷ (8304, 1)
    ∷ (8308, 6)
    ∷ (8320, 10)
    ∷ (9312, 9)
    ∷ (9332, 9)
    ∷ (9352, 9)
    ∷ (9450, 1)
    ∷ (9461, 9)
    ∷ (9471, 1)
    ∷ (10102, 9)
    ∷ (10112, 9)
    ∷ (10122, 9)
    ∷ (68160, 4)
    ∷ (69216, 9)
    ∷ (69714, 9)
    ∷ (127232, 11)
    ∷ []

in_block : List ℕ → ℕ → Option ℕ
in_block [] c = none
in_block (z ∷ zs) c = if leb z c && ltb c (z + 10) then some (c - z) else in_block zs c

in_run : List (ℕ × ℕ) → ℕ → Bool
in_run [] c = false
in_run ((a, n) ∷ rs) c = (leb a c && ltb c (a + n)) || in_run rs c

abbrev is_some {ℓ} : {A : Type ℓ} → Option A → Bool
is_some none = false
is_some (some a) = true

-- The value that `int` gives a decimal digit. The ASCII digits come first.
unfoldable pub digit_value : ℕ → Option ℕ
unfolding in_block
digit_value c = if leb 48 c && ltb c 58 then some (c - 48) else in_block decimal_zeros c

unfoldable pub is_digit_char : ℕ → Bool
unfolding in_run digit_value
is_digit_char c = is_some (digit_value c) || in_run other_digits c

-- `text.isdigit()`: not empty, and digits only.
unfoldable pub is_digit : Text → Bool
is_digit t = not (is_empty t) && every is_digit_char t

unfoldable pub int_loop : ℕ → Text → Option ℕ
int_loop acc [] = some acc
int_loop acc (c ∷ t) = elim (digit_value c) [ none ↦ none | some d ↦ int_loop (acc * 10 + d) t ]

-- The limit of CPython on the digits that `int` converts.
abbrev pub max_int_digits : ℕ
max_int_digits = 4300

-- `int(text)` of a text of digits: `none` is a ValueError.
unfoldable pub int_of : Text → Option ℕ
int_of t = if ltb max_int_digits (length t) then none else int_loop 0 t

-- `str(n)`, on fuel above the number of digits: `suc n` is always enough.
digits_on : ℕ → ℕ → Text
digits_on zero n = []
digits_on (suc f) n =
    let more = digits_on f (n / 10) ++ (48 + n % 10) ∷ [] in
    if ltb n 10 then (48 + n) ∷ [] else more

unfoldable pub decimal : ℕ → Text
unfolding digits_on
decimal n = digits_on (suc n) n

digit_value-ascii : (d : ℕ) → d < 10 → digit_value (48 + d) ≡ some d
unfolding digit_value
digit_value-ascii d h = ground arith

is_digit_char-ascii : (d : ℕ) → d < 10 → is_digit_char (48 + d) ≡ true
unfolding is_digit_char
is_digit_char-ascii d h = ground (arith, digit_value-ascii d h)

bracket_not_digit : is_digit_char 93 ≡ false
unfolding is_digit_char
bracket_not_digit = refl

int_loop-snoc :
    (acc : ℕ) (t : Text) (n d : ℕ)
    → int_loop acc t ≡ some n
    → d < 10
    → int_loop acc (t ++ (48 + d) ∷ []) ≡ some (n * 10 + d)
unfolding int_loop
int_loop-snoc acc [] n d h l = ground (arith, digit_value-ascii d l)
int_loop-snoc acc (c ∷ t) n d h l = elim (Option-cases (digit_value c)) [
  | inl e ↦ absurd (cc (rw (e, int_loop) at h))
  | inr (v, e) ↦ rw (e, int_loop) (int_loop-snoc (acc * 10 + v) t n d (rw (e, int_loop) at h) l)
]

int_loop-single : (n : ℕ) → n < 10 → int_loop 0 ((48 + n) ∷ []) ≡ some n
unfolding int_loop
int_loop-single n h = ground (arith, digit_value-ascii n h)

int_loop-digits_on : (f n : ℕ) → n < f → int_loop 0 (digits_on f n) ≡ some n
unfolding digits_on
int_loop-digits_on zero n h = absurd (omega arith)
int_loop-digits_on (suc f) n h = elim (Bool-cases (ltb n 10)) [
  | inl small ↦ rw small (int_loop-single n (ground arith))
  | inr large ↦ rw large (
      int_loop-snoc 0 (digits_on f (n / 10)) (n / 10) (n % 10)
        (int_loop-digits_on f (n / 10) (ground arith)) (omega arith)
      ∙ ap some (omega arith))
]

every-append :
    (xs ys : Text)
    → every is_digit_char (xs ++ ys) ≡ (every is_digit_char xs && every is_digit_char ys)
every-append [] ys = refl
every-append (x ∷ xs) ys = ground (arith, every-append xs ys)

every-digits_on : (f n : ℕ) → every is_digit_char (digits_on f n) ≡ true
unfolding digits_on
every-digits_on zero n = refl
every-digits_on (suc f) n = ground (
  arith,
  every-append (digits_on f (n / 10)) ((48 + n % 10) ∷ []),
  every-digits_on f (n / 10),
  is_digit_char-ascii n,
  is_digit_char-ascii (n % 10),
)

digits_on-pos : (f n : ℕ) → n < f → is_empty (digits_on f n) ≡ false
unfolding digits_on
digits_on-pos zero n h = absurd (omega arith)
digits_on-pos (suc f) n h = elim (Bool-cases (ltb n 10)) [
  | inl small ↦ rw small
  | inr large ↦ rw large (is_empty-snoc (digits_on f (n / 10)) (48 + n % 10))
]
  where
    is_empty-snoc : (t : Text) (c : ℕ) → is_empty (t ++ c ∷ []) ≡ false
    is_empty-snoc [] c = refl
    is_empty-snoc (x ∷ t) c = refl

-- What `str` prints is a text of digits.
pub is_digit-decimal : (n : ℕ) → is_digit (decimal n) ≡ true
unfolding is_digit decimal
is_digit-decimal n =
    ground (arith, every-digits_on (suc n) n, digits_on-pos (suc n) n (omega arith))

-- `int(str(n))` is `n`, up to the limit on digits.
pub int_of-decimal : (n : ℕ) → length (decimal n) ≤ max_int_digits → int_of (decimal n) ≡ some n
unfolding int_of decimal
int_of-decimal n h = ground (arith, int_loop-digits_on (suc n) n (omega arith))

not_bracket : (c : ℕ) → is_digit_char c ≡ true → not (c == 93) ≡ true
not_bracket c k = elim (Bool-cases (c == 93)) [
  | inl e ↦ cc (bracket_not_digit, ap is_digit_char ((==_iff c 93).0 e))
  | inr e ↦ rw e
]

no_bracket : (t : Text) → every is_digit_char t ≡ true → every (λ c. not (c == 93)) t ≡ true
no_bracket [] k = refl
no_bracket (c ∷ t) k = ground (arith, not_bracket c, no_bracket t)

-- A bracket is no digit, so none stands inside a text of digits.
pub is_digit-no_bracket : (t : Text) → is_digit t ≡ true → every (λ c. not (c == 93)) t ≡ true
unfolding is_digit
is_digit-no_bracket t h = no_bracket t (ground arith)

pub star_not_digits : is_digit (42 ∷ []) ≡ false
unfolding is_digit is_digit_char
star_not_digits = refl
