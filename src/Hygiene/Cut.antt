-- ===== src/Hygiene/Cut.antt =====
-- What `truncate_strings` returns.
use stpp_connector.Base.{
  ℕ, suc, ◌≤◌, ◌≡◌, refl, ap, ap₂, Bool, false, ◌||◌, [], ◌∷◌, Text, length, take, length-take,
  length-append, ltb, arith, Bool-cases, inl, inr,
}
use stpp_connector.Json.{
  Value, Items, Fields, null, bool, int, float, str, arr, obj, nil, cons, end, field,
}
use stpp_connector.Hygiene.{ellipsis, cut_text, truncate_strings, truncate_items, truncate_fields}

-- Every text in the value has at most `n` characters.
unfoldable mutual
  pub IsShort : ℕ → Value → Type 0
  IsShort n (str s) = length s ≤ n
  IsShort n (arr vs) = AreShort n vs
  IsShort n (obj fs) = HasShort n fs
  IsShort n v = Unit

  pub AreShort : ℕ → Items → Type 0
  AreShort n nil = Unit
  AreShort n (cons v vs) = IsShort n v × AreShort n vs

  pub HasShort : ℕ → Fields → Type 0
  HasShort n end = Unit
  HasShort n (field k v fs) = IsShort n v × HasShort n fs

length-cut : (n : ℕ) (s : Text) → length ((cut_text n s).0) ≤ suc n
unfolding cut_text
length-cut n s = elim (Bool-cases (ltb n (length s))) [
  | inl e ↦ rw e (omega (arith, length-take n s, length-append (take n s) (ellipsis ∷ [])))
  | inr e ↦ rw e (ground arith)
]

cut-whole : (n : ℕ) (s : Text) → (cut_text n s).1 ≡ false → (cut_text n s).0 ≡ s
unfolding cut_text
cut-whole n s = elim (Bool-cases (ltb n (length s))) [
  | inl e ↦ rw e (λ h. cc)
  | inr e ↦ rw e (λ h. refl)
]

||-false : (a b : Bool) → (a || b) ≡ false → (a ≡ false) × (b ≡ false)
||-false a b h = ground arith

mutual
  unfolding truncate_strings IsShort

  -- Every text of the result has at most `max_chars` characters and the ellipsis.
  pub truncate_strings-IsShort : (n : ℕ) (v : Value) → IsShort (suc n) (truncate_strings n v).0
  truncate_strings-IsShort n null = tt
  truncate_strings-IsShort n (bool b) = tt
  truncate_strings-IsShort n (int z) = tt
  truncate_strings-IsShort n (float t) = tt
  truncate_strings-IsShort n (str s) = length-cut n s
  truncate_strings-IsShort n (arr vs) = truncate_items-AreShort n vs
  truncate_strings-IsShort n (obj fs) = truncate_fields-HasShort n fs

  pub truncate_items-AreShort : (n : ℕ) (vs : Items) → AreShort (suc n) (truncate_items n vs).0
  truncate_items-AreShort n nil = tt
  truncate_items-AreShort n (cons v vs) =
      (truncate_strings-IsShort n v, truncate_items-AreShort n vs)

  truncate_fields-HasShort : (n : ℕ) (fs : Fields) → HasShort (suc n) (truncate_fields n fs).0
  truncate_fields-HasShort n end = tt
  truncate_fields-HasShort n (field k v fs) =
      (truncate_strings-IsShort n v, truncate_fields-HasShort n fs)

mutual
  unfolding truncate_strings

  -- Nothing was cut: the value is as it was.
  pub truncate_strings-whole :
      (n : ℕ) (v : Value) → (truncate_strings n v).1 ≡ false → (truncate_strings n v).0 ≡ v
  truncate_strings-whole n null h = refl
  truncate_strings-whole n (bool b) h = refl
  truncate_strings-whole n (int z) h = refl
  truncate_strings-whole n (float t) h = refl
  truncate_strings-whole n (str s) h = ap str (cut-whole n s h)
  truncate_strings-whole n (arr vs) h = ap arr (truncate_items-whole n vs h)
  truncate_strings-whole n (obj fs) h = ap obj (truncate_fields-whole n fs h)

  pub truncate_items-whole :
      (n : ℕ) (vs : Items) → (truncate_items n vs).1 ≡ false → (truncate_items n vs).0 ≡ vs
  truncate_items-whole n nil h = refl
  truncate_items-whole n (cons v vs) h =
      let (hit, cut) = ||-false (truncate_strings n v).1 (truncate_items n vs).1 h in
      ap₂ cons (truncate_strings-whole n v hit) (truncate_items-whole n vs cut)

  truncate_fields-whole :
      (n : ℕ) (fs : Fields) → (truncate_fields n fs).1 ≡ false → (truncate_fields n fs).0 ≡ fs
  truncate_fields-whole n end h = refl
  truncate_fields-whole n (field k v fs) h =
      let (hit, cut) = ||-false (truncate_strings n v).1 (truncate_fields n fs).1 h in
      ap₂ (field k) (truncate_strings-whole n v hit) (truncate_fields-whole n fs cut)
