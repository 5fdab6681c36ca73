-- ===== src/Hygiene/Honest.antt =====
-- The envelope tells the truth about what it leaves out.
use stpp_connector.Base.{ℕ, zero, suc, ◌≤◌, ◌≡◌, refl, ap, ◌∙◌, Bool, false, ◌||◌, arith}
use stpp_connector.Json.{Items, nil, cons}
use stpp_connector.Hygiene.{truncate_items, first_items, count_items, Envelope, envelope}
use stpp_connector.Hygiene.Cut.{AreShort, truncate_items-AreShort, truncate_items-whole}

count_items-truncate : (n : ℕ) (vs : Items) → count_items (truncate_items n vs).0 ≡ count_items vs
unfolding truncate_items count_items
count_items-truncate n nil = refl
count_items-truncate n (cons v vs) = ap suc (count_items-truncate n vs)

count_items-first : (n : ℕ) (vs : Items) → count_items (first_items n vs) ≤ n
unfolding first_items count_items
count_items-first zero vs = omega arith
count_items-first (suc n) nil = omega arith
count_items-first (suc n) (cons v vs) = omega (arith, count_items-first n vs)

first_items-whole :
    (n : ℕ) (vs : Items) → count_items vs ≤ count_items (first_items n vs) → first_items n vs ≡ vs
unfolding first_items count_items
first_items-whole zero nil h = refl
first_items-whole zero (cons v vs) h = ground arith
first_items-whole (suc n) nil h = refl
first_items-whole (suc n) (cons v vs) h = ap (cons v) (first_items-whole n vs (omega arith))

-- At most `max_rows` rows, as many as `returned` says, with no long text.
pub record IsHonest (rows : Items) (max_rows max_chars : ℕ) (e : Envelope) : Type 0 where
  pub counted : e.returned ≡ count_items e.rows
  pub capped : e.returned ≤ max_rows
  pub short : AreShort (suc max_chars) e.rows
  -- `truncated` is false only where nothing is left out.
  pub complete : e.truncated ≡ false → (e.rows ≡ rows) × (e.returned ≡ e.total)

||-false : (a b : Bool) → (a || b) ≡ false → (a ≡ false) × (b ≡ false)
||-false a b h = ground arith

-- Where the total is at least the number of the rows at hand, the envelope is honest: it returns
-- at most `max_rows` rows, counted right and without long texts, and `truncated` is false only if
-- the data is all the rows, unchanged, and the total is their number.
pub envelope-IsHonest :
    (rows : Items) (total max_rows max_chars : ℕ)
    → count_items rows ≤ total
    → IsHonest rows max_rows max_chars (envelope rows total max_rows max_chars)
unfolding envelope
envelope-IsHonest rows total max_rows max_chars h =
    let kept = first_items max_rows rows in
    let same = count_items-truncate max_chars kept in
    record {
      counted = refl;
      capped = omega (arith, same, count_items-first max_rows rows);
      short = truncate_items-AreShort max_chars kept;
      complete = λ e.
          let (text, more) = ||-false (truncate_items max_chars kept).1 _ e in
          let all : first_items max_rows rows ≡ rows =
            first_items-whole max_rows rows (ground (arith, same)) in
          (
            truncate_items-whole max_chars kept text ∙ all,
            ground (arith, same, ap count_items all),
          );
    }
