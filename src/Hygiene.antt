-- ===== src/Hygiene.antt =====
-- services/mcp-server/app/hygiene.py: long texts and long results are cut, and the envelope of a
-- tool result says so.
pub mod Cut
pub mod Honest
use stpp_connector.Base.{
  ℕ, zero, suc, Bool, true, false, ◌||◌, List, [], ◌∷◌, ◌++◌, Text, codes, length, take, ltb,
  if◌then◌else◌,
}
use stpp_connector.Json.{Value, Items, Fields, bool, int, pos, str, arr, obj, nil, cons, end, field}

-- "…"
abbrev pub ellipsis : ℕ
ellipsis = 8230

-- The text that is kept, and whether it was cut.
unfoldable pub cut_text : ℕ → Text → Text × Bool
cut_text max_chars s =
    if ltb max_chars (length s) then (take max_chars s ++ ellipsis ∷ [], true) else (s, false)

unfoldable mutual
  pub truncate_strings : ℕ → Value → Value × Bool
  truncate_strings n (str s) = (str (cut_text n s).0, (cut_text n s).1)
  truncate_strings n (obj fs) = let (kept, cut) = truncate_fields n fs in (obj kept, cut)
  truncate_strings n (arr vs) = let (kept, cut) = truncate_items n vs in (arr kept, cut)
  truncate_strings n v = (v, false)

  pub truncate_items : ℕ → Items → Items × Bool
  truncate_items n nil = (nil, false)
  truncate_items n (cons v vs) =
      let (item, hit) = truncate_strings n v in
      let (kept, cut) = truncate_items n vs in (cons item kept, hit || cut)

  pub truncate_fields : ℕ → Fields → Fields × Bool
  truncate_fields n end = (end, false)
  truncate_fields n (field k v fs) =
      let (item, hit) = truncate_strings n v in
      let (kept, cut) = truncate_fields n fs in (field k item kept, hit || cut)

-- `rows[:max_rows]`
unfoldable pub first_items : ℕ → Items → Items
first_items zero vs = nil
first_items (suc n) nil = nil
first_items (suc n) (cons v vs) = cons v (first_items n vs)

unfoldable pub count_items : Items → ℕ
count_items nil = 0
count_items (cons v vs) = suc (count_items vs)

-- The field `rows` is the entry "data" of `{"data": data, "meta": {"total": …, "returned": …, "truncated": …}}`
pub record Envelope : Type 0 where
  pub rows : Items
  pub total : ℕ
  pub returned : ℕ
  pub truncated : Bool

-- Without `extra_meta`.
unfoldable pub envelope : Items → ℕ → ℕ → ℕ → Envelope
envelope rows total max_rows max_chars =
    let (kept, text_truncated) = truncate_items max_chars (first_items max_rows rows) in
    record {
      rows = kept;
      total = total;
      returned = count_items kept;
      truncated = text_truncated || ltb (count_items kept) total;
    }

-- The dict that `envelope` returns; `extra` is `extra_meta`, with other keys than these three.
unfoldable pub envelope_dict : Envelope → Fields → Fields
envelope_dict e extra = field (codes "data") (arr e.rows) (
    field (codes "meta")
      (obj (
        field (codes "total") (int (pos e.total)) (
          field (codes "returned") (int (pos e.returned))
            (field (codes "truncated") (bool e.truncated) extra))))
      end)
