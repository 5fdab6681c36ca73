-- ===== src/Prompt/Render.antt =====
-- The blocks of the prompts on the planner context.
use stpp_connector.Base.{
  Bool, true, false, Option, none, some, List, [], ◌∷◌, ◌++◌, Text, codes, join, sorted_texts, map,
  if◌then◌else◌,
}
use stpp_connector.Json.{
  Value, Fields, str, arr, obj, nil, cons, end, get_field, lookup_key, keys, elements, truthy,
}
use stpp_connector.Prompt.Conversation.{newline}

-- `xs` of which none raises.
abbrev pub all_some : {A : Type 0} → List (Option A) → Option (List A)
all_some [] = some []
all_some (none ∷ xs) = none
all_some (some x ∷ xs) = elim (all_some xs) [ none ↦ none | some ys ↦ some (x ∷ ys) ]

-- `", ".join(bit for bit in bits if bit)`, on texts and None; joining another value raises.
unfoldable pub true_texts : List (Option Value) → Option (List Text)
true_texts [] = some []
true_texts (none ∷ bits) = true_texts bits
true_texts (some (str []) ∷ bits) = true_texts bits
true_texts (some (str (c ∷ s)) ∷ bits) = elim (true_texts bits) [
  | none ↦ none
  | some ts ↦ some ((c ∷ s) ∷ ts)
]
true_texts (some v ∷ bits) = if truthy v then none else true_texts bits

abbrev pub mark : Bool → Text → Text
mark true t = []
mark false t = t

abbrev pub is_true : Option Value → Bool
is_true none = false
is_true (some v) = truthy v

-- `shown` stands for `str`, `repr_of` for `repr`, `pretty` for `json.dumps` with an indent of 2 and
-- sorted keys, and `flat` for that with sorted keys only.
module _ (shown repr_of pretty flat : Value → Text) where
  -- `f'"{v["value"]}" ({v["row_count"]} rows…)'`
  unfoldable pub observed_value : Value → Option Text
  observed_value v = elim (lookup_key (codes "value") v) [
    | none ↦ none
    | some value ↦ elim (lookup_key (codes "row_count") v) [
      | none ↦ none
      | some n ↦ some (
          34 ∷ shown value
          ++ (34 ∷ codes " (")
          ++ shown n
          ++ codes " rows"
          ++ mark (is_true (lookup_key (codes "in_dictionary") v)) (codes ", undocumented")
          ++ codes ")")
    ]
  ]

  unfoldable pub observed_line : Option Value → Option (List Text)
  observed_line none = some []
  observed_line (some (arr nil)) = some []
  observed_line (some (arr (cons v vs))) =
      elim (all_some (map observed_value (elements (cons v vs)))) [
        | none ↦ none
        | some texts ↦ some ((codes "  observed values: " ++ join (codes ", ") texts) ∷ [])
      ]
  -- Another true value has no elements with these keys.
  observed_line (some v) = if truthy v then none else some []

  unfoldable pub description_of : Fields → Text
  description_of fs = elim (get_field (codes "description") fs) [
    | none ↦ codes "(no description)"
    | some v ↦ if truthy v then shown v else codes "(no description)"
  ]

  abbrev pub suffix_of : List Text → Text
  suffix_of [] = []
  suffix_of (t ∷ ts) = codes " (" ++ join (codes ", ") (t ∷ ts) ++ codes ")"

  unfoldable pub field_lines : Text → Value → Option (List Text)
  field_lines name (obj fs) =
      elim (true_texts
        (get_field (codes "data_type") fs ∷ get_field (codes "requirement") fs ∷ [])) [
          | none ↦ none
          | some bits ↦ elim (observed_line (get_field (codes "observed_values") fs)) [
            | none ↦ none
            | some line ↦
                some
                  ((codes "- " ++ name ++ suffix_of bits ++ codes ": " ++ description_of fs) ∷ line)
          ]
        ]
  field_lines name v = none

  unfoldable pub all_field_lines : Fields → List Text → Option (List Text)
  all_field_lines fields [] = some []
  all_field_lines fields (name ∷ names) = elim (get_field name fields) [
    | none ↦ none
    | some v ↦ elim (field_lines name v) [
      | none ↦ none
      | some lines ↦ elim (all_field_lines fields names) [
        | none ↦ none
        | some rest ↦ some (lines ++ rest)
      ]
    ]
  ]

  unfoldable pub caveat_lines : List Value → List Text
  caveat_lines [] = []
  caveat_lines (c ∷ cs) = (codes "- " ++ shown c) ∷ caveat_lines cs

  abbrev pub caveats_part : List Value → List Text
  caveats_part [] = []
  caveats_part (c ∷ cs) = [] ∷ codes "Data-quality caveats:" ∷ caveat_lines (c ∷ cs)

  -- Another value under `fields` is taken to raise, unless it is empty.
  abbrev pub fields_of : Option Value → Option Fields
  fields_of none = some end
  fields_of (some (obj fs)) = some fs
  fields_of (some (arr nil)) = some end
  fields_of (some (str [])) = some end
  fields_of (some v) = none

  abbrev pub characters : Text → List Value
  characters [] = []
  characters (c ∷ s) = str (c ∷ []) ∷ characters s

  abbrev pub key_values : List Text → List Value
  key_values [] = []
  key_values (k ∷ ks) = str k ∷ key_values ks

  -- What a loop over `caveats` goes through, if it is true.
  abbrev pub list_of : Option Value → Option (List Value)
  list_of none = some []
  list_of (some (arr vs)) = some (elements vs)
  list_of (some (str s)) = some (characters s)
  list_of (some (obj fs)) = some (key_values (keys fs))
  list_of (some v) = if truthy v then none else some []

  unfoldable pub render_planner_context : Fields → Option Text
  render_planner_context context = elim (fields_of (get_field (codes "fields") context)) [
    | none ↦ none
    | some fields ↦ elim (all_field_lines fields (sorted_texts (keys fields))) [
      | none ↦ none
      | some lines ↦ elim (list_of (get_field (codes "caveats") context)) [
        | none ↦ none
        | some caveats ↦ some (
            join newline (
              codes "Field dictionary (with values OBSERVED in the current data):"
              ∷ (lines ++ caveats_part caveats)))
      ]
    ]
  ]
