-- ===== src/Prompt/Catalog.antt =====
-- The blocks of the prompts on the catalog and the tools.
use stpp_connector.Base.{
  Bool, false, Option, none, some, List, [], ◌∷◌, ◌++◌, Text, codes, text_eq, join, map,
  if◌then◌else◌,
}
use stpp_connector.Base.Strip.{lstrip, rstrip}
use stpp_connector.Json.{Value, Items, Fields, str, arr, obj, nil, cons, end, get_field}
use stpp_connector.Prompt.Conversation.{newline}
use stpp_connector.Prompt.Render.{all_some}

-- As in Render, `shown` is `str`, `repr_of` is `repr`, `pretty` and `flat` are two uses of
-- `json.dumps`.
module _ (shown repr_of pretty flat : Value → Text) where
  abbrev pub shown_or_none : Option Value → Text
  shown_or_none none = codes "None"
  shown_or_none (some v) = shown v

  unfoldable pub proposal_line : Fields → Option Text
  proposal_line m = elim (get_field (codes "proposal_number") m) [
    | none ↦ none
    | some number ↦ some (
        codes "- proposal "
        ++ shown number
        ++ codes ": "
        ++ (elim (get_field (codes "proposal_title") m) [
          | none ↦ codes "None"
          | some v ↦ repr_of v
        ])
        ++ codes ", submitted by "
        ++ shown_or_none (get_field (codes "submitting_entity_name") m)
        ++ codes ", fiscal year "
        ++ shown_or_none (get_field (codes "fiscal_year") m))
  ]

  -- `", ".join(values)` on a list of texts.
  unfoldable pub texts_of : Items → Option (List Text)
  texts_of nil = some []
  texts_of (cons (str t) vs) = elim (texts_of vs) [ none ↦ none | some ts ↦ some (t ∷ ts) ]
  texts_of (cons v vs) = none

  abbrev pub numbers_of : Option Value → Option (List Text)
  numbers_of none = some []
  numbers_of (some (arr vs)) = texts_of vs
  numbers_of (some v) = none

  unfoldable pub person_line : Fields → Option Text
  person_line m = elim (numbers_of (get_field (codes "proposal_numbers") m)) [
    | none ↦ none
    | some numbers ↦ elim (get_field (codes "person_orcid") m) [
      | none ↦ none
      | some orcid ↦ some (
          codes "- person "
          ++ shown_or_none (get_field (codes "name") m)
          ++ codes " (ORCID "
          ++ shown orcid
          ++ codes "), on proposals: "
          ++ join (codes ", ") numbers)
    ]
  ]

  abbrev pub has_type : Text → Fields → Bool
  has_type type m = elim (get_field (codes "type") m) [ some (str t) ↦ text_eq t type | _ ↦ false ]

  unfoldable pub catalog_line : Value → Option Text
  catalog_line (obj m) =
      if has_type (codes "proposal") m
      then proposal_line m
      else if has_type (codes "person") m
      then person_line m
      else some (codes "- " ++ flat (obj m))
  catalog_line v = none

  unfoldable pub render_catalog : List Value → Option Text
  render_catalog [] = some (codes "(no catalog entries matched this query)")
  render_catalog (m ∷ ms) = elim (all_some (map catalog_line (m ∷ ms))) [
    | none ↦ none
    | some lines ↦ some (join newline lines)
  ]

  abbrev pub description_text : Option Value → Option Text
  description_text none = some []
  description_text (some (str t)) = some (rstrip (lstrip t))
  description_text (some v) = none

  abbrev pub schema_or_empty : Option Value → Value
  schema_or_empty none = obj end
  schema_or_empty (some v) = v

  unfoldable pub tool_block : Value → Option Text
  tool_block (obj tool) = elim (get_field (codes "name") tool) [
    | none ↦ none
    | some name ↦ elim (description_text (get_field (codes "description") tool)) [
      | none ↦ none
      | some description ↦ some (
          codes "## "
          ++ shown name
          ++ newline
          ++ newline
          ++ description
          ++ newline
          ++ newline
          ++ codes "Input schema:"
          ++ newline
          ++ pretty (schema_or_empty (get_field (codes "inputSchema") tool))
          ++ newline
          ++ newline
          ++ codes "Result schema (what $steps references resolve against):"
          ++ newline
          ++ pretty (schema_or_empty (get_field (codes "outputSchema") tool)))
    ]
  ]
  tool_block v = none

  unfoldable pub render_tools : List Value → Option Text
  render_tools tools = elim (all_some (map tool_block tools)) [
    | none ↦ none
    | some blocks ↦ some (join (newline ++ newline) blocks)
  ]
