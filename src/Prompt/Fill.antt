-- ===== src/Prompt/Fill.antt =====
-- `_fill`: the slots of a template, one after the other.
use stpp_connector.Base.{
  ℕ, zero, suc, ◌-◌, none, some, List, [], ◌∷◌, ◌++◌, Text, codes, strip_prefix, length,
}

-- `s.replace(old, new)` for an `old` that is not empty; `skip` counts what is left of a match.
unfoldable pub replace_from : Text → Text → ℕ → Text → Text
replace_from old new skip [] = []
replace_from old new (suc n) (c ∷ s) = replace_from old new n s
replace_from old new zero (c ∷ s) = elim (strip_prefix old (c ∷ s)) [
  | some rest ↦ new ++ replace_from old new (length old - 1) s
  | none ↦ c ∷ replace_from old new zero s
]

unfoldable pub replace : Text → Text → Text → Text
replace old new s = replace_from old new zero s

abbrev pub slot : Text → Text
slot key = codes "{{" ++ key ++ codes "}}"

unfoldable pub fill : Text → List (Text × Text) → Text
fill template [] = template
fill template ((key, value) ∷ slots) = fill (replace (slot key) value template) slots
