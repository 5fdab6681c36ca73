-- ===== src/Prompt/Reports.antt =====
-- `render_step_reports`: the steps that the synthesis sees.
use stpp_connector.Base.{
  ℕ, Bool, true, Option, none, some, List, [], ◌∷◌, ◌++◌, Text, codes, join, map,
}
use stpp_connector.Base.Numerals.{decimal}
use stpp_connector.Prompt.Conversation.{newline}

-- `StepReport`, with its texts as they are shown.
pub record ReportText : Type 0 where
  pub step_id : ℕ
  pub tool : Text
  pub status : Text
  pub summary : Option Text
  pub rows : Option ℕ
  pub truncated : Option Bool
  pub result_json : Option Text
  pub error : Option Text

abbrev pub lower_bool : Option Bool → Text
lower_bool (some true) = codes "true"
lower_bool b = codes "false"

-- A line of a text that is neither None nor empty.
abbrev pub line_if : Text → Option Text → List Text
line_if label none = []
line_if label (some []) = []
line_if label (some (c ∷ s)) = (label ++ c ∷ s) ∷ []

abbrev pub rows_line : Option ℕ → Option Bool → List Text
rows_line none truncated = []
rows_line (some n) truncated =
    (codes "rows: " ++ decimal n ++ codes " (truncated: " ++ lower_bool truncated ++ codes ")") ∷ []

abbrev pub text_or_none : Option Text → Text
text_or_none none = codes "(none)"
text_or_none (some []) = codes "(none)"
text_or_none (some (c ∷ s)) = c ∷ s

unfoldable pub report_block : ReportText → Text
report_block r = join newline (
    (codes "## Step "
      ++ decimal r.step_id
      ++ codes " — "
      ++ r.tool
      ++ codes " ["
      ++ r.status
      ++ codes "]")
    ∷ (line_if (codes "summary: ") r.summary
        ++ rows_line r.rows r.truncated
        ++ line_if (codes "error: ") r.error
        ++ ((codes "result: " ++ text_or_none r.result_json) ∷ [])))

unfoldable pub render_step_reports : List ReportText → Text
render_step_reports reports = join (newline ++ newline) (map report_block reports)
