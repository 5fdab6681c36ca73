-- ===== src/Runner/Reply.antt =====
-- `_parse_json`: the JSON of an LLM reply, which may stand in a markdown code fence.
use stpp_connector.Base.{
  none, some, [], ◌∷◌, Text, codes, strip_prefix, Result, if◌then◌else◌, ◌==◌,
}
use stpp_connector.Base.Strip.{lstrip, reversed, rstrip}
use stpp_connector.Json.{Value}

-- `text.split("\n", 1)[1]`, or "" where there is no line break.
unfoldable pub after_line : Text → Text
after_line [] = []
after_line (c ∷ s) = if c == 10 then s else after_line s

abbrev pub fence : Text
fence = codes "```"

-- `text.rstrip()` without a fence at its end; else the text itself.
unfoldable pub without_end : Text → Text
without_end text = elim (strip_prefix fence (reversed (rstrip text))) [
  | none ↦ text
  | some front ↦ reversed front
]

unfoldable pub unfenced : Text → Text
unfenced raw =
    let text = rstrip (lstrip raw) in
    elim (strip_prefix fence text) [ none ↦ text | some rest ↦ without_end (after_line text) ]

unfoldable pub parse_json : (Text → Result Text Value) → Text → Result Text Value
parse_json loads raw = loads (unfenced raw)
