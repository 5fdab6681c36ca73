-- ===== src/Prompt/Assemble.antt =====
-- The prompts: each one is a template with its slots filled.
use stpp_connector.Base.{ℕ, Option, none, some, List, [], ◌∷◌, ◌++◌, Text, codes, join}
use stpp_connector.Base.Numerals.{decimal}
use stpp_connector.Json.{Value, Fields}
use stpp_connector.Jobs.Body.{ChatMessage}
use stpp_connector.Prompt.Fill.{fill}
use stpp_connector.Prompt.Conversation.{newline, render_conversation_block}
use stpp_connector.Prompt.Render.{render_planner_context}
use stpp_connector.Prompt.Catalog.{render_catalog, render_tools}
use stpp_connector.Prompt.Reports.{ReportText, render_step_reports}

pub record Budgets : Type 0 where
  pub plan_max_steps : ℕ
  pub plan_max_fanout : ℕ

unfoldable pub bullets : List Text → List Text
bullets [] = []
bullets (t ∷ ts) = (codes "- " ++ t) ∷ bullets ts

-- `assemble_plan_repair_suffix`, of the violations as texts.
unfoldable pub assemble_plan_repair_suffix : List Text → Text
assemble_plan_repair_suffix violations =
    newline
    ++ newline
    ++ codes "# Validation violations"
    ++ newline
    ++ newline
    ++ codes "Your previous plan failed validation with these violations:"
    ++ newline
    ++ join newline (bullets violations)
    ++ newline
    ++ newline
    ++ codes "Return a corrected plan as a JSON document only."

abbrev pub bullets_or_none : List Text → Text
bullets_or_none [] = codes "- (none)"
bullets_or_none (t ∷ ts) = join newline (bullets (t ∷ ts))

-- `assemble_synthesis_prompt`; `template` is synthesize.md.
unfoldable pub assemble_synthesis_prompt :
    Text → ℕ → Text → Text → List ReportText → List Text → List Text → List ChatMessage → Text
assemble_synthesis_prompt template replay_chars intent query reports caveats tool_names history =
    fill template (
      (codes "conversation_block", render_conversation_block replay_chars history)
      ∷ (codes "intent", intent)
      ∷ (codes "query", query)
      ∷ (codes "step_reports_block", render_step_reports reports)
      ∷ (codes "caveats_block", bullets_or_none caveats)
      ∷ (codes "tools_block", bullets_or_none tool_names)
      ∷ [])

module _ (shown repr_of pretty flat : Value → Text) where
  -- `assemble_plan_prompt`; `template` is plan.md.
  unfoldable pub assemble_plan_prompt :
      Text
      → ℕ
      → Text
      → Fields
      → List Value
      → List Value
      → Value
      → Budgets
      → List ChatMessage
      → Option Text
  assemble_plan_prompt template replay_chars query context matches tools plan_schema budgets
        history =
      elim (render_planner_context shown repr_of pretty flat context) [
        | none ↦ none
        | some context_block ↦ elim (render_catalog shown repr_of pretty flat matches) [
          | none ↦ none
          | some catalog_block ↦ elim (render_tools shown repr_of pretty flat tools) [
            | none ↦ none
            | some tools_block ↦ some (
                fill template (
                  (codes "conversation_block", render_conversation_block replay_chars history)
                  ∷ (codes "planner_context_block", context_block)
                  ∷ (codes "catalog_block", catalog_block)
                  ∷ (codes "tools_block", tools_block)
                  ∷ (codes "plan_schema", pretty plan_schema)
                  ∷ (codes "plan_max_steps", decimal budgets.plan_max_steps)
                  ∷ (codes "plan_max_fanout", decimal budgets.plan_max_fanout)
                  ∷ (codes "query", query)
                  ∷ []))
          ]
        ]
      ]

  -- `assemble_step_repair_prompt`; `template` is repair_step.md.
  unfoldable pub assemble_step_repair_prompt :
      Text → Text → Value → Text → Text → List Value → Budgets → Option Text
  assemble_step_repair_prompt template intent failed_step error_code error_message tools budgets =
      elim (render_tools shown repr_of pretty flat tools) [
        | none ↦ none
        | some tools_block ↦ some (
            fill template (
              (codes "intent", intent)
              ∷ (codes "failed_step", pretty failed_step)
              ∷ (codes "error_code", error_code)
              ∷ (codes "error_message", error_message)
              ∷ (codes "tools_block", tools_block)
              ∷ (codes "plan_max_fanout", decimal budgets.plan_max_fanout)
              ∷ []))
      ]
