-- ===== src/Prompt.antt =====
-- services/integration-api/agent/prompt.py: the texts of the prompts. The templates are files of
-- agent/prompts, which are given as texts.
pub mod Fill
pub mod Conversation
pub mod Render
pub mod Catalog
pub mod Reports
pub mod Assemble
pub mod Bounds
