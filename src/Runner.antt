-- ===== src/Runner.antt =====
-- services/integration-api/agent/runner.py: the orchestrator. It asks for a plan, executes it and
-- asks for the answer.
pub mod Reports
pub mod Effects
pub mod Reply
pub mod Attempt
pub mod Steps
pub mod Planning
pub mod Run
pub mod Costs
pub mod Budget
pub mod StepBudget
pub mod RunBudget
pub mod Query
pub mod Safety
