-- ===== src/Tests.antt =====
-- Runs of the models on concrete inputs, and the theorems applied to them.
mod RefsTests
mod PlanTests
mod RunnerTests
mod ServerTests
mod JobTests
mod ToolTests
mod WireTests
mod ClientTests
