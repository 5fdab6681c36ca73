-- ===== src/Validator.antt =====
-- services/integration-api/agent/validator.py: the checks of a plan before it runs.
pub mod Violations
pub mod Graph
pub mod Args
pub mod Checks
pub mod Sound
