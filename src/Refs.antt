-- ===== src/Refs.antt =====
-- services/integration-api/agent/refs.py: the `$steps` reference language.
pub mod Syntax
pub mod Find
pub mod Resolve
pub mod Calls
pub mod RoundTrip
pub mod Accepted
pub mod Places
pub mod FanOut
