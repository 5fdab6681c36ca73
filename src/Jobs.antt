-- ===== src/Jobs.antt =====
-- The jobs of the integration API: services/integration-api/app/main.py and jobstore.py.
pub mod Body
pub mod Run
pub mod Order
pub mod Prefix
pub mod Goes
pub mod Ends
pub mod Store
pub mod Summary
pub mod Rows
pub mod View
pub mod Turns
pub mod Accepted
