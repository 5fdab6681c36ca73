-- ===== src/Rfff.antt =====
-- services/mcp-server/app/rfff_tools.py: the tools over the seeded RFFF database.
pub mod Columns
pub mod Sql
pub mod Rows
pub mod Personnel
pub mod Tools
pub mod Placeholders
pub mod Values
pub mod Whitelist
