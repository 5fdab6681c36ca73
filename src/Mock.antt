-- ===== src/Mock.antt =====
-- services/integration-api/agent/mcp_mock.py: the stand-in for the MCP server.
pub mod Rows
pub mod Canned
pub mod Session
pub mod Gate
