-- ===== src/Wdp.antt =====
-- services/mcp-server/app/wdpclient.py and wdp_tools.py: the tools over the WDP service.
pub mod Client
pub mod Tools
