-- ===== src/Mcp.antt =====
-- The MCP server, crates/ktsense-mcp.
pub mod Citations
pub mod Warm
pub mod Paths
pub mod Roots
pub mod Server
pub mod Tests
