-- ===== src/Mcp.antt =====
-- The tools over the audit trail, src/mcp/.
pub mod Blocks
