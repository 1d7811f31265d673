-- ===== src/Access.antt =====
-- The request controls of compilableworld_mcp.
pub mod RateLimit
pub mod Quorum
pub mod Revocation
