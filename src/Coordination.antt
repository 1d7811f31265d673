-- ===== src/Coordination.antt =====
-- The coordination of hosts: src/compilableworld_mcp/runtime_*.py.
pub mod Lease
pub mod Ownership
