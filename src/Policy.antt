-- ===== src/Policy.antt =====
-- The policy engine, src/policy/mod.rs and src/policy/memory.rs.
pub mod Types
pub mod Meta
pub mod Describe
pub mod Messages
pub mod Gates
pub mod Public
pub mod Tags
pub mod Evaluate
pub mod Memory
