-- ===== src/Replay.antt =====
-- Replay protection: the in-memory enforcer, the persistent registry, and the authority over it.
pub mod Enforcer
pub mod Registry
pub mod Authority
