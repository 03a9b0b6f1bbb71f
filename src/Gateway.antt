-- ===== src/Gateway.antt =====
-- The transmission pipeline: contracts, the rate limiter, the gateway, and the posture on a contract.
pub mod Contract
pub mod Translation
pub mod Limiter
pub mod Pipeline
pub mod Posture
