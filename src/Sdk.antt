-- ===== src/Sdk.antt =====
-- platform_capability_sdk.py, sdk_models.py: the client side of a capability: circuit breaker, evidence
-- chain, and the invocation through both.
pub mod Breaker
pub mod Evidence
pub mod Invocation
pub mod Manifest
