-- ===== src/Routing.antt =====
-- Execution classes, the provider registry, and the router over it.
pub mod Classes
pub mod Providers
pub mod Router
