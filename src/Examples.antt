-- ===== src/Examples.antt =====
-- Tests on concrete inputs, and each theorem with hypotheses applied at an input that meets them.
mod Toy
mod Merkle
mod AuditTrail
mod Lifecycle
mod Replay
mod Gateway
mod Federation
mod Trust
mod Ledgers
mod Routing
mod Services
mod Nodes
mod Execution
mod Sdk
