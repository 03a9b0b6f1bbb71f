-- ===== src/Trust.antt =====
-- Node proofs, custody chains, service certificates and their authentication.
pub mod Proof
pub mod Custody
pub mod Verified
pub mod Recorded
pub mod Certificates
pub mod Authentication
