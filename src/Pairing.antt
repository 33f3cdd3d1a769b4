-- ===== src/Pairing.antt =====
-- The request phase of pairing, crates/local-transfer-core/src/pairing.rs.
pub mod Message
pub mod Request
pub mod Response
pub mod Exchange
