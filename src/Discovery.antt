-- ===== src/Discovery.antt =====
-- The advertised metadata, crates/local-transfer-core/src/discovery.rs.
pub mod Range
pub mod NameHint
pub mod Metadata
