-- ===== src/Browser.antt =====
-- The browser of crates/local-transfer-core/src/browser.rs, up to its mDNS backend.
pub mod Key
pub mod Endpoint
pub mod Peer
pub mod State
pub mod Session
