-- ===== src/Trusted/Errors.antt =====
-- `TrustedPeerStoreError` and its reasons, crates/local-transfer-core/src/trusted_peers.rs.
use local_transfer.Prelude.{ℕ}
use local_transfer.Text.{Text}
use local_transfer.FileSystem.{IoError}

pub data MalformedStoreReason : Type 0 where
  not_utf8 header record_syntax identity_encoding identity_bounds label_encoding label_value :
      MalformedStoreReason

pub data TrustedPeerStoreError : Type 0 where
  config_directory_unavailable : TrustedPeerStoreError
  invalid_store_path : Text → TrustedPeerStoreError
  io_failure : Text → Text → IoError → TrustedPeerStoreError
  not_regular_file symlink_not_allowed : Text → TrustedPeerStoreError
  store_busy : TrustedPeerStoreError
  store_too_large record_too_large : ℕ → ℕ → TrustedPeerStoreError
  unsupported_version : ℕ → TrustedPeerStoreError
  capacity_exceeded : ℕ → ℕ → TrustedPeerStoreError
  duplicate_identity : TrustedPeerStoreError
  malformed_store : MalformedStoreReason → TrustedPeerStoreError

abbrev pub malformed : MalformedStoreReason → TrustedPeerStoreError
malformed reason = malformed_store reason
