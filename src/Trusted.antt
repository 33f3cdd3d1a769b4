-- ===== src/Trusted.antt =====
-- The validated values of a trusted-peer record, crates/local-transfer-core/src/trusted_peers.rs.
pub mod Errors
pub mod Format
pub mod Hex
pub mod Lookup
pub mod Store
use local_transfer.Prelude.{ℕ, ltb, if◌then◌else◌, any, length, Bytes, Result, ok, err}
use local_transfer.Text.{Text, is_control, is_empty}
use local_transfer.Text.Trim.{trim}

abbrev pub max_peer_identity_bytes : ℕ
max_peer_identity_bytes = 64

abbrev pub max_trusted_peer_label_chars : ℕ
max_trusted_peer_label_chars = 64

pub record PeerKeyIdentity : Type 0 where
  pub scheme : ℕ
  pub material : Bytes

pub data PeerKeyIdentityError : Type 0 where
  empty : PeerKeyIdentityError
  too_large : ℕ → ℕ → PeerKeyIdentityError

unfoldable pub new : ℕ → Bytes → Result PeerKeyIdentityError PeerKeyIdentity
new scheme material =
    if is_empty material
    then err empty
    else if ltb max_peer_identity_bytes (length material)
    then err (too_large (length material) max_peer_identity_bytes)
    else ok (record { scheme = scheme; material = material })

pub record TrustedPeerLabel : Type 0 where
  pub value : Text

pub data TrustedPeerLabelError : Type 0 where
  control_character blank : TrustedPeerLabelError
  too_long : ℕ → ℕ → TrustedPeerLabelError

-- `TrustedPeerLabel::new`; `blank` is its `Empty`.
unfoldable pub new_label : Text → Result TrustedPeerLabelError TrustedPeerLabel
new_label value =
    if any is_control value
    then err control_character
    else (let normalized = trim value in
        if is_empty normalized
        then err blank
        else if ltb max_trusted_peer_label_chars (length normalized)
        then err (too_long (length normalized) max_trusted_peer_label_chars)
        else ok (record { value = normalized }))
