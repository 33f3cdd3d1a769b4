-- ===== src/Pairing/Message.antt =====
-- The bounded wire messages of crates/local-transfer-core/src/pairing.rs and their codec.
-- The attempt identifier wraps a `uuid::Uuid`; what the codec relies on of it is `UuidBytes`.
pub mod Codec
use local_transfer.Prelude.{
  ℕ, ◌+◌, ◌≡◌, Bool, true, false, not, ◌||◌, Option, none, some, List, [], ◌∷◌, ◌++◌, ltb, ◌==◌,
  if◌then◌else◌, length, get_or, take, drop, Bytes, Result, ok, err, ◌>>=◌, ◌>>◌, ok_or,
}

-- A `Uuid` is sixteen bytes and compares by them (the documented `from_bytes` and `as_bytes`).
pub record UuidBytes (Token : Type 0) : Type 0 where
  pub from_bytes : Bytes → Token
  pub as_bytes : Token → Bytes
  pub eq_id : Discrete Token
  pub length-as_bytes : (i : Token) → length (as_bytes i) ≡ 16
  pub from_bytes-as_bytes : (i : Token) → from_bytes (as_bytes i) ≡ i
  pub as_bytes-from_bytes : (b : Bytes) → length b ≡ 16 → as_bytes (from_bytes b) ≡ b

abbrev pub pairing_protocol_version : ℕ
pairing_protocol_version = 1

abbrev pub version_offset : ℕ
version_offset = 0

abbrev pub kind_offset : ℕ
kind_offset = 1

abbrev pub attempt_id_offset : ℕ
attempt_id_offset = 2

abbrev pub attempt_id_len : ℕ
attempt_id_len = 16

abbrev pub reason_offset : ℕ
reason_offset = attempt_id_offset + attempt_id_len

abbrev pub base_message_len : ℕ
base_message_len = attempt_id_offset + attempt_id_len

abbrev pub rejected_message_len : ℕ
rejected_message_len = base_message_len + 1

abbrev pub max_pairing_message_bytes : ℕ
max_pairing_message_bytes = rejected_message_len

abbrev pub kind_request : ℕ
kind_request = 1

abbrev pub kind_request_accepted : ℕ
kind_request_accepted = 2

abbrev pub kind_request_rejected : ℕ
kind_request_rejected = 3

abbrev pub reason_unspecified : ℕ
reason_unspecified = 0

abbrev pub reason_busy : ℕ
reason_busy = 1

abbrev pub reason_declined : ℕ
reason_declined = 2

pub data PairingRejectionReason : Type 0 where
  unspecified busy declined : PairingRejectionReason

unfoldable pub to_wire : PairingRejectionReason → ℕ
to_wire unspecified = reason_unspecified
to_wire busy = reason_busy
to_wire declined = reason_declined

unfoldable pub from_wire : ℕ → Option PairingRejectionReason
from_wire value =
    if value == reason_unspecified
    then some unspecified
    else if value == reason_busy
    then some busy
    else if value == reason_declined
    then some declined
    else none

pub data PairingMessage (Token : Type 0) : Type 0 where
  request : Token → PairingMessage Token
  request_accepted : Token → PairingMessage Token
  request_rejected : Token → PairingRejectionReason → PairingMessage Token

pub data PairingMessageError : Type 0 where
  invalid_length : ℕ → PairingMessageError
  unsupported_version : ℕ → PairingMessageError
  unknown_message_kind : ℕ → PairingMessageError
  unknown_rejection_reason : ℕ → PairingMessageError
  length_kind_mismatch : ℕ → ℕ → PairingMessageError

-- `PairingMessage::attempt_id`
abbrev pub message_attempt_id : {Token : Type 0} → PairingMessage Token → Token
message_attempt_id (request id) = id
message_attempt_id (request_accepted id) = id
message_attempt_id (request_rejected id reason) = id

unfoldable pub exact_len : Bytes → ℕ → ℕ → Result PairingMessageError (Unit {0})
exact_len bytes expected kind =
    if length bytes == expected then ok tt else err (length_kind_mismatch kind (length bytes))

module _ {Token : Type 0} ⦃u : UuidBytes Token⦄ where
  unfoldable pub encode : PairingMessage Token → Bytes
  unfolding to_wire
  encode (request id) = pairing_protocol_version ∷ kind_request ∷ u.as_bytes id
  encode (request_accepted id) = pairing_protocol_version ∷ kind_request_accepted ∷ u.as_bytes id
  encode (request_rejected id reason) =
      pairing_protocol_version ∷ kind_request_rejected ∷ (u.as_bytes id ++ to_wire reason ∷ [])

  -- The `match kind` at the end of `decode`.
  unfoldable pub decode_kind : Bytes → ℕ → Token → Result PairingMessageError (PairingMessage Token)
  unfolding exact_len from_wire
  decode_kind bytes kind attempt_id =
      if kind == kind_request
      then (do exact_len bytes base_message_len kind; ok (request attempt_id))
      else if kind == kind_request_accepted
      then (do exact_len bytes base_message_len kind; ok (request_accepted attempt_id))
      else if kind == kind_request_rejected
      then (do
        exact_len bytes rejected_message_len kind
        let raw = get_or bytes reason_offset 0
        reason ← ok_or (from_wire raw) (unknown_rejection_reason raw)
        ok (request_rejected attempt_id reason))
      else err (unknown_message_kind kind)

  unfoldable pub decode : Bytes → Result PairingMessageError (PairingMessage Token)
  unfolding decode_kind
  decode bytes =
      if ltb (length bytes) base_message_len || ltb max_pairing_message_bytes (length bytes)
      then err (invalid_length (length bytes))
      else (let version = get_or bytes version_offset 0 in
          if not (version == pairing_protocol_version)
          then err (unsupported_version version)
          else decode_kind bytes (get_or bytes kind_offset 0)
              (u.from_bytes (take attempt_id_len (drop attempt_id_offset bytes))))
