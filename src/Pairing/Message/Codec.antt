-- ===== src/Pairing/Message/Codec.antt =====
-- `PairingMessage::encode` against `PairingMessage::decode` of pairing.rs.
use local_transfer.Prelude.{
  ℕ, ◌≤◌, ◌≡◌, refl, some, [], ◌∷◌, length, get_or, take, Bytes, ok, arith, take-append, take_all,
  get_or-append, take-get_or, length-append, length-take,
}
use local_transfer.Pairing.Message.{
  UuidBytes, PairingRejectionReason, PairingMessage, request, request_accepted, request_rejected,
  encode, decode, decode_kind, to_wire, from_wire, max_pairing_message_bytes, base_message_len,
  exact_len, unspecified, busy, declined,
}

from_wire-to_wire : (r : PairingRejectionReason) → from_wire (to_wire r) ≡ some r
unfolding from_wire to_wire
from_wire-to_wire unspecified = refl
from_wire-to_wire busy = refl
from_wire-to_wire declined = refl

to_wire-from_wire : (n : ℕ) (r : PairingRejectionReason) → from_wire n ≡ some r → to_wire r ≡ n
unfolding from_wire to_wire
to_wire-from_wire n r h = ground arith

module _ {Token : Type 0} ⦃u : UuidBytes Token⦄ where
  -- Decoding the bytes that any message encodes to gives the message back.
  pub decode-encode : (m : PairingMessage Token) → decode (encode m) ≡ ok m
  unfolding encode decode decode_kind exact_len
  decode-encode (request id) =
      rw (u.length-as_bytes id, take_all 16 (u.as_bytes id) (u.length-as_bytes id))
        (rw (u.from_bytes-as_bytes id))
  decode-encode (request_accepted id) =
      rw (u.length-as_bytes id, take_all 16 (u.as_bytes id) (u.length-as_bytes id))
        (rw (u.from_bytes-as_bytes id))
  decode-encode (request_rejected id r) =
      let n = u.length-as_bytes id in
      rw
        (
          length-append (u.as_bytes id) (to_wire r ∷ []),
          n,
          take-append 16 (u.as_bytes id) (to_wire r ∷ []) n,
          get_or-append 16 (u.as_bytes id) (to_wire r) [] 0 n,
        )
        (rw (u.from_bytes-as_bytes id, from_wire-to_wire r))

  decode-ok :
      (v k : ℕ) (rest : Bytes) (m : PairingMessage Token)
      → decode (v ∷ k ∷ rest) ≡ ok m
      → (v ≡ 1) × (decode_kind (v ∷ k ∷ rest) k (u.from_bytes (take 16 rest)) ≡ ok m)
  unfolding decode
  decode-ok v k rest m h = ground arith

  encode-decode_kind :
      (k v : ℕ) (rest : Bytes) (m : PairingMessage Token)
      → decode_kind (v ∷ k ∷ rest) k (u.from_bytes (take 16 rest)) ≡ ok m
      → encode m ≡ 1 ∷ k ∷ rest
  unfolding encode decode_kind exact_len
  encode-decode_kind k v rest m h = ground (
    arith,
    u.as_bytes-from_bytes (take 16 rest),
    take_all 16 rest,
    take-get_or 16 rest 0,
    length-take 16 rest,
    to_wire-from_wire (get_or rest 16 0),
  )

  -- Bytes that decode to a message are the encoding of that message, so no message has a second
  -- encoding.
  pub encode-decode :
      (bytes : Bytes) (m : PairingMessage Token) → decode bytes ≡ ok m → encode m ≡ bytes
  unfolding encode decode decode_kind exact_len
  encode-decode [] m h = cc
  encode-decode (v ∷ []) m h = cc
  encode-decode (v ∷ k ∷ rest) m h =
      let (one, d) = decode-ok v k rest m h in rw one (encode-decode_kind k v rest m d)

  -- Every encoding has at least 18 and at most 19 bytes, the bounds that decode checks.
  pub length-encode :
      (m : PairingMessage Token)
      → (base_message_len ≤ length (encode m)) × (length (encode m) ≤ max_pairing_message_bytes)
  unfolding encode
  length-encode (request id) = omega (arith, u.length-as_bytes id)
  length-encode (request_accepted id) = omega (arith, u.length-as_bytes id)
  length-encode (request_rejected id r) =
      omega (arith, u.length-as_bytes id, length-append (u.as_bytes id) (to_wire r ∷ []))
