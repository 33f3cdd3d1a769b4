-- ===== src/Trusted/Format.antt =====
-- The text of the store file, crates/local-transfer-core/src/trusted_peers.rs: `encode`, `decode`
-- and the parsers of a line.
pub mod Lines
pub mod LongLabel
pub mod RoundTrip
pub mod Validity
use local_transfer.Prelude.{
  ℕ, ◌*◌, Bool, true, false, ◌||◌, Option, none, some, List, [], ◌∷◌, ◌++◌, ltb, ◌==◌, not,
  if◌then◌else◌, ite, length, Bytes, Result, ok, err, ◌>>=◌, ◌>>◌, ok_or, map_err, ℕ_discrete,
}
use local_transfer.Prelude.Order.{pair_ord, list_ord, nat_ord}
use local_transfer.Prelude.Sort.{sort_by}
use local_transfer.Text.{Text, Text-discrete, codes, str_len}
use local_transfer.Text.Utf8.{as_bytes, from_utf8}
use local_transfer.Text.Decimal.{to_string, parse_canonical_u16}
use local_transfer.Text.Split.{split, strip_suffix, strip_prefix}
use local_transfer.Trusted.{
  PeerKeyIdentity, new, TrustedPeerLabel, new_label, max_peer_identity_bytes,
}
use local_transfer.Trusted.Hex.{push_hex, decode_hex}
use local_transfer.Trusted.Errors.{
  TrustedPeerStoreError, malformed, not_utf8, header, record_syntax, identity_encoding,
  identity_bounds, label_encoding, label_value, store_too_large, record_too_large,
  unsupported_version, capacity_exceeded, duplicate_identity,
}

abbrev pub max_trusted_peers : ℕ
max_trusted_peers = 128

abbrev pub max_trusted_peers_store_bytes : ℕ
max_trusted_peers_store_bytes = 64 * 1024

abbrev pub max_trusted_peer_label_bytes : ℕ
max_trusted_peer_label_bytes = 256

abbrev pub max_record_line_bytes : ℕ
max_record_line_bytes = 512

abbrev pub store_format_version : ℕ
store_format_version = 1

abbrev pub store_header : Text
store_header = codes "local-transfer-trusted-peers"

pub record TrustedPeerRecord : Type 0 where
  pub identity : PeerKeyIdentity
  pub label : Option TrustedPeerLabel

pub record TrustedPeers : Type 0 where
  pub records : List TrustedPeerRecord

abbrev pub no_peers : TrustedPeers
no_peers = record { records = [] }

-- The fields of an identity in the order of its derived `Ord`.
abbrev pub identity_key : PeerKeyIdentity → ℕ × Bytes
identity_key i = (i.scheme, i.material)

abbrev pub record_key : TrustedPeerRecord → ℕ × Bytes
record_key r = identity_key r.identity

unfoldable pub identity-discrete : Discrete PeerKeyIdentity
identity-discrete = hlevel ℕ_discrete

-- `identity_eq a b` is `a == b`.
abbrev pub identity_eq : PeerKeyIdentity → PeerKeyIdentity → Bool
identity_eq a b = ite (identity-discrete a b) true false

-- The label's field of a line.
abbrev pub label_field : Option TrustedPeerLabel → Text
label_field none = b'-' ∷ []
label_field (some l) = push_hex (as_bytes l.value)

-- A record's line, without the line's end.
unfoldable pub record_line : TrustedPeerRecord → Text
record_line r =
    to_string r.identity.scheme
    ++ b' ' ∷ (push_hex r.identity.material ++ b' ' ∷ label_field r.label)

unfoldable pub push_records : List TrustedPeerRecord → Text
unfolding record_line
push_records [] = []
push_records (r ∷ records) = record_line r ++ b'\n' ∷ push_records records

abbrev pub header_line : Text
header_line = store_header ++ codes " v" ++ to_string store_format_version

unfoldable pub encode : List TrustedPeerRecord → Bytes
unfolding push_records
encode records = as_bytes (header_line ++ b'\n' ∷ push_records records)

unfoldable pub parse_header : Text → Result TrustedPeerStoreError (Unit {0})
parse_header line = do
  rest ← ok_or (strip_prefix store_header line) (malformed header)
  version_text ← ok_or (strip_prefix (codes " v") rest) (malformed header)
  version ← ok_or (parse_canonical_u16 version_text) (malformed header)
  if not (version == store_format_version) then err (unsupported_version version) else ok tt

unfoldable pub parse_material : ℕ → Text → Result TrustedPeerStoreError PeerKeyIdentity
parse_material scheme material_hex =
    if ltb (max_peer_identity_bytes * 2) (str_len material_hex)
    then err (malformed identity_bounds)
    else (do
      material ← ok_or (decode_hex material_hex) (malformed identity_encoding)
      map_err (λ e. malformed identity_bounds) (new scheme material))

unfoldable pub parse_label : Text → Result TrustedPeerStoreError (Option TrustedPeerLabel)
parse_label label_hex = ite (Text-discrete label_hex (codes "-")) (ok none) (
    if ltb max_trusted_peer_label_bytes (str_len label_hex)
    then err (malformed label_value)
    else (do
      label_bytes ← ok_or (decode_hex label_hex) (malformed label_encoding)
      label_text ← ok_or (from_utf8 label_bytes) (malformed label_encoding)
      label ← map_err (λ e. malformed label_value) (new_label label_text)
      ok (some label)))

-- Three fields, no more and no fewer.
unfoldable pub parse_fields : List Text → Result TrustedPeerStoreError TrustedPeerRecord
unfolding parse_material parse_label
parse_fields (scheme_text ∷ material_hex ∷ label_hex ∷ []) = do
  scheme ← ok_or (parse_canonical_u16 scheme_text) (malformed record_syntax)
  identity ← parse_material scheme material_hex
  label ← parse_label label_hex
  ok (record { identity = identity; label = label })
parse_fields _ = err (malformed record_syntax)

unfoldable pub parse_record : Text → Result TrustedPeerStoreError TrustedPeerRecord
unfolding parse_fields
parse_record line =
    if ltb max_record_line_bytes (str_len line)
    then err (record_too_large (str_len line) max_record_line_bytes)
    else parse_fields (split b' ' line)

unfoldable pub parse_records : List Text → Result TrustedPeerStoreError (List TrustedPeerRecord)
unfolding parse_record
parse_records [] = ok []
parse_records (line ∷ lines) = do
  r ← parse_record line
  records ← parse_records lines
  ok (r ∷ records)

-- `windows(2).any(..)`
unfoldable pub any_adjacent : List TrustedPeerRecord → Bool
any_adjacent [] = false
any_adjacent (a ∷ []) = false
any_adjacent (a ∷ b ∷ records) = identity_eq a.identity b.identity || any_adjacent (b ∷ records)

-- What follows the loop over the lines.
unfoldable pub collect : List TrustedPeerRecord → Result TrustedPeerStoreError TrustedPeers
unfolding any_adjacent
collect parsed =
    let sorted = sort_by record_key parsed in
    if any_adjacent sorted then err duplicate_identity else ok (record { records = sorted })

unfoldable pub decode_lines : List Text → Result TrustedPeerStoreError TrustedPeers
unfolding parse_header parse_records collect
decode_lines [] = err (malformed header)
decode_lines (first ∷ record_lines) =
    parse_header first
    >> (if ltb max_trusted_peers (length record_lines)
        then err (capacity_exceeded (length record_lines) max_trusted_peers)
        else (do records ← parse_records record_lines; collect records))

unfoldable pub decode : Bytes → Result TrustedPeerStoreError TrustedPeers
unfolding decode_lines
decode bytes =
    if ltb max_trusted_peers_store_bytes (length bytes)
    then err (store_too_large (length bytes) max_trusted_peers_store_bytes)
    else (do
      text ← ok_or (from_utf8 bytes) (malformed not_utf8)
      body ← ok_or (strip_suffix b'\n' text) (malformed header)
      decode_lines (split b'\n' body))
