-- ===== src/Trusted/Format/LongLabel.antt =====
-- `MAX_TRUSTED_PEER_LABEL_BYTES` of trusted_peers.rs bounds the hex text of a label in
-- `parse_record`, and nothing bounds it in `encode`.
use local_transfer.Prelude.{
  ◌*◌, ◌<◌, ◌≡◌, ◌≢◌, refl, ap, sym, ◌∙◌, none, some, List, [], ◌∷◌, ◌++◌, length, All, arith, ok,
  err, ok_or, >>=-eq-ok, guard-ok, if_neg, ltb, lt→ltb, Result,
}
use local_transfer.Text.{Text, Text-discrete, IsScalar, codes, str_len}
use local_transfer.Text.Utf8.{as_bytes, as_bytes_range, length-as_bytes}
use local_transfer.Text.Decimal.{parse_canonical_u16, to_string}
use local_transfer.Trusted.{PeerKeyIdentity, TrustedPeerLabel}
use local_transfer.Trusted.Errors.{malformed, label_value}
use local_transfer.Trusted.Hex.{push_hex, str_len-push_hex}
use local_transfer.Trusted.Format.{
  TrustedPeerRecord, TrustedPeers, record_line, encode, decode, decode_lines, header_line,
  parse_label, parse_material, parse_fields, parse_record, parse_records, parse_header,
  max_trusted_peer_label_bytes, max_record_line_bytes, max_trusted_peers,
  max_trusted_peers_store_bytes,
}
use local_transfer.Trusted.Format.Lines.{Typed, split-record_line, push_hex_dash}
use local_transfer.Trusted.Format.RoundTrip.{file_lines, decode-encode_lines}

abbrev pub IsLong : TrustedPeerLabel → Type 0
IsLong l = max_trusted_peer_label_bytes < str_len l.value * 2

parse_label_long :
    (l : TrustedPeerLabel)
    → All IsScalar l.value
    → IsLong l
    → parse_label (push_hex (as_bytes l.value)) ≡ err (malformed label_value)
unfolding parse_label
parse_label_long l scalar long =
    let bytes = as_bytes l.value in
    let range = as_bytes_range l.value scalar in
    if_neg (Text-discrete (push_hex bytes) (codes "-")) (push_hex_dash bytes range) (ok none) _
    ∙ rw
        (lt→ltb max_trusted_peer_label_bytes (str_len (push_hex bytes))
          (omega (arith, long, length-as_bytes l.value, str_len-push_hex bytes range)))
        refl

err_ok : {E A : Type 0} (r : Result E A) (e : E) (a : A) → r ≡ err e → r ≢ ok a
err_ok r e a h k = cc

parse_fields_long :
    (a b c : Text) (r : TrustedPeerRecord)
    → parse_label c ≡ err (malformed label_value)
    → parse_fields (a ∷ b ∷ c ∷ []) ≢ ok r
unfolding parse_fields
parse_fields_long a b c r long h =
    let (scheme, s, h1) = >>=-eq-ok (ok_or (parse_canonical_u16 a) _) _ h in
    let (identity, m, h2) = >>=-eq-ok (parse_material scheme b) _ h1 in
    let (label, l, h3) = >>=-eq-ok (parse_label c) _ h2 in err_ok (parse_label c) _ label long l

All-at :
    {A : Type 0} (P : A → Type 0) (before : List A) (x : A) (after : List A)
    → All P (before ++ x ∷ after)
    → P x
All-at P [] x after h = h.0
All-at P (b ∷ before) x after h = All-at P before x after h.1

module _ (identity : PeerKeyIdentity) (l : TrustedPeerLabel) where
  abbrev pub labelled : TrustedPeerRecord
  labelled = record { identity = identity; label = some l }

  parse_record_long :
      Typed labelled
      → IsLong l
      → (r : TrustedPeerRecord) → parse_record (record_line labelled) ≢ ok r
  unfolding parse_record
  parse_record_long v long r h =
      let line = record_line labelled in
      let (small, h1) = guard-ok (ltb max_record_line_bytes (str_len line)) _ _ r h in
      parse_fields_long (to_string identity.scheme) (push_hex identity.material)
        (push_hex (as_bytes l.value)) r (parse_label_long l v.1 long)
        (sym (ap parse_fields (split-record_line labelled v)) ∙ h1)

  parse_records_long :
      (before after : List TrustedPeerRecord)
      → Typed labelled
      → IsLong l
      → (records : List TrustedPeerRecord)
      → parse_records (file_lines (before ++ labelled ∷ after)) ≢ ok records
  unfolding parse_records
  parse_records_long [] after v long records h =
      let (r, p, h1) = >>=-eq-ok (parse_record (record_line labelled)) _ h in
      parse_record_long v long r p
  parse_records_long (b ∷ before) after v long records h =
      let (r, p, h1) = >>=-eq-ok (parse_record (record_line b)) _ h in
      let (rest, q, h2) =
        >>=-eq-ok (parse_records (file_lines (before ++ labelled ∷ after))) _ h1 in
      parse_records_long before after v long rest q

  decode_lines_long :
      (before after : List TrustedPeerRecord)
      → Typed labelled
      → IsLong l
      → (peers : TrustedPeers)
      → decode_lines (header_line ∷ file_lines (before ++ labelled ∷ after)) ≢ ok peers
  unfolding decode_lines
  decode_lines_long before after v long peers h =
      let lines = file_lines (before ++ labelled ∷ after) in
      let (u, p, h1) = >>=-eq-ok (parse_header header_line) _ h in
      let (few, h2) = guard-ok (ltb max_trusted_peers (length lines)) _ _ peers h1 in
      let (parsed, q, h3) = >>=-eq-ok (parse_records lines) _ h2 in
      parse_records_long before after v long parsed q

  -- The encoding of records whose materials are bytes and whose labels are text does not decode to
  -- any set of trusted peers when the label of one of them takes more than 128 bytes in UTF-8.
  pub decode-encode_long :
      (before after : List TrustedPeerRecord)
      → All Typed (before ++ labelled ∷ after)
      → IsLong l
      → (peers : TrustedPeers) → decode (encode (before ++ labelled ∷ after)) ≢ ok peers
  decode-encode_long before after v long peers h =
      let records = before ++ labelled ∷ after in
      let (small, h1) =
        guard-ok (ltb max_trusted_peers_store_bytes (length (encode records))) _ _ peers
          (sym (decode-encode_lines records v) ∙ h) in
      decode_lines_long before after (All-at Typed before labelled after v) long peers h1
