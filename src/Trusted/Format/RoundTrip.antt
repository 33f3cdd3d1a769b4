-- ===== src/Trusted/Format/RoundTrip.antt =====
-- `encode` against `decode` of trusted_peers.rs.
use local_transfer.Prelude.{
  ◌*◌, ◌≤◌, ◌<◌, ◌≡◌, ◌≢◌, refl, ap, sym, ◌∙◌, true, false, List, [], ◌∷◌, ◌++◌, map, length,
  length-map, length-append, All, All-map, All-append, arith, ok, err, le→ltb_false, if_neg, inl,
  ℕ_discrete, ltb, if◌then◌else◌,
}
use local_transfer.Prelude.Order.{pair_ord, list_ord, nat_ord}
use local_transfer.Prelude.Sort.{Sorted, Distinct, sort_by_of_Sorted}
use local_transfer.Text.{Text, Text-discrete}
use local_transfer.Text.Utf8.{as_bytes, as_bytes_ascii, from_utf8-as_bytes}
use local_transfer.Text.Decimal.{parse_canonical_u16, to_string}
use local_transfer.Text.Split.{unlines, split-join, strip_suffix-unlines, strip_prefix}
use local_transfer.Trusted.Errors.{store_too_large}
use local_transfer.Trusted.Format.{
  TrustedPeerRecord, record_line, push_records, header_line, encode, decode, decode_lines,
  parse_header, parse_records, collect, any_adjacent, identity_key, record_key, identity-discrete,
  max_trusted_peers, max_trusted_peers_store_bytes,
}
use local_transfer.Trusted.Format.Lines.{
  RecordIsValid, Typed, record-Typed, Line, record_line-Graphic, length-record_line,
  parse_record-record_line,
}

-- What a file holds: at most 128 valid records, one for each identity, in the order of identities.
pub record StoreIsValid (records : List TrustedPeerRecord) : Type 0 where
  pub sorted : Sorted record_key records
  pub distinct : Distinct record_key records
  pub few : length records ≤ max_trusted_peers
  pub valid : All RecordIsValid records

push_records-unlines :
    (records : List TrustedPeerRecord)
    → push_records records ≡ unlines b'\n' (map record_line records)
unfolding push_records unlines
push_records-unlines [] = refl
push_records-unlines (r ∷ records) =
    ap (λ t. record_line r ++ b'\n' ∷ t) (push_records-unlines records)

abbrev pub file_lines : List TrustedPeerRecord → List Text
file_lines records = map record_line records

encode_lem :
    (records : List TrustedPeerRecord)
    → encode records ≡ as_bytes (unlines b'\n' (header_line ∷ file_lines records))
unfolding encode unlines
encode_lem records = ap (λ t. as_bytes (header_line ++ b'\n' ∷ t)) (push_records-unlines records)

parse_records_lem :
    (records : List TrustedPeerRecord)
    → All RecordIsValid records
    → parse_records (file_lines records) ≡ ok records
unfolding parse_records
parse_records_lem [] v = refl
parse_records_lem (r ∷ records) v =
    rw (parse_record-record_line r v.0, parse_records_lem records v.1) refl

any_adjacent-Distinct :
    (records : List TrustedPeerRecord) → Distinct record_key records → any_adjacent records ≡ false
unfolding any_adjacent
any_adjacent-Distinct [] d = refl
any_adjacent-Distinct (a ∷ []) d = refl
any_adjacent-Distinct (a ∷ b ∷ records) d =
    rw
      (if_neg (identity-discrete a.identity b.identity) (λ e. d.0.0 (ap identity_key (sym e))) true
        false)
      (any_adjacent-Distinct (b ∷ records) d.1)

collect_lem :
    (records : List TrustedPeerRecord)
    → StoreIsValid records
    → collect records ≡ ok (record { records = records })
unfolding collect
collect_lem records v =
    rw (sort_by_of_Sorted record_key records v.sorted, any_adjacent-Distinct records v.distinct)
      refl

parse_header-header_line : parse_header header_line ≡ ok tt
unfolding parse_header strip_prefix parse_canonical_u16 to_string Text-discrete ℕ_discrete
parse_header-header_line = refl

decode_lines_lem :
    (records : List TrustedPeerRecord)
    → StoreIsValid records
    → decode_lines (header_line ∷ file_lines records) ≡ ok (record { records = records })
unfolding decode_lines
decode_lines_lem records v =
    rw
      (
        parse_header-header_line,
        length-map records record_line,
        le→ltb_false max_trusted_peers (length records) v.few,
        parse_records_lem records v.valid,
      )
      (collect_lem records v)

header_line-Line : All Line header_line
unfolding to_string
header_line-Line = omega arith

lines-Line :
    (records : List TrustedPeerRecord) → All Typed records → All (All Line) (file_lines records)
lines-Line [] v = tt
lines-Line (r ∷ records) v = (record_line-Graphic r v.0, lines-Line records v.1)

unlines-ascii :
    (lines : List Text) → All (All Line) lines → All (λ c. c < 0x80) (unlines b'\n' lines)
unfolding unlines
unlines-ascii [] h = tt
unlines-ascii (line ∷ lines) h =
    All-append (λ c. c < 0x80) line _ (All-map line (λ c g. g.1) h.0)
      (omega arith, unlines-ascii lines h.1)

length-file_lines :
    (records : List TrustedPeerRecord)
    → All RecordIsValid records
    → length (unlines b'\n' (file_lines records)) ≤ 392 * length records
unfolding unlines
length-file_lines [] v = omega arith
length-file_lines (r ∷ records) v = omega (
  arith,
  length-append (record_line r) (b'\n' ∷ unlines b'\n' (file_lines records)),
  length-record_line r v.0,
  length-file_lines records v.1,
)

file_size :
    (records : List TrustedPeerRecord)
    → StoreIsValid records
    → length (unlines b'\n' (header_line ∷ file_lines records)) ≤ max_trusted_peers_store_bytes
unfolding unlines to_string
file_size records v = omega (
  arith,
  length-append header_line (b'\n' ∷ unlines b'\n' (file_lines records)),
  length-file_lines records v.valid,
  v.few,
)

file-ascii :
    (records : List TrustedPeerRecord)
    → All Typed records
    → All (λ c. c < 0x80) (unlines b'\n' (header_line ∷ file_lines records))
file-ascii records v =
    unlines-ascii (header_line ∷ file_lines records) (header_line-Line, lines-Line records v)

all-Typed : (records : List TrustedPeerRecord) → All RecordIsValid records → All Typed records
all-Typed records v = All-map records record-Typed v

-- The file of valid records is within the store's byte budget.
pub length-encode_le :
    (records : List TrustedPeerRecord)
    → StoreIsValid records
    → length (encode records) ≤ max_trusted_peers_store_bytes
length-encode_le records v =
    rw (encode_lem records, as_bytes_ascii _ (file-ascii records (all-Typed records v.valid)))
      (file_size records v)

unbroken : (lines : List Text) → All (All Line) lines → All (All (λ c. c ≢ b'\n')) lines
unbroken lines h = All-map lines (λ line l. All-map line (λ c g. omega (arith, g)) l) h

-- Whatever the records, the lines of the file are those that were written.
pub decode-encode_lines :
    (records : List TrustedPeerRecord)
    → All Typed records
    → decode (encode records) ≡ (
        if ltb max_trusted_peers_store_bytes (length (encode records))
        then err (store_too_large (length (encode records)) max_trusted_peers_store_bytes)
        else decode_lines (header_line ∷ file_lines records))
unfolding decode
decode-encode_lines records v =
    let text = unlines b'\n' (header_line ∷ file_lines records) in
    let scalar = All-map text (λ c g. inl (omega (arith, g))) (file-ascii records v) in
    let read = from_utf8-as_bytes text scalar in
    ap
      (λ r.
        if ltb max_trusted_peers_store_bytes (length (encode records))
        then err (store_too_large (length (encode records)) max_trusted_peers_store_bytes)
        else r)
      (rw
        (
          encode_lem records,
          read,
          strip_suffix-unlines b'\n' header_line (file_lines records),
          split-join b'\n' header_line (file_lines records) (
              unbroken (header_line ∷ file_lines records) (header_line-Line, lines-Line records v)),
        )
        refl)

-- Records that are valid, at most 128, in the order of their identities and with no identity twice
-- are read back from the file that they are encoded to; a valid record has a scheme of u16, 1 to
-- 64 bytes of material, and no label or one that TrustedPeerLabel::new accepts as it is and that
-- takes at most 128 bytes.
pub decode-encode_file :
    (records : List TrustedPeerRecord)
    → StoreIsValid records
    → decode (encode records) ≡ ok (record { records = records })
decode-encode_file records v =
    decode-encode_lines records (all-Typed records v.valid)
    ∙ rw
        (le→ltb_false max_trusted_peers_store_bytes (length (encode records))
          (length-encode_le records v))
        (decode_lines_lem records v)
