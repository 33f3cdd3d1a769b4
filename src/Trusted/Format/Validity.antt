-- ===== src/Trusted/Format/Validity.antt =====
-- What `decode` of trusted_peers.rs lets through.
use local_transfer.Prelude.{
  one_result, ℕ, ◌*◌, ◌≤◌, ◌<◌, ◌≡◌, ◌≢◌, refl, ap, sym, ◌∙◌, false, true, Option, none, some, List,
  [], ◌∷◌, length, Bytes, All, arith, ok, ok_or, map_err, >>=-eq-ok, ◌||◌, subst, if_pos, if_neg,
  ltb, ok_or-ok, map_err-ok, guard-ok, suc, Bool,
}
use local_transfer.Prelude.Order.{pair_ord, list_ord, nat_ord, pair_le?, pair_antisymm}
use local_transfer.Prelude.Sort.{
  Sorted, Distinct, sort_by, sort_by-Sorted, All-sort_by, length-sort_by,
}
use local_transfer.Text.{Text, Text-discrete, IsScalar, is_control, codes, str_len}
use local_transfer.Text.Trim.{trim, trim-trim, any-trim, All-trim, str_len-trim}
use local_transfer.Text.Utf8.{from_utf8}
use local_transfer.Text.Utf8.Valid.{from_utf8-IsScalar, from_utf8-str_len}
use local_transfer.Text.Decimal.{parse_canonical_u16, parse_canonical_u16-le}
use local_transfer.Text.Split.{split, strip_suffix}
use local_transfer.Trusted.{PeerKeyIdentity, new, TrustedPeerLabel, new_label}
use local_transfer.Trusted.Hex.{decode_hex, decode_hex-bytes, push_hex-decode_hex, str_len-push_hex}
use local_transfer.Trusted.Format.{
  TrustedPeerRecord, TrustedPeers, parse_material, parse_label, parse_fields, parse_record,
  parse_records, parse_header, collect, any_adjacent, decode_lines, encode, decode, record_key,
  identity_eq, identity-discrete, max_record_line_bytes, max_trusted_peers_store_bytes,
  max_trusted_peers, max_trusted_peer_label_bytes,
}
use local_transfer.Trusted.Format.Lines.{RecordIsValid, LabelIsValid}
use local_transfer.Trusted.Format.RoundTrip.{StoreIsValid, decode-encode_file}

-- An identity that was built from parts is those parts.
new-eq_ok :
    (scheme : ℕ) (material : Bytes) (i : PeerKeyIdentity)
    → new scheme material ≡ ok i
    → record { scheme = scheme; material = material } ≡ i
unfolding new
new-eq_ok scheme material i h = ground arith

parse_material-ok :
    (scheme : ℕ) (hex : Text) (i : PeerKeyIdentity)
    → parse_material scheme hex ≡ ok i
    → (i.scheme ≡ scheme) × All (λ b. b < 256) i.material × (new i.scheme i.material ≡ ok i)
unfolding parse_material
parse_material-ok scheme hex i h =
    let (small, h1) = guard-ok (ltb 128 (str_len hex)) _ _ i h in
    let (material, d, h2) = >>=-eq-ok (ok_or (decode_hex hex) _) _ h1 in
    let n = map_err-ok _ (new scheme material) i h2 in
    let e = new-eq_ok scheme material i n in
    let range = decode_hex-bytes hex material (ok_or-ok (decode_hex hex) _ material d) in
    (
      ap (λ j. j.scheme) (sym e),
      subst (λ j. All (λ b. b < 256) j.material) e range,
      ap (λ j. new j.scheme j.material) (sym e) ∙ n,
    )

-- A label that was accepted is accepted as it is.
new_label_again :
    (s : Text) (l : TrustedPeerLabel)
    → new_label s ≡ ok l
    → (trim s ≡ l.value) × (new_label l.value ≡ ok l)
unfolding new_label
new_label_again s l h = (ground arith, ground (arith, any-trim is_control s, trim-trim s))

accepted_label :
    (s : Text) (l : TrustedPeerLabel)
    → All IsScalar s
    → str_len s * 2 ≤ max_trusted_peer_label_bytes
    → new_label s ≡ ok l
    → LabelIsValid (some l)
accepted_label s l scalar short h =
    let (e, again) = new_label_again s l h in
    (
      subst (All IsScalar) e (All-trim IsScalar s scalar),
      again,
      omega (arith, str_len-trim s, ap str_len e),
    )

hex_length :
    (hex : Text) (bytes : Bytes) → decode_hex hex ≡ some bytes → str_len hex ≡ 2 * length bytes
hex_length hex bytes h =
    ap str_len (sym (push_hex-decode_hex hex bytes h))
    ∙ str_len-push_hex bytes (decode_hex-bytes hex bytes h)

ltb_false→le : (a b : ℕ) → ltb a b ≡ false → b ≤ a
ltb_false→le a b h = ground arith

parse_label-ok :
    (hex : Text) (l : Option TrustedPeerLabel) → parse_label hex ≡ ok l → LabelIsValid l
unfolding parse_label
parse_label-ok hex none h = tt
parse_label-ok hex (some l) h = elim (Text-discrete hex (codes "-")) [
  | yes e ↦
      subst LabelIsValid
        (one_result (parse_label hex) none (some l) (if_pos (Text-discrete hex (codes "-")) e _ _)
          h)
        tt
  | no n ↦
      let h0 = sym (if_neg (Text-discrete hex (codes "-")) n _ _) ∙ h in
      let (small, h1) = guard-ok (ltb max_trusted_peer_label_bytes (str_len hex)) _ _ (some l) h0 in
      let (bytes, d, h2) = >>=-eq-ok (ok_or (decode_hex hex) _) _ h1 in
      let (text, u, h3) = >>=-eq-ok (ok_or (from_utf8 bytes) _) _ h2 in
      let (label, a, h4) = >>=-eq-ok (map_err _ (new_label text)) _ h3 in
      let t = ok_or-ok (from_utf8 bytes) _ text u in
      let size = hex_length hex bytes (ok_or-ok (decode_hex hex) _ bytes d) in
      subst LabelIsValid (one_result _ (some label) (some l) refl h4) (
        accepted_label text label (from_utf8-IsScalar bytes text t)
          (omega (arith, from_utf8-str_len bytes text t, ltb_false→le _ _ small, size))
          (map_err-ok _ (new_label text) label a))
]

parse_fields-ok :
    (a b c : Text) (r : TrustedPeerRecord) → parse_fields (a ∷ b ∷ c ∷ []) ≡ ok r → RecordIsValid r
unfolding parse_fields
parse_fields-ok a b c r h =
    let (scheme, s, h1) = >>=-eq-ok (ok_or (parse_canonical_u16 a) _) _ h in
    let (identity, m, h2) = >>=-eq-ok (parse_material scheme b) _ h1 in
    let (label, l, h3) = >>=-eq-ok (parse_label c) _ h2 in
    let (same, bytes, accepted) = parse_material-ok scheme b identity m in
    let narrow = parse_canonical_u16-le a scheme (ok_or-ok (parse_canonical_u16 a) _ scheme s) in
    let built : RecordIsValid (record { identity = identity; label = label }) = record {
      narrow = rw same narrow;
      bytes = bytes;
      accepted = accepted;
      labelled = parse_label-ok c label l;
    } in
    subst RecordIsValid (one_result _ _ r refl h3) built

fields-IsValid :
    (fields : List Text) (r : TrustedPeerRecord) → parse_fields fields ≡ ok r → RecordIsValid r
unfolding parse_fields
fields-IsValid [] r h = cc
fields-IsValid (a ∷ []) r h = cc
fields-IsValid (a ∷ b ∷ []) r h = cc
fields-IsValid (a ∷ b ∷ c ∷ []) r h = parse_fields-ok a b c r h
fields-IsValid (a ∷ b ∷ c ∷ d ∷ fields) r h = cc

parse_record-IsValid :
    (line : Text) (r : TrustedPeerRecord) → parse_record line ≡ ok r → RecordIsValid r
unfolding parse_record
parse_record-IsValid line r h =
    fields-IsValid (split b' ' line) r
      (guard-ok (ltb max_record_line_bytes (str_len line)) _ (parse_fields (split b' ' line)) r h).1

parse_records-IsValid :
    (lines : List Text) (records : List TrustedPeerRecord)
    → parse_records lines ≡ ok records
    → All RecordIsValid records × (length records ≡ length lines)
unfolding parse_records
parse_records-IsValid [] records h =
    subst (λ rs. All RecordIsValid rs × (length rs ≡ 0)) (one_result _ [] records refl h) (tt, refl)
parse_records-IsValid (line ∷ lines) records h =
    let (r, p, h1) = >>=-eq-ok (parse_record line) _ h in
    let (rest, q, h2) = >>=-eq-ok (parse_records lines) _ h1 in
    let (valid, size) = parse_records-IsValid lines rest q in
    subst (λ rs. All RecordIsValid rs × (length rs ≡ suc (length lines)))
      (one_result _ (r ∷ rest) records refl h2)
      ((parse_record-IsValid line r p, valid), ap suc size)

true-false : true ≡ false → ⊥
true-false h = cc

abbrev KeyLe : TrustedPeerRecord → TrustedPeerRecord → Type 0
KeyLe a b = pair_le? (record_key a) (record_key b) ≡ true

same_identity : (a b : TrustedPeerRecord) → record_key a ≡ record_key b → a.identity ≡ b.identity
same_identity a b e = ap (λ k. record { scheme = k.0; material = k.1 }) e

none_equal :
    (a b : TrustedPeerRecord) (rest : Bool)
    → (identity_eq a.identity b.identity || rest) ≡ false
    → (a.identity ≢ b.identity) × (rest ≡ false)
none_equal a b rest h = elim (identity-discrete a.identity b.identity) [
  | yes e ↦
      absurd (true-false (rw (if_pos (identity-discrete a.identity b.identity) e true false) at h))
  | no n ↦ (n, rw (if_neg (identity-discrete a.identity b.identity) n true false) at h)
]

-- The keys of a sorted run after two that differ are above the first.
apart_from_first :
    (a b : TrustedPeerRecord) (records : List TrustedPeerRecord)
    → a.identity ≢ b.identity
    → KeyLe a b
    → All (KeyLe b) records
    → All (λ y. record_key y ≢ record_key a) records
apart_from_first a b [] n h s = tt
apart_from_first a b (y ∷ records) n h s = (
  λ e. n (
      same_identity a b (
        pair_antisymm (record_key a) (record_key b) h
          (subst (λ k. pair_le? (record_key b) k ≡ true) e s.0))),
  apart_from_first a b records n h s.1,
)

any_adjacent-false :
    (records : List TrustedPeerRecord)
    → Sorted record_key records
    → any_adjacent records ≡ false
    → Distinct record_key records
unfolding any_adjacent
any_adjacent-false [] s h = tt
any_adjacent-false (a ∷ []) s h = (tt, tt)
any_adjacent-false (a ∷ b ∷ records) s h =
    let (n, rest) = none_equal a b _ h in
    (
      (λ e. n (same_identity a b (sym e)), apart_from_first a b records n s.0.0 s.1.0),
      any_adjacent-false (b ∷ records) s.1 rest,
    )

collect-IsValid :
    (parsed : List TrustedPeerRecord) (peers : TrustedPeers)
    → All RecordIsValid parsed
    → length parsed ≤ max_trusted_peers
    → collect parsed ≡ ok peers
    → StoreIsValid peers.records
unfolding collect
collect-IsValid parsed peers v few h =
    let sorted = sort_by record_key parsed in
    let order = sort_by-Sorted record_key parsed in
    let (apart, e) = guard-ok (any_adjacent sorted) _ _ peers h in
    subst (λ p. StoreIsValid p.records) (one_result _ _ peers refl e)
      (record {
        sorted = order;
        distinct = any_adjacent-false sorted order apart;
        few = omega (arith, few, length-sort_by record_key parsed);
        valid = All-sort_by record_key RecordIsValid parsed v;
      })

decode_lines-IsValid :
    (lines : List Text) (peers : TrustedPeers)
    → decode_lines lines ≡ ok peers
    → StoreIsValid peers.records
unfolding decode_lines
decode_lines-IsValid [] peers h = cc
decode_lines-IsValid (first ∷ lines) peers h =
    let (u, p, h1) = >>=-eq-ok (parse_header first) _ h in
    let (few, h2) = guard-ok (ltb max_trusted_peers (length lines)) _ _ peers h1 in
    let (parsed, q, h3) = >>=-eq-ok (parse_records lines) _ h2 in
    let (valid, size) = parse_records-IsValid lines parsed q in
    collect-IsValid parsed peers valid (omega (arith, ltb_false→le _ _ few, size)) h3

-- Whatever bytes decode to a set of trusted peers, the set is in the order of its identities, has
-- no identity twice, at most 128 records, and each record valid, its label of at most 128 bytes.
pub decode-IsValid :
    (bytes : Bytes) (peers : TrustedPeers) → decode bytes ≡ ok peers → StoreIsValid peers.records
unfolding decode
decode-IsValid bytes peers h =
    let (small, h1) = guard-ok (ltb max_trusted_peers_store_bytes (length bytes)) _ _ peers h in
    let (text, t, h2) = >>=-eq-ok (ok_or (from_utf8 bytes) _) _ h1 in
    let (body, b, h3) = >>=-eq-ok (ok_or (strip_suffix b'\n' text) _) _ h2 in
    decode_lines-IsValid (split b'\n' body) peers h3

pub decode-encode-decode :
    (bytes : Bytes) (peers : TrustedPeers)
    → decode bytes ≡ ok peers
    → decode (encode peers.records) ≡ ok peers
decode-encode-decode bytes peers h = decode-encode_file peers.records (decode-IsValid bytes peers h)
