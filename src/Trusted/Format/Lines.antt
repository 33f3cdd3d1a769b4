-- ===== src/Trusted/Format/Lines.antt =====
-- `parse_record` of trusted_peers.rs on the line that `encode` writes for a record.
use local_transfer.Prelude.{
  ℕ, ◌*◌, ◌≤◌, ◌<◌, ◌≡◌, ◌≢◌, refl, ap, sym, ◌∙◌, ite_same, Option, none, some, [], ◌∷◌, ◌++◌,
  length, Bytes, All, All-map, All-append, arith, ok, le→ltb_false, if_neg, length-append,
}
use local_transfer.Text.{Text, Text-discrete, IsScalar, codes, str_len, len_utf8}
use local_transfer.Text.Trim.{trim}
use local_transfer.Text.Utf8.{
  as_bytes, encode_char, from_utf8-as_bytes, as_bytes_range, length-as_bytes, str_len_ascii,
}
use local_transfer.Text.Decimal.{
  to_string, to_string_digits, length-to_string, u16_max, parse_canonical_u16-to_string,
}
use local_transfer.Text.Split.{split, split-append, split_whole}
use local_transfer.Trusted.{
  PeerKeyIdentity, new, TrustedPeerLabel, new_label, max_peer_identity_bytes,
}
use local_transfer.Trusted.Hex.{
  push_hex, push_hex_range, length-push_hex, str_len-push_hex, decode_hex-push_hex,
}
use local_transfer.Trusted.Format.{
  TrustedPeerRecord, record_line, label_field, parse_material, parse_label, parse_fields,
  parse_record, max_trusted_peer_label_bytes, max_record_line_bytes,
}

-- A label that `TrustedPeerLabel::new` gives back as it is; its text in UTF-8 has at most 128
-- bytes, so that its hex text is within the bound of the reader.
abbrev pub LabelIsValid : Option TrustedPeerLabel → Type 0
LabelIsValid none = Unit
LabelIsValid (some l) =
    All IsScalar l.value
    × (new_label l.value ≡ ok l)
    × (str_len l.value * 2 ≤ max_trusted_peer_label_bytes)

pub record RecordIsValid (r : TrustedPeerRecord) : Type 0 where
  pub narrow : r.identity.scheme ≤ u16_max
  pub bytes : All (λ b. b < 256) r.identity.material
  pub accepted : new r.identity.scheme r.identity.material ≡ ok r.identity
  pub labelled : LabelIsValid r.label

-- A label is text.
abbrev pub LabelIsText : Option TrustedPeerLabel → Type 0
LabelIsText none = Unit
LabelIsText (some l) = All IsScalar l.value

-- What the types of a record's fields ensure: the material is bytes, the label is text.
abbrev pub Typed : TrustedPeerRecord → Type 0
Typed r = All (λ b. b < 256) r.identity.material × LabelIsText r.label

label-text : (l : Option TrustedPeerLabel) → LabelIsValid l → LabelIsText l
label-text none v = tt
label-text (some l) v = v.0

pub record-Typed : (r : TrustedPeerRecord) → RecordIsValid r → Typed r
record-Typed r v = (v.bytes, label-text r.label v.labelled)

-- What stands in a field: no control character, no space, only ASCII.
abbrev Graphic : ℕ → Type 0
Graphic c = (b'-' ≤ c) × (c < 0x80)

-- What stands in a line.
abbrev pub Line : ℕ → Type 0
Line c = (b' ' ≤ c) × (c < 0x80)

push_hex-Graphic : (s : Text) → All (λ b. b < 256) s → All Graphic (push_hex s)
push_hex-Graphic s h = All-map (push_hex s) (λ c r. omega (arith, r)) (push_hex_range s h)

to_string-Graphic : (n : ℕ) → All Graphic (to_string n)
to_string-Graphic n = All-map (to_string n) (λ c r. omega (arith, r)) (to_string_digits n)

label_field-Graphic : (l : Option TrustedPeerLabel) → LabelIsText l → All Graphic (label_field l)
label_field-Graphic none v = omega arith
label_field-Graphic (some l) v = push_hex-Graphic (as_bytes l.value) (as_bytes_range l.value v)

unspaced : (s : Text) → All Graphic s → All (λ c. c ≢ b' ') s
unspaced s h = All-map s (λ c g. omega (arith, g)) h

pub split-record_line :
    (r : TrustedPeerRecord)
    → Typed r
    → split b' ' (record_line r)
      ≡ to_string r.identity.scheme ∷ push_hex r.identity.material ∷ label_field r.label ∷ []
unfolding record_line
split-record_line r v =
    let scheme = to_string r.identity.scheme in
    let material = push_hex r.identity.material in
    let last = label_field r.label in
    split-append b' ' scheme (material ++ b' ' ∷ last)
      (unspaced scheme (to_string-Graphic r.identity.scheme))
    ∙ ap (◌∷◌ scheme) (
        split-append b' ' material last
          (unspaced material (push_hex-Graphic r.identity.material v.0))
        ∙ ap (◌∷◌ material)
            (split_whole b' ' last (unspaced last (label_field-Graphic r.label v.1))))

new_nil : (scheme : ℕ) (i : PeerKeyIdentity) → new scheme [] ≢ ok i
unfolding new
new_nil scheme i h = cc

-- What `PeerKeyIdentity::new` accepts is not empty and not too long.
pub new-length :
    (i : PeerKeyIdentity)
    → new i.scheme i.material ≡ ok i
    → (i.material ≢ []) × (length i.material ≤ max_peer_identity_bytes)
unfolding new
new-length i h = (λ e. new_nil i.scheme i (ap (new i.scheme) (sym e) ∙ h), ground arith)

parse_material_lem :
    (i : PeerKeyIdentity)
    → All (λ b. b < 256) i.material
    → new i.scheme i.material ≡ ok i
    → parse_material i.scheme (push_hex i.material) ≡ ok i
unfolding parse_material
parse_material_lem i b a =
    let (full, short) = new-length i a in
    rw
      (
        le→ltb_false (max_peer_identity_bytes * 2) (str_len (push_hex i.material))
            (omega (arith, str_len-push_hex i.material b)),
        decode_hex-push_hex i.material full b,
        a,
      )
      refl

as_bytes_full : (c : ℕ) (s : Text) → as_bytes (c ∷ s) ≢ []
unfolding as_bytes encode_char
as_bytes_full c s = ground arith

new_label_nil : (l : TrustedPeerLabel) → new_label [] ≡ ok l → ⊥
unfolding new_label trim
new_label_nil l h = cc

label_full : (s : Text) (l : TrustedPeerLabel) → new_label s ≡ ok l → as_bytes s ≢ []
label_full [] l h = absurd (new_label_nil l h)
label_full (c ∷ s) l h = as_bytes_full c s

-- Hex text of bytes is not `-`, whose length is odd.
pub push_hex_dash : (bytes : Bytes) → All (λ b. b < 256) bytes → push_hex bytes ≢ codes "-"
unfolding str_len len_utf8
push_hex_dash bytes h e = omega (arith, str_len-push_hex bytes h, ap str_len e)

parse_label-some :
    (l : TrustedPeerLabel)
    → LabelIsValid (some l)
    → parse_label (push_hex (as_bytes l.value)) ≡ ok (some l)
unfolding parse_label
parse_label-some l (scalar, accepted, short) =
    let bytes = as_bytes l.value in
    let range = as_bytes_range l.value scalar in
    if_neg (Text-discrete (push_hex bytes) (codes "-")) (push_hex_dash bytes range) (ok none) _
    ∙ rw
        (
          le→ltb_false max_trusted_peer_label_bytes (str_len (push_hex bytes))
              (omega (arith, short, length-as_bytes l.value, str_len-push_hex bytes range)),
          decode_hex-push_hex bytes (label_full l.value l accepted) range,
          from_utf8-as_bytes l.value scalar,
          accepted,
        )
        refl

parse_label_lem :
    (l : Option TrustedPeerLabel) → LabelIsValid l → parse_label (label_field l) ≡ ok l
unfolding parse_label
parse_label_lem none v = ite_same Text-discrete (codes "-") (ok none) _
parse_label_lem (some l) v = parse_label-some l v

parse_fields_lem :
    (r : TrustedPeerRecord)
    → RecordIsValid r
    → parse_fields
        (to_string r.identity.scheme ∷ push_hex r.identity.material ∷ label_field r.label ∷ [])
      ≡ ok r
unfolding parse_fields
parse_fields_lem r v =
    rw
      (
        parse_canonical_u16-to_string r.identity.scheme v.narrow,
        parse_material_lem r.identity v.bytes v.accepted,
        parse_label_lem r.label v.labelled,
      )
      refl

-- What `encode` writes for a record is ASCII.
pub record_line-Graphic : (r : TrustedPeerRecord) → Typed r → All Line (record_line r)
unfolding record_line
record_line-Graphic r v =
    All-append Line (to_string r.identity.scheme) _
      (All-map (to_string r.identity.scheme) (λ c g. omega (arith, g))
        (to_string_digits r.identity.scheme))
      (
        omega arith,
        All-append Line (push_hex r.identity.material) _
            (All-map (push_hex r.identity.material) (λ c g. omega (arith, g))
              (push_hex-Graphic r.identity.material v.0))
            (
              omega arith,
              All-map (label_field r.label) (λ c g. omega (arith, g))
                  (label_field-Graphic r.label v.1),
            ),
      )

label_field_short : (l : Option TrustedPeerLabel) → LabelIsValid l → length (label_field l) ≤ 256
label_field_short none v = omega arith
label_field_short (some l) v =
    omega (arith, v.2, length-push_hex (as_bytes l.value), length-as_bytes l.value)

pub length-record_line : (r : TrustedPeerRecord) → RecordIsValid r → length (record_line r) ≤ 391
unfolding record_line
length-record_line r v =
    let (full, short) = new-length r.identity v.accepted in
    omega (
      arith,
      short,
      length-append (to_string r.identity.scheme)
          (b' ' ∷ (push_hex r.identity.material ++ b' ' ∷ label_field r.label)),
      length-append (push_hex r.identity.material) (b' ' ∷ label_field r.label),
      length-to_string r.identity.scheme,
      length-push_hex r.identity.material,
      label_field_short r.label v.labelled,
    )

-- A valid record is read back from the line that is written for it.
pub parse_record-record_line :
    (r : TrustedPeerRecord) → RecordIsValid r → parse_record (record_line r) ≡ ok r
unfolding parse_record
parse_record-record_line r v =
    let ascii = All-map (record_line r) (λ c g. g.1) (record_line-Graphic r (record-Typed r v)) in
    let short = length-record_line r v in
    rw
      (
        le→ltb_false max_record_line_bytes (str_len (record_line r))
            (omega (arith, str_len_ascii (record_line r) ascii)),
        split-record_line r (record-Typed r v),
      )
      (parse_fields_lem r v)
