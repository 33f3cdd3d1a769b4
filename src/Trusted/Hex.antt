-- ===== src/Trusted/Hex.antt =====
-- `push_hex`, `decode_hex` and `hex_value` of trusted_peers.rs.
use mathlib.Core.Logic.{inl, inr}
use local_transfer.Prelude.{
  ℕ, ◌+◌, ◌-◌, ◌*◌, ◌/◌, ◌%◌, ◌≤◌, ◌<◌, ◌≡◌, ◌≢◌, refl, ap, ◌∙◌, false, not, ◌&&◌, ◌||◌, ltb, leb,
  ◌==◌, if◌then◌else◌, [], ◌∷◌, Option, none, some, All, All-map, length, Bytes, arith, Bool-cases,
}
use local_transfer.Text.{Text, is_empty, str_len}
use local_transfer.Text.Utf8.{as_bytes, as_bytes_ascii, length-as_bytes, str_len_ascii, encode_char}

-- The table `DIGITS` at an index below 16.
unfoldable pub digit : ℕ → ℕ
digit n = if ltb n 10 then b'0' + n else b'a' + (n - 10)

-- `byte >> 4` and `byte & 0x0f`
unfoldable pub push_hex : Bytes → Text
unfolding digit
push_hex [] = []
push_hex (byte ∷ bytes) = digit (byte / 16) ∷ digit (byte % 16) ∷ push_hex bytes

unfoldable pub hex_value : ℕ → Option ℕ
hex_value byte =
    if leb b'0' byte && leb byte b'9'
    then some (byte - b'0')
    else if leb b'a' byte && leb byte b'f'
    then some (byte - b'a' + 10)
    else none

-- One round of the loop, before what follows it: `(high << 4) | low` of two values below 16.
abbrev pub pair_value : Option ℕ → Option ℕ → Option Bytes → Option Bytes
pair_value (some h) (some l) (some out) = some ((h * 16 + l) ∷ out)
pair_value _ _ _ = none

unfoldable pub decode_pairs : Bytes → Option Bytes
unfolding hex_value
decode_pairs [] = some []
decode_pairs (b ∷ []) = some []
decode_pairs (high ∷ low ∷ bytes) = pair_value (hex_value high) (hex_value low) (decode_pairs bytes)

unfoldable pub decode_hex : Text → Option Bytes
unfolding decode_pairs
decode_hex text =
    if is_empty text || not (str_len text % 2 == 0) then none else decode_pairs (as_bytes text)

hex_value-digit : (n : ℕ) → n < 16 → hex_value (digit n) ≡ some n
unfolding hex_value digit
hex_value-digit n h = ground arith

digit_range : (n : ℕ) → n < 16 → (b'0' ≤ digit n) × (digit n < 0x80)
unfolding digit
digit_range n h = ground arith

-- Hex text is made of ASCII digits and letters.
pub push_hex_range :
    (bytes : Bytes) → All (λ b. b < 256) bytes → All (λ c. (b'0' ≤ c) × (c < 0x80)) (push_hex bytes)
unfolding push_hex
push_hex_range [] h = tt
push_hex_range (b ∷ bytes) h = (
  digit_range (b / 16) (omega (arith, h.0)),
  (digit_range (b % 16) (omega arith), push_hex_range bytes h.1),
)

push_hex-ascii : (bytes : Bytes) → All (λ b. b < 256) bytes → All (λ c. c < 0x80) (push_hex bytes)
push_hex-ascii bytes h = All-map (push_hex bytes) (λ c r. r.1) (push_hex_range bytes h)

decode_pairs-push_hex :
    (bytes : Bytes) → All (λ b. b < 256) bytes → decode_pairs (push_hex bytes) ≡ some bytes
unfolding push_hex decode_pairs
decode_pairs-push_hex [] h = refl
decode_pairs-push_hex (b ∷ bytes) h =
    rw
      (
        hex_value-digit (b / 16) (omega (arith, h.0)),
        hex_value-digit (b % 16) (omega arith),
        decode_pairs-push_hex bytes h.1,
      )
      (ap (λ n. some (n ∷ bytes)) (omega arith))

pub length-push_hex : (bytes : Bytes) → length (push_hex bytes) ≡ 2 * length bytes
unfolding push_hex
length-push_hex [] = omega arith
length-push_hex (b ∷ bytes) = omega (arith, length-push_hex bytes)

pub str_len-push_hex :
    (bytes : Bytes) → All (λ b. b < 256) bytes → str_len (push_hex bytes) ≡ 2 * length bytes
str_len-push_hex bytes h =
    str_len_ascii (push_hex bytes) (push_hex-ascii bytes h) ∙ length-push_hex bytes

str_len_even : (bytes : Bytes) → All (λ b. b < 256) bytes → str_len (push_hex bytes) % 2 ≡ 0
str_len_even bytes h = omega (arith, str_len-push_hex bytes h)

push_hex-full : (b : ℕ) (bytes : Bytes) → is_empty (push_hex (b ∷ bytes)) ≡ false
unfolding push_hex
push_hex-full b bytes = refl

-- The hex text of bytes, each below 256 and at least one, is read back as those bytes.
pub decode_hex-push_hex :
    (bytes : Bytes)
    → bytes ≢ []
    → All (λ b. b < 256) bytes
    → decode_hex (push_hex bytes) ≡ some bytes
unfolding decode_hex
decode_hex-push_hex [] n h = absurd (n refl)
decode_hex-push_hex (b ∷ bytes) n h =
    let text = push_hex (b ∷ bytes) in
    ground (
      arith,
      push_hex-full b bytes,
      str_len_even (b ∷ bytes) h,
      as_bytes_ascii text (push_hex-ascii (b ∷ bytes) h),
      decode_pairs-push_hex (b ∷ bytes) h,
    )

digit-hex_value : (b h : ℕ) → hex_value b ≡ some h → (digit h ≡ b) × (h < 16)
unfolding hex_value digit
digit-hex_value b h e = ground arith

pair_value-some :
    (h l : Option ℕ) (rest : Option Bytes) (out : Bytes)
    → pair_value h l rest ≡ some out
    → (a b : ℕ) × (bytes : Bytes) × (h ≡ some a)
      × (l ≡ some b)
      × (rest ≡ some bytes)
      × (out ≡ (a * 16 + b) ∷ bytes)
pair_value-some none l rest out e = cc
pair_value-some (some a) none rest out e = cc
pair_value-some (some a) (some b) none out e = cc
pair_value-some (some a) (some b) (some bytes) out e = (a, b, bytes, refl, refl, refl, cc)

out_nil : (out : Bytes) → some [] ≡ some out → out ≡ []
out_nil out e = cc

pair_high : (a b : ℕ) → b < 16 → (a * 16 + b) / 16 ≡ a
pair_high a b h = omega arith

pair_low : (a b : ℕ) → b < 16 → (a * 16 + b) % 16 ≡ b
pair_low a b h = omega arith

push_hex-pair :
    (a b high low : ℕ) (bytes : Bytes) (text : Text)
    → b < 16
    → digit a ≡ high
    → digit b ≡ low
    → push_hex bytes ≡ text
    → push_hex ((a * 16 + b) ∷ bytes) ≡ high ∷ low ∷ text
unfolding push_hex
push_hex-pair a b high low bytes text h da db rest =
    rw (pair_high a b h, pair_low a b h, da, db, rest) refl

push_hex-decode_pairs :
    (text out : Bytes) → length text % 2 ≡ 0 → decode_pairs text ≡ some out → push_hex out ≡ text
unfolding decode_pairs push_hex
push_hex-decode_pairs [] out even e = ap push_hex (out_nil out e)
push_hex-decode_pairs (b ∷ []) out even e = absurd (omega arith)
push_hex-decode_pairs (high ∷ low ∷ text) out even e =
    let (a, b, bytes, ha, lb, r, o) =
      pair_value-some (hex_value high) (hex_value low) (decode_pairs text) out e in
    let (da, sa) = digit-hex_value high a ha in
    let (db, sb) = digit-hex_value low b lb in
    let rest = push_hex-decode_pairs text bytes (omega arith) r in
    rw o (push_hex-pair a b high low bytes text sb da db rest)

-- Bytes below 128 encode only themselves.
ascii-as_bytes : (s : Text) → All (λ c. c < 0x80) (as_bytes s) → as_bytes s ≡ s
unfolding as_bytes encode_char
ascii-as_bytes [] h = refl
ascii-as_bytes (c ∷ s) h = elim (Bool-cases (ltb c 0x80)) [
  | inl small ↦ rw small (ap (◌∷◌ c) (ascii-as_bytes s (rw small at h).1))
  | inr large ↦ elim (Bool-cases (ltb c 0x800)) [
    | inl two ↦ absurd (omega (arith, (rw (large, two) at h).0))
    | inr more ↦ elim (Bool-cases (ltb c 0x10000)) [
      | inl three ↦ absurd (omega (arith, (rw (large, more, three) at h).0))
      | inr four ↦ absurd (omega (arith, (rw (large, more, four) at h).0))
    ]
  ]
]

decode_pairs-bytes : (text out : Bytes) → decode_pairs text ≡ some out → All (λ b. b < 256) out
unfolding decode_pairs
decode_pairs-bytes [] out e = rw (out_nil out e) tt
decode_pairs-bytes (b ∷ []) out e = rw (out_nil out e) tt
decode_pairs-bytes (high ∷ low ∷ text) out e =
    let (a, b, bytes, ha, lb, r, o) =
      pair_value-some (hex_value high) (hex_value low) (decode_pairs text) out e in
    let (da, sa) = digit-hex_value high a ha in
    let (db, sb) = digit-hex_value low b lb in
    rw o (omega (arith, sa, sb), decode_pairs-bytes text bytes r)

-- Text that is read as bytes is the hex text of those bytes, so no bytes have a second text.
pub push_hex-decode_hex :
    (text : Text) (bytes : Bytes) → decode_hex text ≡ some bytes → push_hex bytes ≡ text
unfolding decode_hex
push_hex-decode_hex text bytes h =
    let small = decode_pairs-bytes (as_bytes text) bytes (ground arith) in
    let p =
      push_hex-decode_pairs (as_bytes text) bytes (ground (arith, length-as_bytes text))
        (ground arith) in
    p ∙ ascii-as_bytes text (rw p at (push_hex-ascii bytes small))

-- What is read from hex text is bytes.
pub decode_hex-bytes :
    (text : Text) (bytes : Bytes) → decode_hex text ≡ some bytes → All (λ b. b < 256) bytes
unfolding decode_hex
decode_hex-bytes text bytes h = decode_pairs-bytes (as_bytes text) bytes (ground arith)
