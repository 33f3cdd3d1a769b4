-- ===== src/Text/Utf8.antt =====
-- `str::as_bytes` and `str::from_utf8`: UTF-8, with the bounds of the standard on second bytes.
pub mod Valid
use local_transfer.Prelude.{
  ℕ, zero, suc, ◌+◌, ◌-◌, ◌*◌, ◌/◌, ◌%◌, ◌≤◌, ◌<◌, ◌≡◌, refl, ap, ◌∙◌, true, false, ◌&&◌, Option,
  none, some, [], ◌∷◌, ◌++◌, ltb, leb, ◌==◌, if◌then◌else◌, arith, length, All, Bytes,
  length-append, ℕ_discrete, ◌≢◌, lt→ltb, All-append, sym, inl, inr,
}
use local_transfer.Text.{Text, IsScalar, str_len, len_utf8}

unfoldable pub encode_char : ℕ → Bytes
encode_char c =
    if ltb c 0x80
    then c ∷ []
    else if ltb c 0x800
    then (0xc0 + c / 64) ∷ (0x80 + c % 64) ∷ []
    else if ltb c 0x10000
    then (0xe0 + c / 4096) ∷ (0x80 + c / 64 % 64) ∷ (0x80 + c % 64) ∷ []
    else (0xf0 + c / 262144) ∷ (0x80 + c / 4096 % 64) ∷ (0x80 + c / 64 % 64) ∷ (0x80 + c % 64) ∷ []

unfoldable pub as_bytes : Text → Bytes
as_bytes [] = []
as_bytes (c ∷ s) = encode_char c ++ as_bytes s

-- After a lead byte: how many bytes follow, the bits it gives, and the range of the next byte.
pub record Pending : Type 0 where
  pub more : ℕ
  pub bits : ℕ
  pub low : ℕ
  pub high : ℕ

abbrev pub pending : ℕ → ℕ → ℕ → ℕ → Option Pending
pending more bits low high = some (record { more = more; bits = bits; low = low; high = high })

pub lead : ℕ → Option Pending
lead b =
    if ltb b 0x80
    then pending 0 b 0 0
    else if ltb b 0xc2
    then none
    else if ltb b 0xe0
    then pending 1 (b - 0xc0) 0x80 0xbf
    else if b == 0xe0
    then pending 2 0 0xa0 0xbf
    else if b == 0xed
    then pending 2 13 0x80 0x9f
    else if ltb b 0xf0
    then pending 2 (b - 0xe0) 0x80 0xbf
    else if b == 0xf0
    then pending 3 0 0x90 0xbf
    else if ltb b 0xf4
    then pending 3 (b - 0xf0) 0x80 0xbf
    else if b == 0xf4
    then pending 3 4 0x80 0x8f
    else none

abbrev pub cons? : ℕ → Option Text → Option Text
cons? c none = none
cons? c (some s) = some (c ∷ s)

-- `zero`: at the start of a character; `suc n`: n more bytes after this one.
pub scan : ℕ → ℕ → ℕ → ℕ → Bytes → Option Text
unfolding lead
scan zero bits low high [] = some []
scan (suc n) bits low high [] = none
scan zero bits low high (b ∷ rest) = elim (lead b) [
  | none ↦ none
  | some p ↦ elim p.more [
    | zero ↦ cons? p.bits (scan zero 0 0 0 rest)
    | suc k ↦ scan p.more p.bits p.low p.high rest
  ]
]
scan (suc zero) bits low high (b ∷ rest) = elim (leb low b && leb b high) [
  | false ↦ none
  | true ↦ cons? (bits * 64 + (b - 0x80)) (scan zero 0 0 0 rest)
]
scan (suc (suc n)) bits low high (b ∷ rest) = elim (leb low b && leb b high) [
  | false ↦ none
  | true ↦ scan (suc n) (bits * 64 + (b - 0x80)) 0x80 0xbf rest
]

unfoldable pub from_utf8 : Bytes → Option Text
unfolding scan
from_utf8 = scan zero 0 0 0

-- What each run of bytes decodes to, the lead byte's entry being known.
module _ (rest : Bytes) where
  abbrev after : ℕ → Option Text
  after c = cons? c (scan zero 0 0 0 rest)

  scan-lead :
      (b k bits low high : ℕ) (more : Bytes)
      → lead b ≡ pending (suc k) bits low high
      → scan zero 0 0 0 (b ∷ more) ≡ scan (suc k) bits low high more
  unfolding scan
  scan-lead b k bits low high more e = rw (e, scan)

  scan_last :
      (bits low high b : ℕ)
      → low ≤ b
      → b ≤ high
      → scan 1 bits low high (b ∷ rest) ≡ after (bits * 64 + (b - 0x80))
  unfolding scan
  scan_last bits low high b g h = ground arith

  scan_next :
      (n bits low high b : ℕ) (more : Bytes)
      → low ≤ b
      → b ≤ high
      → scan (suc (suc n)) bits low high (b ∷ more)
        ≡ scan (suc n) (bits * 64 + (b - 0x80)) 0x80 0xbf more
  unfolding scan
  scan_next n bits low high b more g h = ground arith

  scan_two :
      (a bits low high b : ℕ)
      → lead a ≡ pending 1 bits low high
      → (low ≤ b) × (b ≤ high)
      → scan zero 0 0 0 (a ∷ b ∷ rest) ≡ after (bits * 64 + (b - 0x80))
  scan_two a bits low high b e h =
      scan-lead a 0 bits low high (b ∷ rest) e ∙ scan_last bits low high b h.0 h.1

  scan_three :
      (a bits low high b c : ℕ)
      → lead a ≡ pending 2 bits low high
      → (low ≤ b) × (b ≤ high)
      → (0x80 ≤ c) × (c ≤ 0xbf)
      → scan zero 0 0 0 (a ∷ b ∷ c ∷ rest) ≡ after ((bits * 64 + (b - 0x80)) * 64 + (c - 0x80))
  scan_three a bits low high b c e h g =
      scan-lead a 1 bits low high (b ∷ c ∷ rest) e
      ∙ (scan_next 0 bits low high b (c ∷ rest) h.0 h.1
          ∙ scan_last (bits * 64 + (b - 0x80)) 0x80 0xbf c g.0 g.1)

  scan_four :
      (a bits low high b c d : ℕ)
      → lead a ≡ pending 3 bits low high
      → (low ≤ b) × (b ≤ high)
      → (0x80 ≤ c) × (c ≤ 0xbf)
      → (0x80 ≤ d) × (d ≤ 0xbf)
      → scan zero 0 0 0 (a ∷ b ∷ c ∷ d ∷ rest)
        ≡ after (((bits * 64 + (b - 0x80)) * 64 + (c - 0x80)) * 64 + (d - 0x80))
  scan_four a bits low high b c d e h g f =
      scan-lead a 2 bits low high (b ∷ c ∷ d ∷ rest) e
      ∙ (scan_next 1 bits low high b (c ∷ d ∷ rest) h.0 h.1
          ∙ (scan_next 0 (bits * 64 + (b - 0x80)) 0x80 0xbf c (d ∷ rest) g.0 g.1
              ∙ scan_last ((bits * 64 + (b - 0x80)) * 64 + (c - 0x80)) 0x80 0xbf d f.0 f.1))

lead_two : (b : ℕ) → 0xc1 < b → b < 0xe0 → lead b ≡ pending 1 (b - 0xc0) 0x80 0xbf
unfolding lead
lead_two b g h = ground arith

lead_three : (b : ℕ) → 0xe0 < b → b < 0xf0 → b ≢ 0xed → lead b ≡ pending 2 (b - 0xe0) 0x80 0xbf
unfolding lead
lead_three b g h n = ground arith

lead_four : (b : ℕ) → 0xf0 < b → b < 0xf4 → lead b ≡ pending 3 (b - 0xf0) 0x80 0xbf
unfolding lead
lead_four b g h = ground arith

lead_at : (b k : ℕ) → b ≡ k → lead b ≡ lead k
lead_at b k e = ap lead e

module _ (c : ℕ) (rest : Bytes) where
  one_byte : c < 0x80 → scan zero 0 0 0 (c ∷ rest) ≡ after rest c
  unfolding scan
  one_byte h = ground arith

  two_bytes :
      0x7f < c
      → c < 0x800
      → scan zero 0 0 0 ((0xc0 + c / 64) ∷ (0x80 + c % 64) ∷ rest) ≡ after rest c
  two_bytes g h =
      scan_two rest (0xc0 + c / 64) _ _ _ (0x80 + c % 64)
        (lead_two (0xc0 + c / 64) (omega arith) (omega arith)) (omega arith)
      ∙ ap (after rest) (omega arith)

  three_bytes_from :
      (low high : ℕ)
      → lead (0xe0 + c / 4096) ≡ pending 2 (c / 4096) low high
      → (low ≤ 0x80 + c / 64 % 64) × (0x80 + c / 64 % 64 ≤ high)
      → scan zero 0 0 0 ((0xe0 + c / 4096) ∷ (0x80 + c / 64 % 64) ∷ (0x80 + c % 64) ∷ rest)
        ≡ after rest c
  three_bytes_from low high e h =
      scan_three rest (0xe0 + c / 4096) (c / 4096) low high (0x80 + c / 64 % 64) (0x80 + c % 64) e h
        (omega arith)
      ∙ ap (after rest) (omega arith)

  three_bytes :
      0x7ff < c
      → c < 0x10000
      → IsScalar c
      → scan zero 0 0 0 ((0xe0 + c / 4096) ∷ (0x80 + c / 64 % 64) ∷ (0x80 + c % 64) ∷ rest)
        ≡ after rest c
  unfolding lead
  three_bytes g h s = elim (ℕ_discrete (c / 4096) 0) [
    | yes e ↦ three_bytes_from 0xa0 0xbf (rw e) (omega arith)
    | no n ↦ elim (ℕ_discrete (c / 4096) 13) [
      | yes e ↦ three_bytes_from 0x80 0x9f (rw e) (omega arith)
      | no m ↦
          three_bytes_from 0x80 0xbf
            (lead_three (0xe0 + c / 4096) (omega arith) (omega arith) (omega arith)
              ∙ ap (λ k. pending 2 k 0x80 0xbf) (omega arith))
            (omega arith)
    ]
  ]

  four_bytes_from :
      (low high : ℕ)
      → lead (0xf0 + c / 262144) ≡ pending 3 (c / 262144) low high
      → (low ≤ 0x80 + c / 4096 % 64) × (0x80 + c / 4096 % 64 ≤ high)
      → scan zero 0 0 0 (
          (0xf0 + c / 262144)
          ∷ (0x80 + c / 4096 % 64)
          ∷ (0x80 + c / 64 % 64)
          ∷ (0x80 + c % 64)
          ∷ rest)
        ≡ after rest c
  four_bytes_from low high e h =
      scan_four rest (0xf0 + c / 262144) (c / 262144) low high (0x80 + c / 4096 % 64)
        (0x80 + c / 64 % 64) (0x80 + c % 64) e h (omega arith) (omega arith)
      ∙ ap (after rest) (omega arith)

  four_bytes :
      0xffff < c
      → c < 0x110000
      → scan zero 0 0 0 (
          (0xf0 + c / 262144)
          ∷ (0x80 + c / 4096 % 64)
          ∷ (0x80 + c / 64 % 64)
          ∷ (0x80 + c % 64)
          ∷ rest)
        ≡ after rest c
  unfolding lead
  four_bytes g h = elim (ℕ_discrete (c / 262144) 0) [
    | yes e ↦ four_bytes_from 0x90 0xbf (rw e) (omega arith)
    | no n ↦ elim (ℕ_discrete (c / 262144) 4) [
      | yes e ↦ four_bytes_from 0x80 0x8f (rw e) (omega arith)
      | no m ↦
          four_bytes_from 0x80 0xbf
            (lead_four (0xf0 + c / 262144) (omega arith) (omega arith)
              ∙ ap (λ k. pending 3 k 0x80 0xbf) (omega arith))
            (omega arith)
    ]
  ]

scan-encode_char :
    (c : ℕ) (rest : Bytes)
    → IsScalar c
    → scan zero 0 0 0 (encode_char c ++ rest) ≡ cons? c (scan zero 0 0 0 rest)
unfolding encode_char
scan-encode_char c rest h =
    ground (arith, one_byte c rest, two_bytes c rest, three_bytes c rest, four_bytes c rest)

-- Decoding the bytes of a text gives the text back.
pub from_utf8-as_bytes : (s : Text) → All IsScalar s → from_utf8 (as_bytes s) ≡ some s
unfolding from_utf8 as_bytes scan
from_utf8-as_bytes [] h = refl
from_utf8-as_bytes (c ∷ s) h =
    scan-encode_char c (as_bytes s) h.0 ∙ ap (cons? c) (from_utf8-as_bytes s h.1)

pub length-as_bytes : (s : Text) → length (as_bytes s) ≡ str_len s
unfolding as_bytes str_len encode_char len_utf8
length-as_bytes [] = refl
length-as_bytes (c ∷ s) =
    ground (arith, length-append (encode_char c) (as_bytes s), length-as_bytes s)

-- Bytes below 0x80 are their own characters.
pub as_bytes_ascii : (s : Text) → All (λ c. c < 0x80) s → as_bytes s ≡ s
unfolding as_bytes encode_char
as_bytes_ascii [] h = refl
as_bytes_ascii (c ∷ s) h = rw (lt→ltb c 0x80 h.0, as_bytes_ascii s h.1)

pub str_len_ascii : (s : Text) → All (λ c. c < 0x80) s → str_len s ≡ length s
str_len_ascii s h = sym (length-as_bytes s) ∙ ap length (as_bytes_ascii s h)

encode_char_range : (c : ℕ) → c < 0x110000 → All (λ b. b < 256) (encode_char c)
unfolding encode_char
encode_char_range c h = ground arith

-- What a text encodes to is bytes.
pub as_bytes_range : (s : Text) → All IsScalar s → All (λ b. b < 256) (as_bytes s)
unfolding as_bytes
as_bytes_range [] h = tt
as_bytes_range (c ∷ s) h =
    All-append (λ b. b < 256) (encode_char c) (as_bytes s)
      (encode_char_range c (elim h.0 [ inl a ↦ omega (arith, a) | inr b ↦ b.1 ]))
      (as_bytes_range s h.1)
