-- ===== src/Text/Utf8/Valid.antt =====
-- What `str::from_utf8` accepts: scalar values, encoded in no fewer bytes than they take.
use mathlib.Core.Option.{some-injective}
use local_transfer.Prelude.{
  ℕ, zero, suc, ◌+◌, ◌-◌, ◌*◌, ◌≤◌, ◌<◌, ◌≡◌, ◌⊎◌, refl, true, false, ◌&&◌, Option, none, some, [],
  ◌∷◌, leb, ltb, ◌==◌, if◌then◌else◌, ltb→lt, ◌≢◌, dec_le, subst, sym, ap, ◌∙◌, arith, length, All,
  Bytes, Bool-cases, Option-cases, inl, inr,
}
use local_transfer.Text.{Text, IsScalar, str_len, len_utf8}
use local_transfer.Text.Utf8.{Pending, pending, lead, scan, cons?, from_utf8}

-- Whatever `more` bytes follow, the character has at most `size` bytes and is a scalar value.
abbrev Safe : ℕ → ℕ → ℕ → ℕ → ℕ → Type 0
Safe zero size bits low high = IsScalar bits × (len_utf8 bits ≤ size)
Safe (suc more) size bits low high =
    (b : ℕ) → low ≤ b → b ≤ high → Safe more size (bits * 64 + (b - 0x80)) 0x80 0xbf

-- In the middle of a character, after `read` of its bytes.
abbrev Ready : ℕ → ℕ → ℕ → ℕ → ℕ → Type 0
Ready zero read bits low high = Unit
Ready (suc more) read bits low high =
    (size : ℕ) × (size ≡ read + suc more) × Safe (suc more) size bits low high

len_one : (c : ℕ) → c < 0x80 → len_utf8 c ≤ 1
unfolding len_utf8
len_one c h = ground arith

len_two : (c : ℕ) → c < 0x800 → len_utf8 c ≤ 2
unfolding len_utf8
len_two c h = ground arith

len_three : (c : ℕ) → c < 0x10000 → len_utf8 c ≤ 3
unfolding len_utf8
len_three c h = ground arith

len_four : (c : ℕ) → len_utf8 c ≤ 4
unfolding len_utf8
len_four c = ground arith

Safe-one : (b : ℕ) → b < 0x80 → Safe 0 1 b 0 0
Safe-one b h = (inl (omega arith), len_one b h)

Safe-two : (bits : ℕ) → bits < 32 → Safe 1 2 bits 0x80 0xbf
Safe-two bits h b l u = (inl (omega arith), len_two _ (omega arith))

Safe-three_low :
    (bits low high : ℕ) → 0x80 ≤ low → bits * 64 + high ≤ 13 * 64 + 0x9f → Safe 2 3 bits low high
Safe-three_low bits low high k h b l u c m v = (inl (omega arith), len_three _ (omega arith))

Safe-three_high : (bits : ℕ) → 13 < bits → bits < 16 → Safe 2 3 bits 0x80 0xbf
Safe-three_high bits h k b l u c m v = (inr (omega arith), len_three _ (omega arith))

Safe-four :
    (bits low high : ℕ)
    → 0x80 ≤ low
    → 0x90 ≤ bits * 64 + low
    → bits * 64 + high ≤ 4 * 64 + 0x8f
    → Safe 3 4 bits low high
Safe-four bits low high k f h b l u c m v d n w = (inr (omega arith), len_four _)

Safe-pending :
    (more bits low high : ℕ) (p : Pending)
    → pending more bits low high ≡ some p
    → Safe more (suc more) bits low high
    → Safe p.more (suc p.more) p.bits p.low p.high
Safe-pending more bits low high p h s =
    subst (λ q. Safe q.more (suc q.more) q.bits q.low q.high) (some-injective _ p h) s

ltb_false→le : (a b : ℕ) → ltb a b ≡ false → b ≤ a
ltb_false→le a b h = ground arith

refuted : {p : Pending} → none ≡ some p → ⊥
refuted h = cc

apart : (a b : ℕ) → (a == b) ≡ false → a ≢ b
apart a b h = ground arith

three_bits : (b : ℕ) → b < 0xf0 → (b == 0xed) ≡ false → Safe 2 3 (b - 0xe0) 0x80 0xbf
three_bits b h f =
    let n = apart b 0xed f in
    elim (dec_le (b - 0xe0) 12) [
      | yes y ↦ Safe-three_low (b - 0xe0) 0x80 0xbf (omega arith) (omega arith)
      | no y ↦ Safe-three_high (b - 0xe0) (omega arith) (omega arith)
    ]

four_bits : (b : ℕ) → 0xf0 ≤ b → b < 0xf4 → (b == 0xf0) ≡ false → Safe 3 4 (b - 0xf0) 0x80 0xbf
four_bits b g h f =
    let n = apart b 0xf0 f in
    Safe-four (b - 0xf0) 0x80 0xbf (omega arith) (omega arith) (omega arith)

-- The tests of `lead` for three bytes and four.
wide :
    (b : ℕ) (p : Pending)
    → 0xe0 ≤ b
    → (if b == 0xe0
        then pending 2 0 0xa0 0xbf
        else if b == 0xed
        then pending 2 13 0x80 0x9f
        else if ltb b 0xf0
        then pending 2 (b - 0xe0) 0x80 0xbf
        else if b == 0xf0
        then pending 3 0 0x90 0xbf
        else if ltb b 0xf4
        then pending 3 (b - 0xf0) 0x80 0xbf
        else if b == 0xf4
        then pending 3 4 0x80 0x8f
        else none)
      ≡ some p
    → Safe p.more (suc p.more) p.bits p.low p.high
wide b p g h = elim (Bool-cases (b == 0xe0)) [
  | inl t1 ↦
      Safe-pending 2 0 0xa0 0xbf p (rw t1 at h)
        (Safe-three_low 0 0xa0 0xbf (omega arith) (omega arith))
  | inr f1 ↦ elim (Bool-cases (b == 0xed)) [
    | inl t2 ↦
        Safe-pending 2 13 0x80 0x9f p (rw (f1, t2) at h)
          (Safe-three_low 13 0x80 0x9f (omega arith) (omega arith))
    | inr f2 ↦ elim (Bool-cases (ltb b 0xf0)) [
      | inl t3 ↦
          Safe-pending 2 (b - 0xe0) 0x80 0xbf p (rw (f1, f2, t3) at h)
            (three_bits b (ltb→lt b 0xf0 t3) f2)
      | inr f3 ↦ elim (Bool-cases (b == 0xf0)) [
        | inl t4 ↦
            Safe-pending 3 0 0x90 0xbf p (rw (f1, f2, f3, t4) at h)
              (Safe-four 0 0x90 0xbf (omega arith) (omega arith) (omega arith))
        | inr f4 ↦ elim (Bool-cases (ltb b 0xf4)) [
          | inl t5 ↦
              Safe-pending 3 (b - 0xf0) 0x80 0xbf p (rw (f1, f2, f3, f4, t5) at h)
                (four_bits b (ltb_false→le b 0xf0 f3) (ltb→lt b 0xf4 t5) f4)
          | inr f5 ↦ elim (Bool-cases (b == 0xf4)) [
            | inl t6 ↦
                Safe-pending 3 4 0x80 0x8f p (rw (f1, f2, f3, f4, f5, t6) at h)
                  (Safe-four 4 0x80 0x8f (omega arith) (omega arith) (omega arith))
            | inr f6 ↦ absurd (refuted (rw (f1, f2, f3, f4, f5, f6) at h))
          ]
        ]
      ]
    ]
  ]
]

-- The range of the byte that a lead byte allows makes its character a scalar value.
lead-Safe : (b : ℕ) (p : Pending) → lead b ≡ some p → Safe p.more (suc p.more) p.bits p.low p.high
unfolding lead
lead-Safe b p h = elim (Bool-cases (ltb b 0x80)) [
  | inl x ↦ Safe-pending 0 b 0 0 p (rw x at h) (Safe-one b (ltb→lt b 0x80 x))
  | inr x ↦ elim (Bool-cases (ltb b 0xc2)) [
    | inl y ↦ absurd (refuted (rw (x, y) at h))
    | inr y ↦ elim (Bool-cases (ltb b 0xe0)) [
      | inl z ↦
          Safe-pending 1 (b - 0xc0) 0x80 0xbf p (rw (x, y, z) at h)
            (Safe-two (b - 0xc0) (omega (arith, ltb→lt b 0xe0 z)))
      | inr z ↦ wide b p (ltb_false→le b 0xe0 z) (rw (x, y, z) at h)
    ]
  ]
]

cons?-some :
    (c : ℕ) (o : Option Text) (s : Text)
    → cons? c o ≡ some s
    → (t : Text) × (o ≡ some t) × (c ∷ t ≡ s)
cons?-some c none s h = cc
cons?-some c (some t) s h = (t, refl, cc)

Valid : ℕ → Text → Type 0
Valid n s = All IsScalar s × (str_len s ≤ n)

Valid-cons : (n read c : ℕ) (s : Text) → Safe zero read c 0 0 → Valid n s → Valid (read + n) (c ∷ s)
unfolding Valid str_len
Valid-cons n read c s h v = ((h.0, v.0), omega (arith, h.1, v.1))

no_text : {s : Text} → none ≡ some s → ⊥
no_text h = cc

nil_Valid : (n : ℕ) (s : Text) → some [] ≡ some s → Valid n s
unfolding Valid str_len
nil_Valid n s h =
    subst (λ t. All IsScalar t × (str_len t ≤ n)) (some-injective [] s h) (omega arith)

nat_cases : (n : ℕ) → (n ≡ 0) ⊎ ((k : ℕ) × (n ≡ suc k))
nat_cases zero = inl refl
nat_cases (suc k) = inr (k, refl)

in_range : (low high b : ℕ) → (leb low b && leb b high) ≡ true → (low ≤ b) × (b ≤ high)
in_range low high b h = ground arith

grow : (n m : ℕ) (s : Text) → n ≤ m → Valid n s → Valid m s
unfolding Valid
grow n m s h v = (v.0, omega (arith, v.1))

emitted :
    (size n m c : ℕ) (o : Option Text) (s : Text)
    → Safe zero size c 0 0
    → size + n ≤ m
    → ((t : Text) → o ≡ some t → Valid (0 + n) t)
    → cons? c o ≡ some s
    → Valid m s
emitted size n m c o s safe le rest h =
    let (t, e, same) = cons?-some c o s h in
    let v = Valid-cons (0 + n) size c t safe (rest t e) in
    subst (Valid m) same (grow (size + (0 + n)) m (c ∷ t) (omega arith) v)

-- From any place in the bytes.
scan-Valid :
    (more read bits low high : ℕ) (bytes : Bytes) (s : Text)
    → Ready more read bits low high
    → scan more bits low high bytes ≡ some s
    → Valid (read + length bytes) s
unfolding scan
scan-Valid zero read bits low high [] s r h = nil_Valid (read + 0) s h
scan-Valid (suc more) read bits low high [] s r h = absurd (no_text h)
scan-Valid zero read bits low high (b ∷ rest) s r h = elim (Option-cases (lead b)) [
  | inl e ↦ absurd (no_text (rw (e, scan) at h))
  | inr (p, e) ↦ elim (nat_cases p.more) [
    | inl z ↦
        emitted 1 (length rest) (read + suc (length rest)) p.bits _ s
          (subst (λ m. Safe m (suc m) p.bits p.low p.high) z (lead-Safe b p e)) (omega arith)
          (λ t. scan-Valid zero 0 0 0 0 rest t tt) (rw (e, z, scan) at h)
    | inr (k, m) ↦
        let safe = subst (λ m. Safe m (suc m) p.bits p.low p.high) m (lead-Safe b p e) in
        grow (1 + length rest) (read + suc (length rest)) s (omega arith) (
          scan-Valid (suc k) 1 p.bits p.low p.high rest s (suc (suc k), omega arith, safe)
            (sym (ap (λ n. scan n p.bits p.low p.high rest) m) ∙ (rw (e, m, scan) at h)))
  ]
]
scan-Valid (suc zero) read bits low high (b ∷ rest) s (size, e, safe) h =
    elim (Bool-cases (leb low b && leb b high)) [
      | inl x ↦
          let (g, u) = in_range low high b x in
          emitted size (length rest) (read + suc (length rest)) _ _ s (safe b g u) (omega arith)
            (λ t. scan-Valid zero 0 0 0 0 rest t tt) (rw (x, scan) at h)
      | inr x ↦ absurd (no_text (rw (x, scan) at h))
    ]
scan-Valid (suc (suc more)) read bits low high (b ∷ rest) s (size, e, safe) h =
    elim (Bool-cases (leb low b && leb b high)) [
      | inl x ↦
          let (g, u) = in_range low high b x in
          grow (suc read + length rest) (read + suc (length rest)) s (omega arith) (
            scan-Valid (suc more) (suc read) _ 0x80 0xbf rest s (size, omega arith, safe b g u)
              (rw (x, scan) at h))
      | inr x ↦ absurd (no_text (rw (x, scan) at h))
    ]

-- What decodes is made of scalar values.
pub from_utf8-IsScalar : (bytes : Bytes) (s : Text) → from_utf8 bytes ≡ some s → All IsScalar s
unfolding from_utf8 Valid
from_utf8-IsScalar bytes s h = (scan-Valid zero 0 0 0 0 bytes s tt h).0

-- A text takes no more bytes than it was decoded from.
pub from_utf8-str_len :
    (bytes : Bytes) (s : Text) → from_utf8 bytes ≡ some s → str_len s ≤ length bytes
unfolding from_utf8 Valid
from_utf8-str_len bytes s h = omega (arith, (scan-Valid zero 0 0 0 0 bytes s tt h).1)
