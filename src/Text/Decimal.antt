-- ===== src/Text/Decimal.antt =====
-- `u16::to_string` and `str::parse::<u16>`, and `parse_canonical_u16` of trusted_peers.rs.
use local_transfer.Prelude.{
  ℕ, zero, suc, ◌+◌, ◌-◌, ◌*◌, ◌/◌, ◌%◌, ◌^◌, ◌≤◌, ◌<◌, ◌≡◌, refl, ap, sym, ◌∙◌, ◌&&◌, Option, none,
  some, [], ◌∷◌, ◌++◌, ltb, leb, ◌==◌, if◌then◌else◌, arith, ite, ite_same, Option-cases,
  Bool-cases, inl, inr, lt→ltb, ltb→lt, ◌≢◌, All, All-append, length, length-append,
}
use native.Mathlib.Nat.{pow-suc}
use local_transfer.Text.{Text, Text-discrete}

abbrev pub u16_max : ℕ
u16_max = 0xffff

-- Five digits are enough for every `u16`.
emit : ℕ → ℕ → Text
emit zero n = []
emit (suc fuel) n =
    let front = emit fuel (n / 10) in
    if ltb n 10 then (b'0' + n) ∷ [] else front ++ (b'0' + n % 10) ∷ []

unfoldable pub to_string : ℕ → Text
unfolding emit
to_string n = emit 5 n

-- One round of the loop: `checked_mul` and `checked_add`.
push_digit : ℕ → ℕ → Option ℕ
push_digit c n =
    if leb b'0' c && leb c b'9' && leb (n * 10 + (c - b'0')) u16_max
    then some (n * 10 + (c - b'0'))
    else none

parse_digits : Text → ℕ → Option ℕ
parse_digits [] n = some n
parse_digits (c ∷ s) n = elim (push_digit c n) [ none ↦ none | some m ↦ parse_digits s m ]

-- The digits must be there; one leading `+` is allowed.
unfoldable pub parse_u16 : Text → Option ℕ
unfolding parse_digits push_digit
parse_u16 [] = none
parse_u16 (c ∷ []) = parse_digits (c ∷ []) 0
parse_u16 (c ∷ d ∷ s) = if c == b'+' then parse_digits (d ∷ s) 0 else parse_digits (c ∷ d ∷ s) 0

-- `parse::<u16>().ok()` of a text that is exactly what `to_string` prints.
unfoldable pub parse_canonical_u16 : Text → Option ℕ
unfolding parse_u16
parse_canonical_u16 text = elim (parse_u16 text) [
  | none ↦ none
  | some value ↦ ite (Text-discrete (to_string value) text) (some value) none
]

refuted : {n : ℕ} → none ≡ some n → ⊥
refuted h = cc

parse_digits-append :
    (s : Text) (n m c : ℕ)
    → parse_digits s n ≡ some m
    → parse_digits (s ++ c ∷ []) n ≡ push_digit c m
unfolding parse_digits
parse_digits-append [] n m c h = ground arith
parse_digits-append (d ∷ s) n m c h = elim (Option-cases (push_digit d n)) [
  | inl full ↦ absurd (refuted (rw (full, parse_digits) at h))
  | inr (k, e) ↦ rw (e, parse_digits) (parse_digits-append s k m c (rw (e, parse_digits) at h))
]

one_digit : (n : ℕ) → n < 10 → parse_digits ((b'0' + n) ∷ []) 0 ≡ some n
unfolding parse_digits push_digit
one_digit n h = ground arith

last_digit : (n : ℕ) → n ≤ u16_max → push_digit (b'0' + n % 10) (n / 10) ≡ some n
unfolding push_digit
last_digit n h = ground arith

tenth_below : (n k : ℕ) → n < k * 10 → n / 10 < k
tenth_below n k h = omega arith

parse_digits-emit :
    (fuel n : ℕ) → n < 10 ^ fuel → n ≤ u16_max → 0 < fuel → parse_digits (emit fuel n) 0 ≡ some n
unfolding emit
parse_digits-emit zero n h b p = absurd (omega arith)
parse_digits-emit (suc zero) n h b p = rw (lt→ltb n 10 (omega arith)) (one_digit n (omega arith))
parse_digits-emit (suc (suc fuel)) n h b p = elim (Bool-cases (ltb n 10)) [
  | inl small ↦ rw small (one_digit n (ltb→lt n 10 small))
  | inr large ↦ rw large (
      parse_digits-append (emit (suc fuel) (n / 10)) 0 (n / 10) (b'0' + n % 10) (
        parse_digits-emit (suc fuel) (n / 10)
          (tenth_below n (10 ^ suc fuel) (rw (pow-suc 10 (suc fuel)) at h)) (omega arith)
          (omega arith))
      ∙ last_digit n b)
]

-- What is printed begins with a digit, so never with `+`.
emit_first : (fuel n : ℕ) → (c : ℕ) × (s : Text) × (emit (suc fuel) n ≡ c ∷ s) × (c ≢ b'+')
unfolding emit
emit_first zero n = elim (Bool-cases (ltb n 10)) [
  | inl small ↦ (b'0' + n, [], rw small, omega arith)
  | inr large ↦ (b'0' + n % 10, [], rw large, omega arith)
]
emit_first (suc fuel) n = elim (Bool-cases (ltb n 10)) [
  | inl small ↦ (b'0' + n, [], rw small, omega arith)
  | inr large ↦
      let (c, s, e, digit) = emit_first fuel (n / 10) in
      (c, s ++ (b'0' + n % 10) ∷ [], rw large (ap (λ t. t ++ (b'0' + n % 10) ∷ []) e), digit)
]

parse_unsigned : (c : ℕ) (s : Text) → c ≢ b'+' → parse_u16 (c ∷ s) ≡ parse_digits (c ∷ s) 0
unfolding parse_u16
parse_unsigned c [] h = refl
parse_unsigned c (d ∷ s) h = ground arith

pub parse_u16-to_string : (n : ℕ) → n ≤ u16_max → parse_u16 (to_string n) ≡ some n
unfolding to_string
parse_u16-to_string n h =
    let (c, s, e, digit) = emit_first 4 n in
    rw e (
      parse_unsigned c s digit
      ∙ ap (λ t. parse_digits t 0) (sym e)
      ∙ parse_digits-emit 5 n (omega arith) h (omega arith))

-- The decimal print of a u16 is read back by the canonical parser.
pub parse_canonical_u16-to_string :
    (n : ℕ) → n ≤ u16_max → parse_canonical_u16 (to_string n) ≡ some n
unfolding parse_canonical_u16
parse_canonical_u16-to_string n h =
    rw (parse_u16-to_string n h, parse_canonical_u16)
      (ite_same Text-discrete (to_string n) (some n) none)

-- A text has at most one reading, and is the print of it.
pub to_string-parse_canonical_u16 :
    (s : Text) (n : ℕ) → parse_canonical_u16 s ≡ some n → to_string n ≡ s
unfolding parse_canonical_u16
to_string-parse_canonical_u16 s n h = ground arith

emit_digits : (fuel n : ℕ) → All (λ c. (b'0' ≤ c) × (c ≤ b'9')) (emit fuel n)
unfolding emit
emit_digits zero n = tt
emit_digits (suc fuel) n = elim (Bool-cases (ltb n 10)) [
  | inl small ↦ let h = ltb→lt n 10 small in rw small (omega arith)
  | inr large ↦ rw large (
      All-append (λ c. (b'0' ≤ c) × (c ≤ b'9')) (emit fuel (n / 10)) ((b'0' + n % 10) ∷ [])
        (emit_digits fuel (n / 10)) (omega arith))
]

-- What is printed is made of ASCII digits.
pub to_string_digits : (n : ℕ) → All (λ c. (b'0' ≤ c) × (c ≤ b'9')) (to_string n)
unfolding to_string
to_string_digits n = emit_digits 5 n

length-emit : (fuel n : ℕ) → length (emit fuel n) ≤ fuel
unfolding emit
length-emit zero n = omega arith
length-emit (suc fuel) n =
    ground
      (arith, length-append (emit fuel (n / 10)) ((b'0' + n % 10) ∷ []), length-emit fuel (n / 10))

pub length-to_string : (n : ℕ) → length (to_string n) ≤ 5
unfolding to_string
length-to_string n = length-emit 5 n

push_digit-le : (c n k : ℕ) → push_digit c n ≡ some k → k ≤ u16_max
unfolding push_digit
push_digit-le c n k h = ground arith

parse_digits-le : (s : Text) (n m : ℕ) → n ≤ u16_max → parse_digits s n ≡ some m → m ≤ u16_max
unfolding parse_digits
parse_digits-le [] n m b h = ground arith
parse_digits-le (c ∷ s) n m b h = elim (Option-cases (push_digit c n)) [
  | inl full ↦ absurd (refuted (rw (full, parse_digits) at h))
  | inr (k, e) ↦ parse_digits-le s k m (push_digit-le c n k e) (rw (e, parse_digits) at h)
]

-- What parses is a `u16`.
pub parse_u16-le : (s : Text) (n : ℕ) → parse_u16 s ≡ some n → n ≤ u16_max
unfolding parse_u16
parse_u16-le [] n h = cc
parse_u16-le (c ∷ []) n h = parse_digits-le (c ∷ []) 0 n (omega arith) h
parse_u16-le (c ∷ d ∷ s) n h =
    ground (arith, parse_digits-le (d ∷ s) 0 n, parse_digits-le (c ∷ d ∷ s) 0 n)

pub parse_canonical_u16-le : (s : Text) (n : ℕ) → parse_canonical_u16 s ≡ some n → n ≤ u16_max
unfolding parse_canonical_u16
parse_canonical_u16-le s n h = ground (arith, parse_u16-le s n)
