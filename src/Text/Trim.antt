-- ===== src/Text/Trim.antt =====
-- `str::trim`, and what is left by it.
use local_transfer.Prelude.{
  ℕ, ◌≤◌, ◌≡◌, refl, Bool, false, ◌&&◌, [], ◌∷◌, if◌then◌else◌, arith, any, All, length, Bool-cases,
  inl, inr,
}
use local_transfer.Text.{Text, is_whitespace, is_empty, str_len}

unfoldable pub trim_start : Text → Text
trim_start [] = []
trim_start (c ∷ s) = let rest = trim_start s in if is_whitespace c then rest else c ∷ s

unfoldable pub trim_end : Text → Text
trim_end [] = []
trim_end (c ∷ s) =
    let rest = trim_end s in if is_empty rest && is_whitespace c then [] else c ∷ rest

unfoldable pub trim : Text → Text
unfolding trim_start trim_end
trim s = trim_end (trim_start s)

trim_end-trim_end : (s : Text) → trim_end (trim_end s) ≡ trim_end s
unfolding trim_end
trim_end-trim_end [] = refl
trim_end-trim_end (c ∷ s) = ground (arith, trim_end-trim_end s)

trim_start-trim_end :
    (c : ℕ) (s : Text) → is_whitespace c ≡ false → trim_start (trim_end (c ∷ s)) ≡ trim_end (c ∷ s)
unfolding trim_start trim_end
trim_start-trim_end c s h = ground arith

trim_start-trim : (s : Text) → trim_start (trim s) ≡ trim s
unfolding trim
trim_start-trim [] = refl
trim_start-trim (c ∷ s) = elim (Bool-cases (is_whitespace c)) [
  | inl blank ↦ rw (blank, trim_start) (trim_start-trim s)
  | inr solid ↦ rw (solid, trim_start) (trim_start-trim_end c s solid)
]

-- Trimming twice is trimming once.
pub trim-trim : (s : Text) → trim (trim s) ≡ trim s
unfolding trim
trim-trim s = rw (trim_start-trim s) (trim_end-trim_end (trim_start s))

any-trim_start : (p : ℕ → Bool) (s : Text) → any p s ≡ false → any p (trim_start s) ≡ false
unfolding trim_start
any-trim_start p [] h = refl
any-trim_start p (c ∷ s) h = ground (arith, any-trim_start p s)

any-trim_end : (p : ℕ → Bool) (s : Text) → any p s ≡ false → any p (trim_end s) ≡ false
unfolding trim_end
any-trim_end p [] h = refl
any-trim_end p (c ∷ s) h = ground (arith, any-trim_end p s)

-- Trimming brings in no character of a kind that was not there.
pub any-trim : (p : ℕ → Bool) (s : Text) → any p s ≡ false → any p (trim s) ≡ false
unfolding trim
any-trim p s h = any-trim_end p (trim_start s) (any-trim_start p s h)

length-trim_start : (s : Text) → length (trim_start s) ≤ length s
unfolding trim_start
length-trim_start [] = omega arith
length-trim_start (c ∷ s) = ground (arith, length-trim_start s)

length-trim_end : (s : Text) → length (trim_end s) ≤ length s
unfolding trim_end
length-trim_end [] = omega arith
length-trim_end (c ∷ s) = ground (arith, length-trim_end s)

pub length-trim : (s : Text) → length (trim s) ≤ length s
unfolding trim
length-trim s = omega (arith, length-trim_end (trim_start s), length-trim_start s)

All-trim_start : (P : ℕ → Type 0) (s : Text) → All P s → All P (trim_start s)
unfolding trim_start
All-trim_start P [] h = tt
All-trim_start P (c ∷ s) h = elim (Bool-cases (is_whitespace c)) [
  | inl blank ↦ rw blank (All-trim_start P s h.1)
  | inr solid ↦ rw solid h
]

All-trim_end : (P : ℕ → Type 0) (s : Text) → All P s → All P (trim_end s)
unfolding trim_end
All-trim_end P [] h = tt
All-trim_end P (c ∷ s) h = elim (Bool-cases (is_empty (trim_end s) && is_whitespace c)) [
  | inl blank ↦ rw blank tt
  | inr solid ↦ rw solid (h.0, All-trim_end P s h.1)
]

-- What holds of all characters holds of all that are left.
pub All-trim : (P : ℕ → Type 0) (s : Text) → All P s → All P (trim s)
unfolding trim
All-trim P s h = All-trim_end P (trim_start s) (All-trim_start P s h)

str_len-trim_start : (s : Text) → str_len (trim_start s) ≤ str_len s
unfolding trim_start str_len
str_len-trim_start [] = omega arith
str_len-trim_start (c ∷ s) = ground (arith, str_len-trim_start s)

str_len-trim_end : (s : Text) → str_len (trim_end s) ≤ str_len s
unfolding trim_end str_len
str_len-trim_end [] = omega arith
str_len-trim_end (c ∷ s) = ground (arith, str_len-trim_end s)

pub str_len-trim : (s : Text) → str_len (trim s) ≤ str_len s
unfolding trim
str_len-trim s = omega (arith, str_len-trim_end (trim_start s), str_len-trim_start s)
