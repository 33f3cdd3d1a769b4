-- ===== src/Discovery/NameHint/Truncate.antt =====
-- `DiscoveryNameHint::from_device_name` of discovery.rs on a valid device name.
use mathlib.Core.Bool.{false≢true}
use local_transfer.Prelude.{
  ℕ, zero, suc, ◌+◌, ◌-◌, ◌≤◌, ◌<◌, ◌≡◌, refl, ap, sym, ◌∙◌, dec_lt, Bool, true, false, min, any,
  [], ◌∷◌, ◌++◌, arith, ok, Bool-cases, inl, inr, some, length, append_assoc, le→leb, ℕ_discrete,
}
use local_transfer.Text.{Text, is_control, is_whitespace, is_empty, str_len, len_utf8}
use local_transfer.Text.Trim.{trim, trim_start, length-trim}
use local_transfer.DeviceName.{DeviceName}
use local_transfer.DeviceName.Laws.{IsValid}
use local_transfer.Discovery.NameHint.{
  DiscoveryNameHint, new, is_char_boundary, floor_boundary, slice_to, from_device_name,
  max_discovery_name_bytes,
}

len_utf8_bounds : (c : ℕ) → (0 < len_utf8 c) × (len_utf8 c ≤ 4)
unfolding len_utf8
len_utf8_bounds c = ground arith

str_len-append : (s t : Text) → str_len (s ++ t) ≡ str_len s + str_len t
unfolding str_len
str_len-append [] t = omega arith
str_len-append (c ∷ s) t = omega (arith, str_len-append s t)

sub_front : (a b : ℕ) → a + b - a ≡ b
sub_front a b = omega arith

boundary-cons :
    (c : ℕ) (s : Text) (n : ℕ)
    → is_char_boundary (c ∷ s) (suc n) ≡ true
    → (len_utf8 c ≤ suc n) × (is_char_boundary s (suc n - len_utf8 c) ≡ true)
unfolding is_char_boundary
boundary-cons c s n h = ground arith

-- The length of every front part is a boundary.
boundary_of_front : (front rest : Text) → is_char_boundary (front ++ rest) (str_len front) ≡ true
unfolding is_char_boundary str_len
boundary_of_front [] [] = refl
boundary_of_front [] (c ∷ rest) = refl
boundary_of_front (c ∷ front) rest =
    ground (
      arith,
      boundary_of_front front rest,
      len_utf8_bounds c,
      sub_front (len_utf8 c) (str_len front),
    )

-- Every boundary is the length of a front part, and the slice there is that part.
front_of_boundary :
    (s : Text) (n : ℕ)
    → is_char_boundary s n ≡ true
    → (front rest : Text) × (s ≡ front ++ rest) × (str_len front ≡ n) × (slice_to s n ≡ some front)
unfolding is_char_boundary slice_to str_len
front_of_boundary s zero h = ([], s, refl, refl, refl)
front_of_boundary [] (suc n) h = absurd (ground arith)
front_of_boundary (c ∷ s) (suc n) h =
    let (fits, at) = boundary-cons c s n h in
    let (front, rest, split, size, slice) = front_of_boundary s (suc n - len_utf8 c) at in
    (
      c ∷ front,
      rest,
      ap (◌∷◌ c) split,
      omega arith,
      rw (le→leb (len_utf8 c) (suc n) fits, slice_to) (rw slice),
    )

last_step :
    (s : Text) (end m : ℕ) {found : ℕ}
    → is_char_boundary s (suc end) ≡ false
    → ((k : ℕ) → found < k → k ≤ end → is_char_boundary s k ≡ false)
    → found < m
    → m ≤ suc end
    → is_char_boundary s m ≡ false
last_step s end m not_here last p q = elim (ℕ_discrete m (suc end)) [
  | yes e ↦ rw e not_here
  | no n ↦ last m p (omega arith)
]

-- The loop stops at the last boundary.
floor_boundary_last :
    (s : Text) (end : ℕ)
    → (floor_boundary s end ≤ end)
      × (is_char_boundary s (floor_boundary s end) ≡ true)
      × ((m : ℕ) → floor_boundary s end < m → m ≤ end → is_char_boundary s m ≡ false)
unfolding floor_boundary str_len
floor_boundary_last s zero = (omega arith, boundary_of_front [] s, λ m p q. absurd (omega arith))
floor_boundary_last s (suc end) = elim (Bool-cases (is_char_boundary s (suc end))) [
  | inl here ↦ rw (here, floor_boundary) (omega arith, here, λ m p q. absurd (omega arith))
  | inr not_here ↦
      let (below, at, last) = floor_boundary_last s end in
      rw (not_here, floor_boundary) (omega arith, at, λ m p q. last_step s end m not_here last p q)
]

-- Nothing more fits: the rest is empty, or its first character would pass the limit.
abbrev pub IsMaximal : Text → Text → Type 0
IsMaximal front [] = Unit
IsMaximal front (c ∷ rest) = max_discovery_name_bytes < str_len front + len_utf8 c

next_boundary :
    (s front rest : Text) (c : ℕ)
    → s ≡ front ++ c ∷ rest
    → is_char_boundary s (str_len (front ++ c ∷ [])) ≡ true
next_boundary s front rest c split =
    rw split (rw (append_assoc front (c ∷ []) rest) at (boundary_of_front (front ++ c ∷ []) rest))

cut-IsMaximal :
    (s front rest : Text) (found : ℕ)
    → s ≡ front ++ rest
    → str_len front ≡ found
    → ((m : ℕ)
        → found < m
        → m ≤ min (str_len s) max_discovery_name_bytes
        → is_char_boundary s m ≡ false)
    → IsMaximal front rest
unfolding str_len
cut-IsMaximal s front [] found split size last = tt
cut-IsMaximal s front (c ∷ rest) found split size last =
    elim (dec_lt max_discovery_name_bytes (str_len front + len_utf8 c)) [
      | yes over ↦ over
      | no fits ↦
          let more = str_len-append front (c ∷ []) in
          let whole = ap str_len split ∙ str_len-append front (c ∷ rest) in
          let (positive, _) = len_utf8_bounds c in
          absurd (
            false≢true (
              sym (last (str_len (front ++ c ∷ [])) (omega arith) (omega arith))
              ∙ next_boundary s front rest c split))
    ]

-- A cut of any name: a front part within the limit that no further character fits.
cut :
    (name : DeviceName)
    → (hint : DiscoveryNameHint) × (rest : Text) × (from_device_name name ≡ some hint)
      × (name.value ≡ hint.value ++ rest)
      × (str_len hint.value ≤ max_discovery_name_bytes)
      × IsMaximal hint.value rest
unfolding from_device_name
cut name =
    let end = min (str_len name.value) max_discovery_name_bytes in
    let (below, at, last) = floor_boundary_last name.value end in
    let (front, rest, split, size, slice) =
      front_of_boundary name.value (floor_boundary name.value end) at in
    (
      record { value = front },
      rest,
      rw slice,
      split,
      omega arith,
      cut-IsMaximal name.value front rest _ split size last,
    )

trimmed_shorter : (c : ℕ) (s : Text) → is_whitespace c ≡ true → length (trim (c ∷ s)) ≤ length s
unfolding trim
trimmed_shorter c s h = rw (h, trim_start) (length-trim s)

starts_solid : (c : ℕ) (s : Text) → trim (c ∷ s) ≡ c ∷ s → is_whitespace c ≡ false
starts_solid c s h = elim (Bool-cases (is_whitespace c)) [
  | inl blank ↦ absurd (omega (arith, ap length h, trimmed_shorter c s blank))
  | inr solid ↦ solid
]

trim_keeps : (c : ℕ) (s : Text) → is_whitespace c ≡ false → is_empty (trim (c ∷ s)) ≡ false
unfolding trim
trim_keeps c s h = ground arith

any-front : (p : ℕ → Bool) (s t : Text) → any p (s ++ t) ≡ false → any p s ≡ false
any-front p [] t h = refl
any-front p (c ∷ s) t h = ground (arith, any-front p s t)

accepted :
    (front rest : Text)
    → IsValid (record { value = front ++ rest })
    → str_len front ≤ max_discovery_name_bytes
    → IsMaximal front rest
    → new front ≡ ok (record { value = front })
unfolding new str_len
accepted [] [] v fits last = cc (v.present)
accepted [] (c ∷ rest) v fits last = absurd (omega (arith, len_utf8_bounds c))
accepted (c ∷ front) rest v fits last = ground (
  arith,
  trim_keeps c front (starts_solid c (front ++ rest) v.trimmed),
  any-front is_control (c ∷ front) rest v.printable,
)

-- From a valid device name the hint is a front part of at most 96 bytes that no further character
-- of the name would fit into, DiscoveryNameHint::new accepts it, and the slice does not panic.
pub from_device_name_cuts :
    (name : DeviceName)
    → IsValid name
    → (hint : DiscoveryNameHint) × (rest : Text) × (from_device_name name ≡ some hint)
      × (name.value ≡ hint.value ++ rest)
      × (str_len hint.value ≤ max_discovery_name_bytes)
      × IsMaximal hint.value rest
      × (new hint.value ≡ ok hint)
from_device_name_cuts name v =
    let (hint, rest, made, split, fits, last) = cut name in
    (hint, rest, made, split, fits, last, accepted hint.value rest (rw split at v) fits last)
