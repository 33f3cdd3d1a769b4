-- ===== src/Discovery/Metadata/Selection.antt =====
-- What `DiscoveryMetadata::from_txt_entries` of discovery.rs makes of entries that others sent.
use mathlib.Core.Option
use local_transfer.Prelude.{
  ℕ, ◌≤◌, ◌≡◌, inl, inr, Bool, false, ◌||◌, Option, none, some, List, [], ◌∷◌, ◌++◌, arith, ok,
  Result-cases, Option-cases, Bytes, le→ltb_false,
}
use local_transfer.Text.{Text, eq_ignore_ascii_case}
use local_transfer.Text.Utf8.{from_utf8}
use local_transfer.Text.Decimal.{parse_u16-le, u16_max}
use local_transfer.Discovery.Range
use local_transfer.Discovery.Range.{DiscoveryProtocolRange}
use local_transfer.Discovery.NameHint
use local_transfer.Discovery.NameHint.{DiscoveryNameHint}
use local_transfer.Discovery.Metadata.{
  DiscoveryMetadata, DiscoveryTxtEntry, Slots, from_txt_entries, take_entries, take_entry, no_slots,
  read_slots, parse_required_decimal, parse_optional_name, key_discovery_version, key_protocol_min,
  key_protocol_max, key_name, key_platform, total_size, saturating_add, encoded_size, usize_max,
  max_discovery_txt_bytes,
}

-- A hint that `DiscoveryNameHint::new` accepts.
abbrev pub NameIsAccepted : Option DiscoveryNameHint → Type 0
NameIsAccepted none = Unit
NameIsAccepted (some hint) = NameHint.new hint.value ≡ ok hint

optional_name-IsAccepted : (value : Bytes) → NameIsAccepted (parse_optional_name value)
unfolding parse_optional_name Option.bind NameHint.new
optional_name-IsAccepted value = ground arith

decimal-le :
    (value : Bytes) (key : Text) (n : ℕ) → parse_required_decimal value key ≡ ok n → n ≤ u16_max
unfolding parse_required_decimal
decimal-le value key n h = elim (Option-cases (from_utf8 value)) [
  | inl bad ↦ absurd (ground arith)
  | inr (text, e) ↦ ground (arith, parse_u16-le text n)
]

bind_name-IsAccepted : (o : Option Bytes) → NameIsAccepted (Option.bind o parse_optional_name)
unfolding Option.bind
bind_name-IsAccepted none = tt
bind_name-IsAccepted (some value) = optional_name-IsAccepted value

read_slots_sound :
    (s : Slots) (m : DiscoveryMetadata)
    → read_slots s ≡ ok m
    → (m.protocols.min ≤ m.protocols.max) × (m.protocols.max ≤ u16_max) × NameIsAccepted m.name
unfolding read_slots Range.new
read_slots_sound s m h = grind (arith, decimal-le, bind_name-IsAccepted)

-- Metadata that is read has a range of u16 in order and, if a name, one that the name hint
-- accepts.
pub from_txt_entries_sound :
    (entries : List DiscoveryTxtEntry) (m : DiscoveryMetadata)
    → from_txt_entries entries ≡ ok m
    → (m.protocols.min ≤ m.protocols.max) × (m.protocols.max ≤ u16_max) × NameIsAccepted m.name
unfolding from_txt_entries
from_txt_entries_sound entries m h = elim (Result-cases (take_entries entries no_slots)) [
  | inl (s, e) ↦ read_slots_sound s m (ground arith)
  | inr (why, e) ↦ absurd (ground arith)
]

unfoldable pub is_known : Text → Bool
is_known key =
    eq_ignore_ascii_case key key_discovery_version
    || eq_ignore_ascii_case key key_protocol_min
    || eq_ignore_ascii_case key key_protocol_max
    || eq_ignore_ascii_case key key_name
    || eq_ignore_ascii_case key key_platform

take_entry_unknown :
    (entry : DiscoveryTxtEntry) (s : Slots) → is_known entry.key ≡ false → take_entry s entry ≡ ok s
unfolding take_entry is_known
take_entry_unknown entry s h = ground arith

take_entries_unknown :
    (before after : List DiscoveryTxtEntry) (entry : DiscoveryTxtEntry) (s : Slots)
    → is_known entry.key ≡ false
    → take_entries (before ++ entry ∷ after) s ≡ take_entries (before ++ after) s
unfolding take_entries
take_entries_unknown [] after entry s h = rw (take_entry_unknown entry s h, take_entries)
take_entries_unknown (e ∷ before) after entry s h = elim (Result-cases (take_entry s e)) [
  | inl (t, q) ↦ rw (q, take_entries) (take_entries_unknown before after entry t h)
  | inr (why, q) ↦ rw (q, take_entries)
]

saturating_mono : (a b c : ℕ) → a ≤ b → saturating_add a c ≤ saturating_add b c
saturating_mono a b c h = ground arith

saturating_grows : (a b : ℕ) → a ≤ usize_max → a ≤ saturating_add a b
saturating_grows a b h = ground arith

saturating_bounded : (a b : ℕ) → saturating_add a b ≤ usize_max
saturating_bounded a b = ground arith

total_size_mono :
    (entries : List DiscoveryTxtEntry) (a b : ℕ)
    → a ≤ b
    → total_size entries a ≤ total_size entries b
unfolding total_size
total_size_mono [] a b h = h
total_size_mono (e ∷ entries) a b h =
    total_size_mono entries (saturating_add a (encoded_size e)) (saturating_add b (encoded_size e))
      (saturating_mono a b (encoded_size e) h)

total_size-skip :
    (before after : List DiscoveryTxtEntry) (entry : DiscoveryTxtEntry) (total : ℕ)
    → total ≤ usize_max
    → total_size (before ++ after) total ≤ total_size (before ++ entry ∷ after) total
unfolding total_size
total_size-skip [] after entry total h =
    total_size_mono after total (saturating_add total (encoded_size entry))
      (saturating_grows total (encoded_size entry) h)
total_size-skip (e ∷ before) after entry total h =
    total_size-skip before after entry (saturating_add total (encoded_size e))
      (saturating_bounded total (encoded_size e))

-- An entry under a key that the schema does not name changes nothing, wherever it stands, where
-- the entries with it are within the size limit.
pub from_txt_entries_unknown :
    (before after : List DiscoveryTxtEntry) (entry : DiscoveryTxtEntry)
    → is_known entry.key ≡ false
    → total_size (before ++ entry ∷ after) 0 ≤ max_discovery_txt_bytes
    → from_txt_entries (before ++ entry ∷ after) ≡ from_txt_entries (before ++ after)
unfolding from_txt_entries
from_txt_entries_unknown before after entry h fits =
    let less = total_size-skip before after entry 0 (omega arith) in
    rw (
      le→ltb_false 512 (total_size (before ++ entry ∷ after) 0) fits,
      le→ltb_false 512 (total_size (before ++ after) 0) (omega arith),
      take_entries_unknown before after entry no_slots h,
    )
