-- ===== src/Discovery/Metadata/RoundTrip.antt =====
-- `to_txt_entries` against `from_txt_entries` of discovery.rs.
use mathlib.Core.Option
use local_transfer.Prelude.{
  ℕ, ◌+◌, ◌≤◌, ◌≡◌, refl, Option, none, some, List, [], ◌∷◌, All, All-map, length, arith, ok, err,
  inl, ◌++◌, le→ltb_false, ite_same, Bytes, ℕ_discrete,
}
use local_transfer.Text.{Text, Text-discrete, IsScalar, str_len, eq_ignore_ascii_case, len_utf8}
use local_transfer.Text.Utf8.{
  as_bytes, encode_char, from_utf8-as_bytes, as_bytes_ascii, length-as_bytes,
}
use local_transfer.Text.Decimal.{
  to_string, parse_u16-to_string, to_string_digits, length-to_string, u16_max,
}
use local_transfer.Discovery.Range.{DiscoveryProtocolRange}
use local_transfer.Discovery.Range
use local_transfer.Discovery.NameHint.{DiscoveryNameHint, max_discovery_name_bytes}
use local_transfer.Discovery.NameHint
use local_transfer.Discovery.Metadata.{
  DiscoveryMetadata, DiscoveryPlatformHint, mac_os, windows, linux, parse, hint_as_str,
  to_txt_entries, from_txt_entries, total_size, take_entries, take_entry, no_slots, read_slots,
  parse_required_decimal, parse_optional_name, Slots, DiscoveryTxtEntry, encoded_size,
  saturating_add, malformed_field, name_entries, platform_entries, key_discovery_version,
  key_protocol_min, key_protocol_max,
}

-- What the constructors of the code ensure: a range of `u16` in order, and a hint that
-- `DiscoveryNameHint::new` accepts.
abbrev pub NameIsValid : Option DiscoveryNameHint → Type 0
NameIsValid none = Unit
NameIsValid (some hint) = All IsScalar hint.value × (NameHint.new hint.value ≡ ok hint)

pub record IsValid (m : DiscoveryMetadata) : Type 0 where
  pub ordered : m.protocols.min ≤ m.protocols.max
  pub narrow : m.protocols.max ≤ u16_max
  pub named : NameIsValid m.name

parse_decimal :
    (n : ℕ) (key : Text) → n ≤ u16_max → parse_required_decimal (as_bytes (to_string n)) key ≡ ok n
unfolding parse_required_decimal
parse_decimal n key h =
    rw
      (
        from_utf8-as_bytes (to_string n)
            (All-map (to_string n) (λ c d. inl (omega arith)) (to_string_digits n)),
        parse_u16-to_string n h,
      )
      (ite_same Text-discrete (to_string n) (ok n) (err (malformed_field key)))

parse-hint_as_str : (p : DiscoveryPlatformHint) → parse (as_bytes (hint_as_str p)) ≡ some p
unfolding parse as_bytes Text-discrete ℕ_discrete encode_char
parse-hint_as_str mac_os = refl
parse-hint_as_str windows = refl
parse-hint_as_str linux = refl

abbrev slots_of : DiscoveryMetadata → Slots
slots_of m = record {
  discovery_version = some (as_bytes (to_string 1));
  protocol_min = some (as_bytes (to_string m.protocols.min));
  protocol_max = some (as_bytes (to_string m.protocols.max));
  name = Option.map (λ n. as_bytes n.value) m.name;
  platform = Option.map (λ p. as_bytes (hint_as_str p)) m.platform;
}

-- The entries after the first three, whatever those gave.
take_optional :
    (n : Option DiscoveryNameHint) (p : Option DiscoveryPlatformHint) (v a b : Bytes)
    → take_entries (name_entries n ++ platform_entries p) (record {
      discovery_version = some v;
      protocol_min = some a;
      protocol_max = some b;
      name = none;
      platform = none;
    })
      ≡ ok (record {
        discovery_version = some v;
        protocol_min = some a;
        protocol_max = some b;
        name = Option.map (λ n. as_bytes n.value) n;
        platform = Option.map (λ p. as_bytes (hint_as_str p)) p;
      })
unfolding take_entries take_entry eq_ignore_ascii_case
take_optional none none v a b = refl
take_optional none (some p) v a b = refl
take_optional (some n) none v a b = refl
take_optional (some n) (some p) v a b = refl

take_emitted : (m : DiscoveryMetadata) → take_entries (to_txt_entries m) no_slots ≡ ok (slots_of m)
unfolding take_entries take_entry to_txt_entries eq_ignore_ascii_case
take_emitted m = take_optional m.name m.platform _ _ _

read_name :
    (n : Option DiscoveryNameHint)
    → NameIsValid n
    → Option.bind (Option.map (λ n. as_bytes n.value) n) parse_optional_name ≡ n
unfolding parse_optional_name Option.bind
read_name none v = refl
read_name (some n) v = rw (from_utf8-as_bytes n.value v.0) (rw v.1)

read_platform :
    (p : Option DiscoveryPlatformHint)
    → Option.bind (Option.map (λ p. as_bytes (hint_as_str p)) p) parse ≡ p
unfolding Option.bind
read_platform none = refl
read_platform (some p) = parse-hint_as_str p

range_new : (r : DiscoveryProtocolRange) → r.min ≤ r.max → Range.new r.min r.max ≡ ok r
unfolding Range.new
range_new r h = rw (le→ltb_false r.max r.min h)

read_slots_of : (m : DiscoveryMetadata) → IsValid m → read_slots (slots_of m) ≡ ok m
unfolding read_slots
read_slots_of m v = rw (
  parse_decimal 1 key_discovery_version (omega arith),
  parse_decimal m.protocols.min key_protocol_min (omega (arith, v)),
  parse_decimal m.protocols.max key_protocol_max v.narrow,
  range_new m.protocols v.ordered,
  read_name m.name v.named,
  read_platform m.platform,
)

sizes : List DiscoveryTxtEntry → ℕ
sizes [] = 0
sizes (entry ∷ entries) = encoded_size entry + sizes entries

total_size-le :
    (entries : List DiscoveryTxtEntry) (total : ℕ)
    → total_size entries total ≤ total + sizes entries
unfolding total_size sizes
total_size-le [] total = omega arith
total_size-le (entry ∷ entries) total =
    ground (arith, total_size-le entries (saturating_add total (encoded_size entry)))

printed_length : (n : ℕ) → length (as_bytes (to_string n)) ≤ 5
printed_length n =
    rw
      (as_bytes_ascii (to_string n)
        (All-map (to_string n) (λ c d. omega arith) (to_string_digits n)))
      (length-to_string n)

hint_length : (n : DiscoveryNameHint) → NameHint.new n.value ≡ ok n → length (as_bytes n.value) ≤ 96
unfolding NameHint.new
hint_length n h = ground (arith, length-as_bytes n.value)

platform_length : (p : DiscoveryPlatformHint) → length (as_bytes (hint_as_str p)) ≤ 7
unfolding as_bytes encode_char
platform_length mac_os = omega arith
platform_length windows = omega arith
platform_length linux = omega arith

sizes_optional :
    (n : Option DiscoveryNameHint) (p : Option DiscoveryPlatformHint)
    → NameIsValid n
    → sizes (name_entries n ++ platform_entries p) ≤ 113
unfolding sizes str_len len_utf8
sizes_optional none none v = omega arith
sizes_optional none (some p) v = omega (arith, platform_length p)
sizes_optional (some n) none v = omega (arith, hint_length n v.1)
sizes_optional (some n) (some p) v = omega (arith, hint_length n v.1, platform_length p)

sizes-to_txt_entries : (m : DiscoveryMetadata) → IsValid m → sizes (to_txt_entries m) ≤ 512
unfolding to_txt_entries sizes str_len len_utf8
sizes-to_txt_entries m v = omega (
  arith,
  sizes_optional m.name m.platform v.named,
  printed_length 1,
  printed_length m.protocols.min,
  printed_length m.protocols.max,
)

pub small_entries : (m : DiscoveryMetadata) → IsValid m → total_size (to_txt_entries m) 0 ≤ 512
small_entries m v = omega (arith, total_size-le (to_txt_entries m) 0, sizes-to_txt_entries m v)

-- Metadata whose range is of u16 in order, and whose name, if any, is text that the name hint
-- accepts, is read back from the TXT entries that it emits.
pub from_txt_entries-to_txt_entries :
    (m : DiscoveryMetadata) → IsValid m → from_txt_entries (to_txt_entries m) ≡ ok m
unfolding from_txt_entries
from_txt_entries-to_txt_entries m v =
    rw (le→ltb_false 512 (total_size (to_txt_entries m) 0) (small_entries m v), take_emitted m)
      (read_slots_of m v)
