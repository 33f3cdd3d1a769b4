-- ===== src/Examples/Discovery.antt =====
-- A device "Desk" on Linux that speaks the versions 1 to 3, and what it advertises.
use local_transfer.Prelude.{ℕ, ◌≤◌, ◌≡◌, ◌↔◌, refl, false, some, ok, arith, [], ◌∷◌, ◌++◌, any, inl}
use local_transfer.Text.{
  Text, codes, is_control, str_len, len_utf8, is_whitespace, eq_ignore_ascii_case,
  to_ascii_lowercase,
}
use local_transfer.Text.Trim.{trim, trim_start, trim_end}
use local_transfer.Text.Decimal.{
  to_string, parse_canonical_u16, parse_canonical_u16-to_string, u16_max,
}
use local_transfer.DeviceName
use local_transfer.DeviceName.{DeviceName}
use local_transfer.DeviceName.Laws as Names
use local_transfer.DeviceName.Laws.{new_iff}
use local_transfer.Discovery.Range.{
  DiscoveryProtocolRange, highest_compatible_version, Admits, highest_iff,
}
use local_transfer.Discovery.NameHint
use local_transfer.Discovery.NameHint.{
  DiscoveryNameHint, from_device_name, max_discovery_name_bytes,
}
use local_transfer.Discovery.NameHint.Truncate.{from_device_name_cuts, IsMaximal}
use local_transfer.Discovery.Metadata.{
  DiscoveryMetadata, DiscoveryTxtEntry, linux, to_txt_entries, from_txt_entries, total_size,
  emitted,
}
use local_transfer.Discovery.Metadata.RoundTrip.{IsValid, from_txt_entries-to_txt_entries}
use local_transfer.Discovery.Metadata.Selection.{
  from_txt_entries_sound, from_txt_entries_unknown, NameIsAccepted, is_known,
}

abbrev desk : DeviceName
desk = record { value = codes "Desk" }

desk-IsValid : Names.IsValid desk
unfolding is_control trim trim_start trim_end is_whitespace
desk-IsValid = record { printable = refl; trimmed = refl; present = refl; short = omega arith }

new_iff_example : (DeviceName.new (codes " Desk ") ≡ ok desk) ↔ (
    (any is_control (codes " Desk ") ≡ false)
    × (desk.value ≡ trim (codes " Desk "))
    × Names.IsValid desk)
new_iff_example = new_iff (codes " Desk ") desk

from_device_name_cuts_example :
    (hint : DiscoveryNameHint) × (rest : Text) × (from_device_name desk ≡ some hint)
    × (desk.value ≡ hint.value ++ rest)
    × (str_len hint.value ≤ max_discovery_name_bytes)
    × IsMaximal hint.value rest
    × (NameHint.new hint.value ≡ ok hint)
from_device_name_cuts_example = from_device_name_cuts desk desk-IsValid

abbrev ours : DiscoveryProtocolRange
ours = record { min = 1; max = 3 }

abbrev theirs : DiscoveryProtocolRange
theirs = record { min = 2; max = 5 }

highest_iff_example :
    (highest_compatible_version ours theirs ≡ some 3)
    ↔ (Admits ours 3 × Admits theirs 3 × ((w : ℕ) → Admits ours w → Admits theirs w → w ≤ 3))
highest_iff_example = highest_iff ours theirs 3

abbrev pub described : DiscoveryMetadata
described = record {
  protocols = ours;
  name = some (record { value = codes "Desk" });
  platform = some linux;
}

pub described-IsValid : IsValid described
unfolding NameHint.new is_control str_len len_utf8 trim trim_start trim_end is_whitespace
described-IsValid = record {
  ordered = omega arith;
  narrow = omega arith;
  named = (
    (inl (omega arith), (inl (omega arith), (inl (omega arith), (inl (omega arith), tt)))),
    refl,
  );
}

from_txt_entries-to_txt_entries_example : from_txt_entries (to_txt_entries described) ≡ ok described
from_txt_entries-to_txt_entries_example =
    from_txt_entries-to_txt_entries described described-IsValid

from_txt_entries_sound_example : (1 ≤ 3) × (3 ≤ u16_max) × NameIsAccepted described.name
from_txt_entries_sound_example =
    from_txt_entries_sound (to_txt_entries described) described
      from_txt_entries-to_txt_entries_example

abbrev version : DiscoveryTxtEntry
version = emitted (codes "dv") (codes "1")

abbrev extra : DiscoveryTxtEntry
extra = emitted (codes "color") (codes "red")

from_txt_entries_unknown_example :
    from_txt_entries (version ∷ extra ∷ version ∷ []) ≡ from_txt_entries (version ∷ version ∷ [])
unfolding is_known eq_ignore_ascii_case to_ascii_lowercase total_size str_len len_utf8
from_txt_entries_unknown_example =
    from_txt_entries_unknown (version ∷ []) (version ∷ []) extra refl (omega arith)

parse_canonical_u16-to_string_example : parse_canonical_u16 (to_string 443) ≡ some 443
parse_canonical_u16-to_string_example = parse_canonical_u16-to_string 443 (omega arith)
