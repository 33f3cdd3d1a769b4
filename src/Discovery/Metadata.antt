-- ===== src/Discovery/Metadata.antt =====
-- `DiscoveryPlatformHint`, `DiscoveryTxtEntry` and `DiscoveryMetadata` of discovery.rs. Sizes are
-- `usize` on a 64-bit target.
pub mod RoundTrip
pub mod Selection
use mathlib.Core.Option
use local_transfer.Prelude.{
  ℕ, zero, suc, ◌+◌, ◌-◌, ◌^◌, ◌≤◌, Bool, true, false, not, ◌&&◌, ◌||◌, ltb, leb, ◌==◌,
  if◌then◌else◌, List, [], ◌∷◌, ◌++◌, Option, none, some, all, length, Bytes, ite, Result, ok, err,
  ◌>>=◌, ok_or, map_err, to_option,
}
use local_transfer.Text.{Text, Text-discrete, codes, is_empty, str_len, eq_ignore_ascii_case}
use local_transfer.Text.Utf8.{as_bytes, from_utf8}
use local_transfer.Text.Decimal.{to_string, parse_u16}
use local_transfer.Platform.{Platform}
use local_transfer.Platform
use local_transfer.Discovery.Range.{DiscoveryProtocolRange, DiscoveryProtocolRangeError}
use local_transfer.Discovery.Range
use local_transfer.Discovery.NameHint.{DiscoveryNameHint}
use local_transfer.Discovery.NameHint

abbrev pub discovery_schema_version : ℕ
discovery_schema_version = 1

abbrev pub max_discovery_txt_bytes : ℕ
max_discovery_txt_bytes = 512

abbrev pub max_discovery_txt_entry_bytes : ℕ
max_discovery_txt_entry_bytes = 255

abbrev pub key_discovery_version : Text
key_discovery_version = codes "dv"

abbrev pub key_protocol_min : Text
key_protocol_min = codes "pmin"

abbrev pub key_protocol_max : Text
key_protocol_max = codes "pmax"

abbrev pub key_name : Text
key_name = codes "name"

abbrev pub key_platform : Text
key_platform = codes "os"

pub data DiscoveryPlatformHint : Type 0 where
  mac_os windows linux : DiscoveryPlatformHint

abbrev pub hint_as_str : DiscoveryPlatformHint → Text
hint_as_str mac_os = codes "macos"
hint_as_str windows = codes "windows"
hint_as_str linux = codes "linux"

unfoldable pub parse : Bytes → Option DiscoveryPlatformHint
parse value = ite (Text-discrete value (codes "macos")) (some mac_os) (
    ite (Text-discrete value (codes "windows")) (some windows)
      (ite (Text-discrete value (codes "linux")) (some linux) none))

-- `From<Platform>`
abbrev pub from_platform : Platform → DiscoveryPlatformHint
from_platform Platform.mac_os = mac_os
from_platform Platform.windows = windows
from_platform Platform.linux = linux

pub data DiscoveryMetadataError : Type 0 where
  invalid_txt_key : DiscoveryMetadataError
  txt_entry_too_large : ℕ → ℕ → DiscoveryMetadataError
  total_metadata_too_large : ℕ → ℕ → DiscoveryMetadataError
  missing_field : Text → DiscoveryMetadataError
  duplicate_known_key : Text → DiscoveryMetadataError
  malformed_field : Text → DiscoveryMetadataError
  unsupported_schema_version : ℕ → DiscoveryMetadataError
  invalid_protocol_range : DiscoveryProtocolRangeError → DiscoveryMetadataError

pub record DiscoveryTxtEntry : Type 0 where
  pub key : Text
  pub value : Bytes

abbrev pub usize_max : ℕ
usize_max = 2 ^ 64 - 1

-- `usize::saturating_add`
abbrev pub saturating_add : ℕ → ℕ → ℕ
saturating_add a b = if ltb usize_max (a + b) then usize_max else a + b

-- The key is text, and its bytes are tested: printable ASCII but `=`.
unfoldable pub new_entry : Text → Bytes → Result DiscoveryMetadataError DiscoveryTxtEntry
new_entry key value =
    if is_empty key
      || not (all (λ byte. (leb 0x20 byte && leb byte 0x7e) && not (byte == b'=')) (as_bytes key))
    then err invalid_txt_key
    else (let size = saturating_add (saturating_add (str_len key) 1) (length value) in
        if ltb max_discovery_txt_entry_bytes size
        then err (txt_entry_too_large size max_discovery_txt_entry_bytes)
        else ok (record { key = key; value = value }))

abbrev pub encoded_size : DiscoveryTxtEntry → ℕ
encoded_size entry = 1 + str_len entry.key + 1 + length entry.value

abbrev pub emitted : Text → Bytes → DiscoveryTxtEntry
emitted key value = record { key = key; value = value }

pub record DiscoveryMetadata : Type 0 where
  pub protocols : DiscoveryProtocolRange
  pub name : Option DiscoveryNameHint
  pub platform : Option DiscoveryPlatformHint

-- The entries that `if let Some(…)` pushes.
abbrev pub name_entries : Option DiscoveryNameHint → List DiscoveryTxtEntry
name_entries none = []
name_entries (some name) = emitted key_name (as_bytes name.value) ∷ []

abbrev pub platform_entries : Option DiscoveryPlatformHint → List DiscoveryTxtEntry
platform_entries none = []
platform_entries (some platform) = emitted key_platform (as_bytes (hint_as_str platform)) ∷ []

unfoldable pub to_txt_entries : DiscoveryMetadata → List DiscoveryTxtEntry
to_txt_entries m =
    emitted key_discovery_version (as_bytes (to_string discovery_schema_version))
    ∷ emitted key_protocol_min (as_bytes (to_string m.protocols.min))
    ∷ emitted key_protocol_max (as_bytes (to_string m.protocols.max))
    ∷ (name_entries m.name ++ platform_entries m.platform)

unfoldable pub total_size : List DiscoveryTxtEntry → ℕ → ℕ
total_size [] total = total
total_size (entry ∷ entries) total = total_size entries (saturating_add total (encoded_size entry))

-- The five variables of the loop.
pub record Slots : Type 0 where
  pub discovery_version : Option Bytes
  pub protocol_min : Option Bytes
  pub protocol_max : Option Bytes
  pub name : Option Bytes
  pub platform : Option Bytes

abbrev pub no_slots : Slots
no_slots = record {
  discovery_version = none;
  protocol_min = none;
  protocol_max = none;
  name = none;
  platform = none;
}

unfoldable pub set_once : Option Bytes → Bytes → Text → Result DiscoveryMetadataError (Option Bytes)
set_once none value key = ok (some value)
set_once (some old) value key = err (duplicate_known_key key)

-- The body of the loop.
unfoldable pub take_entry : Slots → DiscoveryTxtEntry → Result DiscoveryMetadataError Slots
unfolding set_once
take_entry s entry =
    if eq_ignore_ascii_case entry.key key_discovery_version
    then (do
      v ← set_once s.discovery_version entry.value key_discovery_version
      ok (record s { discovery_version = v }))
    else if eq_ignore_ascii_case entry.key key_protocol_min
    then (do
      v ← set_once s.protocol_min entry.value key_protocol_min
      ok (record s { protocol_min = v }))
    else if eq_ignore_ascii_case entry.key key_protocol_max
    then (do
      v ← set_once s.protocol_max entry.value key_protocol_max
      ok (record s { protocol_max = v }))
    else if eq_ignore_ascii_case entry.key key_name
    then (do v ← set_once s.name entry.value key_name; ok (record s { name = v }))
    else if eq_ignore_ascii_case entry.key key_platform
    then (do v ← set_once s.platform entry.value key_platform; ok (record s { platform = v }))
    else ok s

unfoldable pub take_entries : List DiscoveryTxtEntry → Slots → Result DiscoveryMetadataError Slots
take_entries [] s = ok s
take_entries (entry ∷ entries) s = elim (take_entry s entry) [
  | ok t ↦ take_entries entries t
  | err e ↦ err e
]

unfoldable pub parse_required_decimal : Bytes → Text → Result DiscoveryMetadataError ℕ
parse_required_decimal value key = do
  text ← ok_or (from_utf8 value) (malformed_field key)
  parsed ← ok_or (parse_u16 text) (malformed_field key)
  ite (Text-discrete (to_string parsed) text) (ok parsed) (err (malformed_field key))

unfoldable pub parse_optional_name : Bytes → Option DiscoveryNameHint
parse_optional_name value = Option.bind (from_utf8 value) λ text. to_option (NameHint.new text)

-- What follows the loop.
unfoldable pub read_slots : Slots → Result DiscoveryMetadataError DiscoveryMetadata
read_slots s = do
  raw_version ← ok_or s.discovery_version (missing_field key_discovery_version)
  version ← parse_required_decimal raw_version key_discovery_version
  if not (version == discovery_schema_version) then err (unsupported_schema_version version) else do
    raw_min ← ok_or s.protocol_min (missing_field key_protocol_min)
    min ← parse_required_decimal raw_min key_protocol_min
    raw_max ← ok_or s.protocol_max (missing_field key_protocol_max)
    max ← parse_required_decimal raw_max key_protocol_max
    protocols ← map_err invalid_protocol_range (Range.new min max)
    ok (record {
      protocols = protocols;
      name = Option.bind s.name parse_optional_name;
      platform = Option.bind s.platform parse;
    })

unfoldable pub from_txt_entries :
    List DiscoveryTxtEntry → Result DiscoveryMetadataError DiscoveryMetadata
from_txt_entries entries =
    if ltb max_discovery_txt_bytes (total_size entries 0)
    then err (total_metadata_too_large (total_size entries 0) max_discovery_txt_bytes)
    else (do s ← take_entries entries no_slots; read_slots s)
