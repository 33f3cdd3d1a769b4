-- ===== src/Discovery/NameHint.antt =====
-- `DiscoveryNameHint` of discovery.rs.
pub mod Truncate
use mathlib.Core.Option
use local_transfer.Prelude.{
  ℕ, zero, suc, ◌-◌, Bool, true, false, ltb, leb, ◌==◌, if◌then◌else◌, min, any, [], ◌∷◌, Option,
  none, some, Result, ok, err,
}
use local_transfer.Text.{Text, is_control, is_empty, str_len, len_utf8}
use local_transfer.Text.Trim.{trim}
use local_transfer.DeviceName.{DeviceName}

abbrev pub max_discovery_name_bytes : ℕ
max_discovery_name_bytes = 96

pub record DiscoveryNameHint : Type 0 where
  pub value : Text

pub data DiscoveryNameHintError : Type 0 where
  empty control_character : DiscoveryNameHintError
  too_long : ℕ → ℕ → DiscoveryNameHintError

unfoldable pub new : Text → Result DiscoveryNameHintError DiscoveryNameHint
new value =
    if ltb max_discovery_name_bytes (str_len value)
    then err (too_long (str_len value) max_discovery_name_bytes)
    else if is_empty (trim value)
    then err empty
    else if any is_control value
    then err control_character
    else ok (record { value = value })

-- `str::is_char_boundary`
unfoldable pub is_char_boundary : Text → ℕ → Bool
is_char_boundary [] n = n == 0
is_char_boundary (c ∷ s) n =
    let rest = is_char_boundary s (n - len_utf8 c) in
    if n == 0 then true else if ltb n (len_utf8 c) then false else rest

-- `while !value.is_char_boundary(end) { end -= 1; }`
unfoldable pub floor_boundary : Text → ℕ → ℕ
floor_boundary s zero = zero
floor_boundary s (suc end) = elim (is_char_boundary s (suc end)) [
  | true ↦ suc end
  | false ↦ floor_boundary s end
]

-- `value[..end]`, which panics (`none`) where `end` is no boundary.
unfoldable pub slice_to : Text → ℕ → Option Text
slice_to s zero = some []
slice_to [] (suc end) = none
slice_to (c ∷ s) (suc end) = elim (leb (len_utf8 c) (suc end)) [
  | true ↦ Option.map (λ front. c ∷ front) (slice_to s (suc end - len_utf8 c))
  | false ↦ none
]

-- `none` would be a panic of the slice.
unfoldable pub from_device_name : DeviceName → Option DiscoveryNameHint
unfolding floor_boundary is_char_boundary slice_to
from_device_name name =
    let end = min (str_len name.value) max_discovery_name_bytes in
    Option.map (λ front. record { value = front })
      (slice_to name.value (floor_boundary name.value end))
