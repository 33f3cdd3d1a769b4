-- ===== src/DeviceName.antt =====
-- `DeviceName` of crates/local-transfer-core/src/device_name.rs: the validated display name.
pub mod Laws
pub mod Store
use local_transfer.Prelude.{ℕ, Bool, ltb, if◌then◌else◌, any, length, Result, ok, err}
use local_transfer.Text.{Text, codes, is_control, is_empty}
use local_transfer.Text.Trim.{trim}

abbrev pub default_device_name : Text
default_device_name = codes "Local Device"

abbrev pub max_device_name_chars : ℕ
max_device_name_chars = 64

pub record DeviceName : Type 0 where
  pub value : Text

pub data DeviceNameValidationError : Type 0 where
  empty : DeviceNameValidationError
  too_long : ℕ → DeviceNameValidationError
  control_character : DeviceNameValidationError

unfoldable pub new : Text → Result DeviceNameValidationError DeviceName
new value =
    if any is_control value
    then err control_character
    else (let normalized = trim value in
        if is_empty normalized
        then err empty
        else if ltb max_device_name_chars (length normalized)
        then err (too_long max_device_name_chars)
        else ok (record { value = normalized }))

abbrev pub default : DeviceName
default = record { value = default_device_name }
