-- ===== src/DeviceName/Laws.antt =====
-- What `DeviceName::new` of device_name.rs accepts, and what it makes of it.
use local_transfer.Prelude.{◌≤◌, ◌≡◌, refl, false, any, length, ok, arith, ◌↔◌}
use local_transfer.Text.{Text, is_control, is_whitespace, is_empty}
use local_transfer.Text.Trim.{trim, trim-trim, any-trim}
use local_transfer.DeviceName.{DeviceName, default, new, max_device_name_chars}

pub record IsValid (n : DeviceName) : Type 0 where
  pub printable : any is_control n.value ≡ false
  pub trimmed : trim n.value ≡ n.value
  pub present : is_empty n.value ≡ false
  pub short : length n.value ≤ max_device_name_chars

-- An accepted name is valid.
pub new-IsValid : (value : Text) (n : DeviceName) → new value ≡ ok n → IsValid n
unfolding new
new-IsValid value n h = ground (arith, any-trim is_control value, trim-trim value)

-- A valid name is accepted as it is.
pub new_of_IsValid : (n : DeviceName) → IsValid n → new n.value ≡ ok n
unfolding new
new_of_IsValid n v = ground arith

-- DeviceName::new accepts exactly the texts without control characters that, trimmed, are not
-- empty and have at most 64 characters, and gives the trimmed text.
pub new_iff :
    (value : Text) (n : DeviceName)
    → (new value ≡ ok n) ↔ ((any is_control value ≡ false) × (n.value ≡ trim value) × IsValid n)
unfolding new
new_iff value n = (
  λ h. (ground arith, ground arith, new-IsValid value n h),
  λ (p, e, v). ground (arith, v.present, v.short),
)

pub default-IsValid : IsValid default
unfolding is_control trim is_whitespace
default-IsValid = record { printable = refl; trimmed = refl; present = refl; short = omega arith }
