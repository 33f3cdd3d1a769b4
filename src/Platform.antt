-- ===== src/Platform.antt =====
-- crates/local-transfer-core/src/platform.rs
use local_transfer.Prelude.{◌≡◌, refl, Result, ok, err, ite, arith, ℕ_discrete}
use local_transfer.Text.{Text, Text-discrete, codes}

pub data Platform : Type 0 where
  mac_os windows linux : Platform

pub record UnsupportedPlatformError : Type 0 where
  pub target_os : Text

abbrev pub as_str : Platform → Text
as_str mac_os = codes "macos"
as_str windows = codes "windows"
as_str linux = codes "linux"

unfoldable pub from_target_os : Text → Result UnsupportedPlatformError Platform
from_target_os target_os = ite (Text-discrete target_os (codes "macos")) (ok mac_os) (
    ite (Text-discrete target_os (codes "windows")) (ok windows) (
      ite (Text-discrete target_os (codes "linux")) (ok linux)
        (err (record { target_os = target_os }))))

-- The accepted targets are exactly the printed names.
pub from_target_os-as_str : (p : Platform) → from_target_os (as_str p) ≡ ok p
unfolding from_target_os Text-discrete ℕ_discrete
from_target_os-as_str mac_os = refl
from_target_os-as_str windows = refl
from_target_os-as_str linux = refl

pub as_str-from_target_os : (t : Text) (p : Platform) → from_target_os t ≡ ok p → as_str p ≡ t
unfolding from_target_os
as_str-from_target_os t p h = ground arith
