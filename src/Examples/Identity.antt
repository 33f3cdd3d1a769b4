-- ===== src/Examples/Identity.antt =====
-- The store of the device identity on a disk that holds one already.
use local_transfer.Prelude.{
  ◌≡◌, ◌≢◌, ◌↔◌, refl, if_pos, true, Bool, ltb, ◌&&◌, ok, All, arith, Option, none, some, ite, ℕ,
  inl, [], ◌∷◌,
}
use local_transfer.Text.{Text, Text-discrete, codes, IsScalar}
use local_transfer.Text.Utf8.{as_bytes}
use local_transfer.FileSystem.{regular, missing, Entry}
use local_transfer.Identity.{UuidText, DeviceIdStore, from_str, load_or_create}
use local_transfer.Identity.Laws.{from_str_iff, load_or_create-same}
use local_transfer.Examples.Disk.{Disk, disk, disk-Documented, disk-entry}

data OneId : Type 0 where
  the_id : OneId

abbrev id_codes : Text
id_codes = codes "67e55044-10b1-426f-9247-bb680e5fe0c8"

unfoldable read_id : Text → Option OneId
read_id s = ite (Text-discrete s id_codes) (some the_id) none

read_id-codes : (id : OneId) → read_id id_codes ≡ some id
unfolding read_id
read_id-codes the_id = if_pos (Text-discrete id_codes id_codes) (refl {a = id_codes}) _ _

unfoldable is_ascii : Text → Bool
is_ascii [] = true
is_ascii (c ∷ s) = ltb c 128 && is_ascii s

is_ascii-IsScalar : (s : Text) → is_ascii s ≡ true → All IsScalar s
unfolding is_ascii
is_ascii-IsScalar [] h = tt
is_ascii-IsScalar (c ∷ s) h = (inl (grind arith), is_ascii-IsScalar s (grind arith))

id_codes-IsScalar : All IsScalar id_codes
unfolding is_ascii
id_codes-IsScalar = is_ascii-IsScalar id_codes refl

instance abbrev one_id : UuidText OneId
one_id = record {
  parse_str = read_id;
  hyphenated = λ i. id_codes;
  version = λ i. 4;
  parse_str-hyphenated = read_id-codes;
  hyphenated-IsScalar = λ i. id_codes-IsScalar;
}

from_str_iff_example : (from_str id_codes ≡ ok the_id) ↔ ((id_codes ≡ id_codes) × (◌≡◌ {A = ℕ} 4 4))
from_str_iff_example = from_str_iff id_codes the_id

abbrev id_store : DeviceIdStore
id_store = record { path = codes "config/device-id"; harden_parent = true }

abbrev used_disk : Disk
used_disk = record { file = regular (as_bytes (codes "67e55044")); temporary = [] }

used_missing : (e : Entry) → e ≡ used_disk.file → e ≢ missing
used_missing e h k = cc

used_disk-full : (disk-Documented id_store.path).entry used_disk ≢ missing
used_disk-full = used_missing _ (disk-entry id_store.path used_disk)

load_or_create-same_example :
    (disk-Documented id_store.path).entry (load_or_create disk id_store the_id used_disk).1
    ≡ (disk-Documented id_store.path).entry used_disk
load_or_create-same_example =
    load_or_create-same disk id_store (disk-Documented id_store.path) the_id used_disk
      used_disk-full
