-- ===== src/Examples/Names.antt =====
-- The store of the device name on a disk that holds one name already.
use local_transfer.Prelude.{ap, length, ◌≡◌, ◌≢◌, ◌⊎◌, refl, inl, true, ok, All, arith, []}
use local_transfer.Text.{codes, IsScalar, is_control, is_whitespace}
use local_transfer.Text.Trim.{trim}
use local_transfer.Text.Utf8.{as_bytes}
use local_transfer.FileSystem.{regular, missing, Entry}
use local_transfer.DeviceName.{new}
use local_transfer.DeviceName.Store.{DeviceNameStore, load_or_create, update}
use local_transfer.DeviceName.Store.Laws.{load_or_create-kept, update_outcome, Rejected, Accepted}
use local_transfer.DeviceName.Store.Working.{load_or_create-update}
use local_transfer.Examples.Disk.{
  Disk, disk, disk-Documented, disk-entry, disk-Working, disk-sound, directory_path,
}

abbrev name_store : DeviceNameStore
name_store = record { path = codes "config/device-name"; harden_parent = true }

abbrev old_disk : Disk
old_disk = record { file = regular (as_bytes (codes "Old name")); temporary = [] }

regular_missing : (e : Entry) → e ≡ old_disk.file → e ≢ missing
regular_missing e h k = cc

old_disk-full : (disk-Documented name_store.path).entry old_disk ≢ missing
old_disk-full = regular_missing _ (disk-entry name_store.path old_disk)

load_or_create-kept_example :
    (disk-Documented name_store.path).entry (load_or_create disk name_store old_disk).1
    ≡ (disk-Documented name_store.path).entry old_disk
load_or_create-kept_example =
    load_or_create-kept disk name_store (disk-Documented name_store.path) old_disk old_disk-full

update_outcome_example :
    Rejected disk name_store (disk-Documented name_store.path) (codes "Ada") old_disk
    ⊎ Accepted disk name_store (disk-Documented name_store.path) (codes "Ada") old_disk
update_outcome_example =
    update_outcome disk name_store (disk-Documented name_store.path) (codes "Ada") old_disk

ada_accepted : new (codes "Ada") ≡ ok (record { value = codes "Ada" })
unfolding new is_control is_whitespace trim
ada_accepted = refl

ada-IsScalar : All IsScalar (codes "Ada")
ada-IsScalar = (inl (omega arith), (inl (omega arith), (inl (omega arith), tt)))

apart : name_store.path ≢ directory_path
apart h = absurd (omega (arith, ap length h))

load_or_create-update_example :
    ((update disk name_store (codes "Ada") old_disk).0 ≡ ok (record { value = codes "Ada" }))
    × ((load_or_create disk name_store (update disk name_store (codes "Ada") old_disk).1).0
        ≡ ok (record { value = codes "Ada" }))
load_or_create-update_example =
    load_or_create-update disk name_store (disk-Documented name_store.path)
      (disk-Working name_store.path apart) (codes "Ada") (record { value = codes "Ada" }) old_disk
      ada-IsScalar ada_accepted (disk-sound name_store.path apart old_disk tt)
