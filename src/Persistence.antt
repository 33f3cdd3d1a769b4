-- ===== src/Persistence.antt =====
-- crates/local-transfer-core/src/persistence.rs on Unix: hardened directories and files, and a
-- temporary file that is written and synced before it takes a path.
pub mod Keeps
pub mod Replace
pub mod Present
pub mod Complete
use local_transfer.Prelude.{
  ℕ, Bool, true, false, ◌&&◌, ◌||◌, Option, none, some, if◌then◌else◌, Bytes, Result, ok, err,
  ok_or,
}
use local_transfer.Prelude.Actions.{Action, handle, done, fail, ◌>>=◌, ◌>>◌, map_error, lift}
use local_transfer.Text.{Text}
use local_transfer.FileSystem.{
  FileSystem, IoError, not_found, already_exists, FileType, regular_file, directory, symlink,
  special,
}

pub data PersistenceOperation : Type 0 where
  inspect_directory create_directory harden_directory harden_file create_temporary :
      PersistenceOperation
  write_temporary sync_temporary : PersistenceOperation

pub data PersistenceError : Type 0 where
  invalid_path : Text → PersistenceError
  io_failure : PersistenceOperation → Text → IoError → PersistenceError

-- `0o700` and `0o600`
abbrev pub directory_mode : ℕ
directory_mode = 448

abbrev pub file_mode : ℕ
file_mode = 384

abbrev pub is_file : FileType → Bool
is_file regular_file = true
is_file _ = false

abbrev pub is_dir : FileType → Bool
is_dir directory = true
is_dir _ = false

-- `Err(error) if error.kind() == NotFound`, before the other errors.
abbrev pub unless_missing : {A : Type 0} → A → (IoError → A) → IoError → A
unless_missing absent otherwise not_found = absent
unless_missing absent otherwise source = otherwise source

-- In the stores: `Err(error) if error.kind() == AlreadyExists`, before the other errors.
abbrev pub unless_exists : {A : Type 0} → A → (IoError → A) → IoError → A
unless_exists exists otherwise already_exists = exists
unless_exists exists otherwise source = otherwise source

abbrev pub is_none : Option Bool → Bool
is_none none = true
is_none (some b) = false

abbrev pub is_true : Option Bool → Bool
is_true none = false
is_true (some b) = b

module _ {W : Type 0} (fs : FileSystem W) where
  unfoldable pub set_file_permissions : Text → Action W IoError (Unit {0})
  set_file_permissions path = fs.set_permissions path file_mode

  unfoldable pub set_directory_permissions : Text → Action W IoError (Unit {0})
  set_directory_permissions path = fs.set_permissions path directory_mode

  unfoldable pub harden_existing_file : Text → Action W PersistenceError (Unit {0})
  unfolding set_file_permissions
  harden_existing_file path =
      handle (fs.symlink_metadata path)
        (λ file_type.
          if is_file file_type
          then map_error (io_failure harden_file path) (set_file_permissions path)
          else done tt)
        (unless_missing (done tt) (λ source. fail (io_failure harden_file path source)))

  unfoldable pub harden_existing_parent : Text → Action W PersistenceError (Unit {0})
  unfolding set_directory_permissions
  harden_existing_parent destination = do
    parent ← lift (ok_or (fs.parent destination) (invalid_path destination))
    handle (fs.symlink_metadata parent)
        (λ file_type.
          if is_dir file_type
          then map_error (io_failure harden_directory parent) (set_directory_permissions parent)
          else done tt)
        (unless_missing (done tt) (λ source. fail (io_failure inspect_directory parent source)))

  -- `existing_directory`
  unfoldable pub inspect_parent : Text → Action W PersistenceError (Option Bool)
  inspect_parent parent =
      handle (fs.symlink_metadata parent) (λ file_type. done (some (is_dir file_type)))
        (unless_missing (done none) (λ source. fail (io_failure inspect_directory parent source)))

  unfoldable pub prepare_parent : Text → Bool → Action W PersistenceError Text
  unfolding inspect_parent set_directory_permissions
  prepare_parent destination harden_existing = do
    parent ← lift (ok_or (fs.parent destination) (invalid_path destination))
    existing ← inspect_parent parent
    map_error (io_failure create_directory parent) (fs.create_dir_all parent)
    (if is_none existing || (harden_existing && is_true existing)
        then map_error (io_failure harden_directory parent) (set_directory_permissions parent)
        else done tt)
    done parent

  unfoldable pub create_synced_temporary :
      Text → Bytes → Bool → Action W PersistenceError fs.Temporary
  unfolding prepare_parent
  create_synced_temporary destination contents harden_existing = do
    parent ← prepare_parent destination harden_existing
    temporary ← map_error (io_failure create_temporary parent) (fs.new_in parent)
    map_error (io_failure harden_file (fs.temporary_path temporary))
        (fs.set_open_permissions temporary file_mode)
    map_error (io_failure write_temporary (fs.temporary_path temporary))
        (fs.write_all temporary contents)
    map_error (io_failure sync_temporary (fs.temporary_path temporary))
        (fs.sync_temporary temporary)
    done temporary

  unfoldable pub ensure_hardened_parent : Text → Bool → Action W PersistenceError (Unit {0})
  unfolding prepare_parent
  ensure_hardened_parent destination harden_existing = do
    prepared ← prepare_parent destination harden_existing
    done tt

  -- `fs::File::open(parent)?.sync_all()`
  abbrev pub sync_opened : Option Text → Action W IoError (Unit {0})
  sync_opened none = done tt
  sync_opened (some parent) = do directory_file ← fs.open_file parent; fs.sync_all directory_file

  unfoldable pub sync_parent_directory : Text → Action W IoError (Unit {0})
  sync_parent_directory path = sync_opened (fs.parent path)
