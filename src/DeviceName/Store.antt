-- ===== src/DeviceName/Store.antt =====
-- `DeviceNameStore` of crates/local-transfer-core/src/device_name.rs: the display name in a file.
pub mod Laws
pub mod Working
use local_transfer.Prelude.{
  unwrap_or, ℕ, Bool, Option, none, some, [], ◌∷◌, ◌++◌, Bytes, Result, ok, err, map_err,
  if◌then◌else◌,
}
use local_transfer.Prelude.Actions.{Action, handle, done, fail, lift, map_error, ◌>>=◌, ◌>>◌}
use local_transfer.Text.{Text, codes}
use local_transfer.Text.Utf8.{as_bytes}
use local_transfer.Text.Split.{strip_suffix}
use local_transfer.FileSystem.{FileSystem, IoError, not_found, already_exists, would_block, other}
use local_transfer.Persistence.{
  PersistenceOperation, PersistenceError, inspect_directory, create_directory, harden_directory,
  harden_file, create_temporary, write_temporary, sync_temporary, harden_existing_file,
  harden_existing_parent, create_synced_temporary, unless_missing, unless_exists,
}
use local_transfer.Persistence
use local_transfer.DeviceName.{DeviceName, DeviceNameValidationError, new, default}

pub data DeviceNameError : Type 0 where
  config_directory_unavailable : DeviceNameError
  invalid_path : Text → DeviceNameError
  validation : DeviceNameValidationError → DeviceNameError
  invalid : Text → DeviceNameValidationError → DeviceNameError
  io_failure : Text → Text → IoError → DeviceNameError

pub record DeviceNameStore : Type 0 where
  pub path : Text
  pub harden_parent : Bool

unfoldable pub operation_name : PersistenceOperation → Text
operation_name inspect_directory = codes "inspect device display name directory"
operation_name create_directory = codes "create device display name directory"
operation_name harden_directory = codes "harden device display name directory permissions"
operation_name harden_file = codes "harden device display name file permissions"
operation_name create_temporary = codes "create temporary device display name"
operation_name write_temporary = codes "write temporary device display name"
operation_name sync_temporary = codes "sync temporary device display name"

unfoldable pub persistence_error : PersistenceError → DeviceNameError
unfolding operation_name
persistence_error (Persistence.invalid_path path) = invalid_path path
persistence_error (Persistence.io_failure operation path source) =
    io_failure (operation_name operation) path source

-- The file's text: the name and the end of a line.
abbrev pub name_text : DeviceName → Text
name_text name = name.value ++ b'\n' ∷ []

unfoldable pub parse_persisted : DeviceNameStore → Text → Result DeviceNameError DeviceName
parse_persisted store contents =
    map_err (invalid store.path) (new (unwrap_or (strip_suffix b'\n' contents) contents))

abbrev pub io_error : DeviceNameStore → Text → IoError → DeviceNameError
io_error store operation source = io_failure operation store.path source

module _ {W : Type 0} (fs : FileSystem W) (store : DeviceNameStore) where
  unfoldable pub write_temporary_name : DeviceName → Action W DeviceNameError fs.Temporary
  unfolding persistence_error
  write_temporary_name name =
      map_error persistence_error
        (create_synced_temporary fs store.path (as_bytes (name_text name)) store.harden_parent)

  unfoldable pub load_existing_after_race : Action W DeviceNameError DeviceName
  unfolding parse_persisted persistence_error
  load_existing_after_race = do
    map_error persistence_error (harden_existing_file fs store.path)
    contents ←
        map_error (io_error store (codes "read concurrently created device display name"))
          (fs.read_to_string store.path)
    lift (parse_persisted store contents)

  unfoldable pub create_default : Action W DeviceNameError DeviceName
  unfolding write_temporary_name load_existing_after_race
  create_default = do
    temporary ← write_temporary_name default
    handle (fs.persist_noclobber temporary store.path)
        (λ file. do
          map_error (io_error store (codes "sync device display name")) (fs.sync_all file)
          done default)
        (unless_exists load_existing_after_race
          (λ source. fail (io_error store (codes "persist device display name") source)))

  unfoldable pub load_or_create : Action W DeviceNameError DeviceName
  unfolding parse_persisted persistence_error create_default
  load_or_create = do
    (if store.harden_parent
        then map_error persistence_error (harden_existing_parent fs store.path)
        else done tt)
    map_error persistence_error (harden_existing_file fs store.path)
    handle (fs.read_to_string store.path) (λ contents. lift (parse_persisted store contents))
        (unless_missing create_default
          (λ source. fail (io_error store (codes "read device display name") source)))

  -- What `update` does with a valid name.
  unfoldable pub write_name : DeviceName → Action W DeviceNameError DeviceName
  unfolding write_temporary_name
  write_name name = do
    temporary ← write_temporary_name name
    file ←
        map_error (io_error store (codes "persist device display name"))
          (fs.persist temporary store.path)
    map_error (io_error store (codes "sync device display name")) (fs.sync_all file)
    done name

  unfoldable pub update : Text → Action W DeviceNameError DeviceName
  unfolding write_name
  update value = lift (map_err validation (new value)) >>= write_name
