-- ===== src/Identity.antt =====
-- crates/local-transfer-core/src/identity.rs: the identifier of the installation, a random UUID in a
-- file.
pub mod Laws
use local_transfer.Prelude.{
  ℕ, Bool, true, false, not, ◌||◌, Option, none, some, [], ◌∷◌, ◌++◌, ◌==◌, if◌then◌else◌, ite,
  Result, ok, err, ok_or, map_err, unwrap_or, ◌≡◌, All,
}
use local_transfer.Prelude.Actions.{Action, handle, done, fail, lift, map_error, ◌>>=◌, ◌>>◌}
use local_transfer.Text.{Text, Text-discrete, codes, IsScalar}
use local_transfer.Text.Utf8.{as_bytes}
use local_transfer.Text.Split.{strip_suffix}
use local_transfer.FileSystem.{FileSystem, IoError}
use local_transfer.Persistence.{
  PersistenceOperation, PersistenceError, inspect_directory, create_directory, harden_directory,
  harden_file, create_temporary, write_temporary, sync_temporary, harden_existing_file,
  harden_existing_parent, create_synced_temporary, unless_missing, unless_exists,
}
use local_transfer.Persistence

-- What the code uses of `uuid::Uuid`: `parse_str`, `hyphenated().to_string()`, `get_version_num`;
-- and that the hyphenated text, which is ASCII, is read as the identifier.
pub record UuidText (Token : Type 0) : Type 0 where
  pub parse_str : Text → Option Token
  pub hyphenated : Token → Text
  pub version : Token → ℕ
  pub parse_str-hyphenated : (id : Token) → parse_str (hyphenated id) ≡ some id
  pub hyphenated-IsScalar : (id : Token) → All IsScalar (hyphenated id)

pub data ParseDeviceIdError : Type 0 where
  parse_device_id_error : ParseDeviceIdError

pub data DeviceIdError : Type 0 where
  config_directory_unavailable : DeviceIdError
  invalid_path : Text → DeviceIdError
  invalid : Text → ParseDeviceIdError → DeviceIdError
  io_failure : Text → Text → IoError → DeviceIdError

pub record DeviceIdStore : Type 0 where
  pub path : Text
  pub harden_parent : Bool

unfoldable pub operation_name : PersistenceOperation → Text
operation_name inspect_directory = codes "inspect device identity directory"
operation_name create_directory = codes "create device identity directory"
operation_name harden_directory = codes "harden device identity directory permissions"
operation_name harden_file = codes "harden device identity file permissions"
operation_name create_temporary = codes "create temporary device identity"
operation_name write_temporary = codes "write temporary device identity"
operation_name sync_temporary = codes "sync temporary device identity"

unfoldable pub persistence_error : PersistenceError → DeviceIdError
unfolding operation_name
persistence_error (Persistence.invalid_path path) = invalid_path path
persistence_error (Persistence.io_failure operation path source) =
    io_failure (operation_name operation) path source

abbrev pub io_error : DeviceIdStore → Text → IoError → DeviceIdError
io_error store operation source = io_failure operation store.path source

module _ {W : Type 0} (fs : FileSystem W) (store : DeviceIdStore) where
  -- The first steps of `load_or_create`.
  unfoldable pub harden_existing : Action W DeviceIdError (Unit {0})
  unfolding persistence_error
  harden_existing = do
    (if store.harden_parent
        then map_error persistence_error (harden_existing_parent fs store.path)
        else done tt)
    map_error persistence_error (harden_existing_file fs store.path)

module _ {Token : Type 0} ⦃u : UuidText Token⦄ where
  -- The identifier that the text is the canonical print of, when its version is 4.
  abbrev pub canonical : Text → Token → Result ParseDeviceIdError Token
  canonical value id =
      if not (ite (Text-discrete value (u.hyphenated id)) true false) || not (u.version id == 4)
      then err parse_device_id_error
      else ok id

  -- `DeviceId::from_str`
  unfoldable pub from_str : Text → Result ParseDeviceIdError Token
  from_str value = elim (u.parse_str value) [
    | none ↦ err parse_device_id_error
    | some id ↦ canonical value id
  ]

  unfoldable pub parse_persisted : DeviceIdStore → Text → Result DeviceIdError Token
  unfolding from_str
  parse_persisted store contents =
      map_err (invalid store.path) (from_str (unwrap_or (strip_suffix b'\n' contents) contents))

  -- The file's text: the identifier and the end of a line.
  abbrev pub id_text : Token → Text
  id_text id = u.hyphenated id ++ b'\n' ∷ []

  module _ {W : Type 0} (fs : FileSystem W) (store : DeviceIdStore) where
    unfoldable pub load_existing_after_race : Action W DeviceIdError Token
    unfolding parse_persisted persistence_error
    load_existing_after_race = do
      map_error persistence_error (harden_existing_file fs store.path)
      contents ←
          map_error (io_error store (codes "read concurrently created device identity"))
            (fs.read_to_string store.path)
      lift (parse_persisted store contents)

    -- `fresh` is what `DeviceId::random` gives.
    unfoldable pub create : Token → Action W DeviceIdError Token
    unfolding persistence_error load_existing_after_race
    create fresh = do
      temporary ←
          map_error persistence_error
            (create_synced_temporary fs store.path (as_bytes (id_text fresh)) store.harden_parent)
      handle (fs.persist_noclobber temporary store.path)
          (λ file. do
            map_error (io_error store (codes "sync device identity")) (fs.sync_all file)
            done fresh)
          (unless_exists load_existing_after_race
            (λ source. fail (io_error store (codes "persist device identity") source)))

    unfoldable pub load_or_create : Token → Action W DeviceIdError Token
    unfolding parse_persisted harden_existing create
    load_or_create fresh = do
      harden_existing fs store
      handle (fs.read_to_string store.path) (λ contents. lift (parse_persisted store contents))
          (unless_missing (create fresh)
            (λ source. fail (io_error store (codes "read device identity") source)))
