-- ===== src/FileSystem.antt =====
-- What the core calls to reach files: `std::fs` on Unix and the crate `tempfile`, as a parameter,
-- with what is documented of them for the file at one path.
use local_transfer.Prelude.{ℕ, ◌≡◌, ◌≢◌, Option, some, [], ◌++◌, Bytes, ok, err}
use local_transfer.Prelude.Actions.{Action, Keeps, Brings}
use local_transfer.Text.{Text}
use local_transfer.Text.Utf8.{from_utf8}

-- `io::Error`: the kinds that the core tells apart, and any other by a number.
pub data IoError : Type 0 where
  not_found already_exists would_block : IoError
  other : ℕ → IoError

-- `Metadata::file_type` of `symlink_metadata`
pub data FileType : Type 0 where
  regular_file directory symlink special : FileType

-- `TryLockError`
pub data TryLockError : Type 0 where
  busy : TryLockError
  failed : IoError → TryLockError

pub record FileMetadata : Type 0 where
  pub file_type : FileType
  pub size : ℕ

pub record FileSystem (W : Type 0) : Type 1 where
  -- `NamedTempFile` and `File`
  pub Temporary : Type 0
  pub File : Type 0
  -- `Path::parent`, `Path::file_name` and `Path::with_file_name`
  pub parent : Text → Option Text
  pub file_name : Text → Option Text
  pub with_file_name : Text → Text → Text
  pub symlink_metadata : Text → Action W IoError FileType
  pub set_permissions : Text → ℕ → Action W IoError (Unit {0})
  pub create_dir_all : Text → Action W IoError (Unit {0})
  pub read_to_string : Text → Action W IoError Text
  pub open_file : Text → Action W IoError File
  pub open_or_create : Text → ℕ → Action W IoError File
  pub metadata : File → Action W IoError FileMetadata
  -- `take(n).read_to_end(..)`
  pub read_up_to : File → ℕ → Action W IoError Bytes
  pub sync_all : File → Action W IoError (Unit {0})
  pub try_lock : File → Action W TryLockError (Unit {0})
  pub unlock : File → Action W IoError (Unit {0})
  pub new_in : Text → Action W IoError Temporary
  pub temporary_path : Temporary → Text
  pub set_open_permissions : Temporary → ℕ → Action W IoError (Unit {0})
  pub write_all : Temporary → Bytes → Action W IoError (Unit {0})
  pub sync_temporary : Temporary → Action W IoError (Unit {0})
  pub persist : Temporary → Text → Action W IoError File
  pub persist_noclobber : Temporary → Text → Action W IoError File

-- What stands at a path: nothing, a regular file with its bytes, or something else.
pub data Entry : Type 0 where
  missing : Entry
  regular : Bytes → Entry
  irregular : FileType → Entry

-- Documented behaviour of the calls, for the entry at one path, which nothing else changes.
-- `held` is what a temporary file holds so far.
pub record Documented {W : Type 0} (fs : FileSystem W) (path : Text) : Type 1 where
  pub entry : W → Entry
  pub held : W → fs.Temporary → Bytes
  -- Only `persist` and `persist_noclobber` change what stands at the path of a file that is there
  -- or is to be put there.
  pub symlink_metadata-Keeps : (p : Text) → Keeps entry (fs.symlink_metadata p)
  pub set_permissions-Keeps : (p : Text) (mode : ℕ) → Keeps entry (fs.set_permissions p mode)
  pub create_dir_all-Keeps :
      (p : Text) → fs.parent path ≡ some p → Keeps entry (fs.create_dir_all p)
  pub read_to_string-Keeps : (p : Text) → Keeps entry (fs.read_to_string p)
  pub open_file-Keeps : (p : Text) → Keeps entry (fs.open_file p)
  pub metadata-Keeps : (f : fs.File) → Keeps entry (fs.metadata f)
  pub read_up_to-Keeps : (f : fs.File) (n : ℕ) → Keeps entry (fs.read_up_to f n)
  pub sync_all-Keeps : (f : fs.File) → Keeps entry (fs.sync_all f)
  pub open_or_create-Keeps :
      (p : Text) (mode : ℕ) → p ≢ path → Keeps entry (fs.open_or_create p mode)
  pub try_lock-Keeps : (f : fs.File) → Keeps entry (fs.try_lock f)
  pub unlock-Keeps : (f : fs.File) → Keeps entry (fs.unlock f)
  pub new_in-Keeps : (p : Text) → Keeps entry (fs.new_in p)
  pub set_open_permissions-Keeps :
      (t : fs.Temporary) (mode : ℕ) → Keeps entry (fs.set_open_permissions t mode)
  pub write_all-Keeps : (t : fs.Temporary) (b : Bytes) → Keeps entry (fs.write_all t b)
  pub sync_temporary-Keeps : (t : fs.Temporary) → Keeps entry (fs.sync_temporary t)
  -- A temporary file starts empty and takes what is written.
  pub new_in-ok :
      (p : Text) (w v : W) (t : fs.Temporary) → fs.new_in p w ≡ (ok t, v) → held v t ≡ []
  pub set_open_permissions-held :
      (t : fs.Temporary) (mode : ℕ) → Keeps (λ w. held w t) (fs.set_open_permissions t mode)
  pub write_all-ok :
      (t : fs.Temporary) (b : Bytes) (w v : W)
      → fs.write_all t b w ≡ (ok tt, v)
      → held v t ≡ held w t ++ b
  pub sync_temporary-held : (t : fs.Temporary) → Keeps (λ w. held w t) (fs.sync_temporary t)
  -- The rename is atomic: all of the temporary file or no change.
  pub persist-ok :
      (t : fs.Temporary) (f : fs.File) (w v : W)
      → fs.persist t path w ≡ (ok f, v)
      → entry v ≡ regular (held w t)
  pub persist-err :
      (t : fs.Temporary) (e : IoError) (w v : W)
      → fs.persist t path w ≡ (err e, v)
      → entry v ≡ entry w
  pub persist_noclobber-ok :
      (t : fs.Temporary) (f : fs.File) (w v : W)
      → fs.persist_noclobber t path w ≡ (ok f, v)
      → (entry w ≡ missing) × (entry v ≡ regular (held w t))
  pub persist_noclobber-err :
      (t : fs.Temporary) (e : IoError) (w v : W)
      → fs.persist_noclobber t path w ≡ (err e, v)
      → entry v ≡ entry w
  -- A read gives the bytes of the file, as text if they are that, and only an entry that is no
  -- regular file may be reported as not found.
  pub read_to_string-ok :
      (bytes : Bytes) (s : Text) (w v : W)
      → entry w ≡ regular bytes
      → fs.read_to_string path w ≡ (ok s, v)
      → from_utf8 bytes ≡ some s
  pub read_to_string_found :
      (bytes : Bytes) (w v : W)
      → entry w ≡ regular bytes
      → fs.read_to_string path w ≢ (err not_found, v)
  pub read_to_string_missing :
      (s : Text) (w v : W) → entry w ≡ missing → fs.read_to_string path w ≢ (ok s, v)

-- Where the calls succeed: the worlds that are `sound` for the path (its directory is there or can be
-- made, no other process is at work, there is room and permission, and at the path stands nothing or
-- a regular file), those of them where the directory is `made`, and those where a temporary file is
-- `live` and where a file is `opened`. Each call is asked to succeed only where what it needs is
-- there.
pub record Working {W : Type 0} (fs : FileSystem W) (path : Text) (docs : Documented fs path)
    : Type 1 where
  pub directory_of : Text
  pub parent_known : fs.parent path ≡ some directory_of
  pub sound : W → Type 0
  pub made : W → Type 0
  pub live : W → fs.Temporary → Type 0
  pub opened : W → fs.File → Type 0
  pub made-sound : (w : W) → made w → sound w
  -- A look at the directory finds it, or reports that it is not there.
  pub directory_found :
      (w v : W) (t : FileType) → sound w → fs.symlink_metadata directory_of w ≡ (ok t, v) → made v
  pub directory_missing :
      (w v : W) (e : IoError)
      → sound w
      → fs.symlink_metadata directory_of w ≡ (err e, v)
      → (e ≡ not_found) × sound v
  -- The same for the file.
  pub file_found :
      (w v : W) (t : FileType)
      → sound w
      → fs.symlink_metadata path w ≡ (ok t, v)
      → sound v × (docs.entry v ≢ missing)
  pub file_missing :
      (w v : W) (e : IoError)
      → sound w
      → fs.symlink_metadata path w ≡ (err e, v)
      → (e ≡ not_found) × sound v
  pub creates_directory : Brings sound (fs.create_dir_all directory_of) (λ u. made)
  pub hardens_directory :
      (mode : ℕ) → Brings made (fs.set_permissions directory_of mode) (λ u. made)
  pub hardens_file :
      (mode : ℕ)
      → Brings (λ w. sound w × (docs.entry w ≢ missing)) (fs.set_permissions path mode) (λ u. sound)
  -- A temporary file in the directory, up to its rename.
  pub makes : Brings made (fs.new_in directory_of) (λ t w. live w t)
  pub hardens_temporary :
      (t : fs.Temporary) (mode : ℕ)
      → Brings (λ w. live w t) (fs.set_open_permissions t mode) (λ u w. live w t)
  pub writes :
      (t : fs.Temporary) (b : Bytes) → Brings (λ w. live w t) (fs.write_all t b) (λ u w. live w t)
  pub syncs_temporary :
      (t : fs.Temporary) → Brings (λ w. live w t) (fs.sync_temporary t) (λ u w. live w t)
  pub renames : (t : fs.Temporary) → Brings (λ w. live w t) (fs.persist t path) (λ f w. opened w f)
  pub syncs : (f : fs.File) → Brings (λ w. opened w f) (fs.sync_all f) (λ u. sound)
  -- A regular file that holds text can be read.
  pub reads :
      (bytes : Bytes) (s : Text)
      → from_utf8 bytes ≡ some s
      → Brings (λ w. sound w × (docs.entry w ≡ regular bytes)) (fs.read_to_string path) (λ t. sound)
