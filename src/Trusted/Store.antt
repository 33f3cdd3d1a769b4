-- ===== src/Trusted/Store.antt =====
-- `TrustedPeerStore` of crates/local-transfer-core/src/trusted_peers.rs: the records in a file
-- that is replaced as a whole under an exclusive lock.
pub mod Changes
pub mod Locked
pub mod Laws
pub mod Writes
use local_transfer.Prelude.{
  ℕ, suc, ◌+◌, Bool, true, false, not, Option, none, some, List, [], ◌∷◌, ◌++◌, ltb, if◌then◌else◌,
  length, Bytes, Result, ok, err,
}
use local_transfer.Prelude.Actions.{Action, handle, done, fail, lift, map_error, ◌>>=◌, ◌>>◌}
use local_transfer.Prelude.Order.{pair_ord, list_ord, nat_ord}
use local_transfer.Prelude.Sort.{sort_by}
use local_transfer.Text.{Text, codes}
use local_transfer.FileSystem.{
  FileSystem, IoError, not_found, FileType, regular_file, directory, symlink, special, FileMetadata,
  TryLockError, busy, failed,
}
use local_transfer.Persistence.{
  PersistenceOperation, PersistenceError, inspect_directory, create_directory, harden_directory,
  harden_file, create_temporary, write_temporary, sync_temporary, harden_existing_file,
  harden_existing_parent, create_synced_temporary, ensure_hardened_parent, sync_parent_directory,
  unless_missing, is_file, file_mode,
}
use local_transfer.Persistence
use local_transfer.Trusted.{PeerKeyIdentity}
use local_transfer.Trusted.Errors.{
  TrustedPeerStoreError, invalid_store_path, io_failure, not_regular_file, symlink_not_allowed,
  store_busy, store_too_large, capacity_exceeded,
}
use local_transfer.Trusted.Format.{
  TrustedPeerRecord, TrustedPeers, no_peers, record_key, identity_eq, encode, decode,
  max_trusted_peers, max_trusted_peers_store_bytes,
}
use local_transfer.Trusted.Lookup.{contains}

pub data TrustedPeerRemoval : Type 0 where
  removed already_absent : TrustedPeerRemoval

pub record TrustedPeerStore : Type 0 where
  pub path : Text
  pub harden_parent : Bool

abbrev pub store_file_name : Text
store_file_name = codes "trusted-peers"

abbrev pub lock_file_suffix : Text
lock_file_suffix = codes ".lock"

unfoldable pub operation_name : PersistenceOperation → Text
operation_name inspect_directory = codes "inspect trusted-peer store directory"
operation_name create_directory = codes "create trusted-peer store directory"
operation_name harden_directory = codes "harden trusted-peer store directory permissions"
operation_name harden_file = codes "harden trusted-peer store file permissions"
operation_name create_temporary = codes "create temporary trusted-peer store"
operation_name write_temporary = codes "write temporary trusted-peer store"
operation_name sync_temporary = codes "sync temporary trusted-peer store"

unfoldable pub persistence_error : PersistenceError → TrustedPeerStoreError
unfolding operation_name
persistence_error (Persistence.invalid_path path) = invalid_store_path path
persistence_error (Persistence.io_failure operation path source) =
    io_failure (operation_name operation) path source

abbrev pub io_error_at : Text → Text → IoError → TrustedPeerStoreError
io_error_at path operation source = io_failure operation path source

-- A path that is to be a regular file: no link is followed, nothing else is used.
unfoldable pub refuse_irregular : Text → FileType → Result TrustedPeerStoreError (Unit {0})
refuse_irregular path symlink = err (symlink_not_allowed path)
refuse_irregular path regular_file = ok tt
refuse_irregular path _ = err (not_regular_file path)

-- `filter(|existing| existing.identity() != identity)`
unfoldable pub without : PeerKeyIdentity → List TrustedPeerRecord → List TrustedPeerRecord
without identity [] = []
without identity (r ∷ records) =
    let rest = without identity records in
    if identity_eq r.identity identity then rest else r ∷ rest

module _ {W : Type 0} (fs : FileSystem W) (store : TrustedPeerStore) where
  abbrev pub io_error : Text → IoError → TrustedPeerStoreError
  io_error operation source = io_error_at store.path operation source

  -- What is read from the open file.
  unfoldable pub read_open_file : fs.File → Action W TrustedPeerStoreError Bytes
  read_open_file file = do
    metadata ← map_error (io_error (codes "inspect open trusted-peer store")) (fs.metadata file)
    (if is_file metadata.file_type then done tt else fail (not_regular_file store.path))
    (if ltb max_trusted_peers_store_bytes metadata.size
        then fail (store_too_large metadata.size max_trusted_peers_store_bytes)
        else done tt)
    bytes ←
        map_error (io_error (codes "read trusted-peer store"))
          (fs.read_up_to file (max_trusted_peers_store_bytes + 1))
    (if ltb max_trusted_peers_store_bytes (length bytes)
        then fail (store_too_large (length bytes) max_trusted_peers_store_bytes)
        else done tt)
    done bytes

  unfoldable pub open_and_read : Action W TrustedPeerStoreError (Option Bytes)
  unfolding read_open_file
  open_and_read =
      handle (fs.open_file store.path) (λ file. do bytes ← read_open_file file; done (some bytes))
        (unless_missing (done none)
          (λ source. fail (io_error (codes "open trusted-peer store") source)))

  unfoldable pub read_store_bytes : Action W TrustedPeerStoreError (Option Bytes)
  unfolding refuse_irregular open_and_read
  read_store_bytes =
      handle (fs.symlink_metadata store.path)
        (λ file_type. lift (refuse_irregular store.path file_type) >> open_and_read)
        (unless_missing (done none)
          (λ source. fail (io_error (codes "inspect trusted-peer store") source)))

  abbrev pub decode_read : Option Bytes → Result TrustedPeerStoreError TrustedPeers
  decode_read none = ok no_peers
  decode_read (some bytes) = decode bytes

  -- The first step of `load`.
  unfoldable pub harden_existing : Action W TrustedPeerStoreError (Unit {0})
  unfolding persistence_error
  harden_existing =
      if store.harden_parent
      then (do
        map_error persistence_error (harden_existing_parent fs store.path)
        map_error persistence_error (harden_existing_file fs store.path))
      else done tt

  unfoldable pub load : Action W TrustedPeerStoreError TrustedPeers
  unfolding harden_existing read_store_bytes
  load = do harden_existing; read ← read_store_bytes; lift (decode_read read)

  -- `write_all` after its checks.
  unfoldable pub replace_file : Bytes → Action W TrustedPeerStoreError (Unit {0})
  unfolding persistence_error
  replace_file bytes = do
    temporary ←
        map_error persistence_error
          (create_synced_temporary fs store.path bytes store.harden_parent)
    file ←
        map_error (io_error (codes "replace trusted-peer store")) (fs.persist temporary store.path)
    map_error (io_error (codes "sync trusted-peer store")) (fs.sync_all file)
    map_error (io_error (codes "sync trusted-peer store directory"))
        (sync_parent_directory fs store.path)

  -- `write_all` after the sort.
  unfoldable pub write_sorted : List TrustedPeerRecord → Action W TrustedPeerStoreError (Unit {0})
  unfolding replace_file
  write_sorted records =
      if ltb max_trusted_peers_store_bytes (length (encode records))
      then fail (store_too_large (length (encode records)) max_trusted_peers_store_bytes)
      else replace_file (encode records)

  unfoldable pub write_all : List TrustedPeerRecord → Action W TrustedPeerStoreError (Unit {0})
  unfolding write_sorted
  write_all records =
      if ltb max_trusted_peers (length records)
      then fail (capacity_exceeded (length records) max_trusted_peers)
      else write_sorted (sort_by record_key records)

  abbrev name_or_default : Option Text → Text
  name_or_default none = store_file_name
  name_or_default (some name) = name

  unfoldable pub lock_path : Text
  lock_path =
      fs.with_file_name store.path (name_or_default (fs.file_name store.path) ++ lock_file_suffix)

  unfoldable pub open_lock_file : Action W TrustedPeerStoreError fs.File
  unfolding refuse_irregular persistence_error lock_path
  open_lock_file = do
    handle (fs.symlink_metadata lock_path)
        (λ file_type. lift (refuse_irregular lock_path file_type))
        (unless_missing (done tt)
          (λ source. fail (io_error_at lock_path (codes "inspect the trusted-peer lock") source)))
    map_error persistence_error (ensure_hardened_parent fs lock_path store.harden_parent)
    file ←
        map_error (io_error_at lock_path (codes "open the trusted-peer lock"))
          (fs.open_or_create lock_path file_mode)
    metadata ←
        map_error (io_error_at lock_path (codes "inspect the trusted-peer lock")) (fs.metadata file)
    (if is_file metadata.file_type then done tt else fail (not_regular_file lock_path))
    map_error persistence_error (harden_existing_file fs lock_path)
    done file

  abbrev pub lock_error : TryLockError → TrustedPeerStoreError
  lock_error busy = store_busy
  lock_error (failed source) = io_error_at lock_path (codes "lock the trusted-peer store") source

  unfoldable pub lock_exclusive : Action W TrustedPeerStoreError fs.File
  unfolding open_lock_file
  lock_exclusive = do file ← open_lock_file; map_error lock_error (fs.try_lock file); done file

  -- The guard's `drop`, on every path; its result is ignored.
  unfoldable pub unlocked_after :
      {A : Type 0}
      → fs.File
      → Result TrustedPeerStoreError A × W
      → Result TrustedPeerStoreError A × W
  unlocked_after file (r, w) = (r, (fs.unlock file w).1)

  unfoldable pub with_lock :
      {A : Type 0} → Action W TrustedPeerStoreError A → Action W TrustedPeerStoreError A
  unfolding lock_exclusive unlocked_after
  with_lock body = do file ← lock_exclusive; λ w. unlocked_after file (body w)

  unfoldable pub add : TrustedPeerRecord → Action W TrustedPeerStoreError (Unit {0})
  unfolding load write_all
  add record_of = do
    current ← load
    write_all (without record_of.identity current.records ++ record_of ∷ [])

  unfoldable pub store_record : TrustedPeerRecord → Action W TrustedPeerStoreError (Unit {0})
  unfolding with_lock add
  store_record record_of = with_lock (add record_of)

  unfoldable pub take_out : PeerKeyIdentity → Action W TrustedPeerStoreError TrustedPeerRemoval
  unfolding load write_all
  take_out identity = do
    current ← load
    (if not (contains current identity)
        then done already_absent
        else (do write_all (without identity current.records); done removed))

  unfoldable pub remove : PeerKeyIdentity → Action W TrustedPeerStoreError TrustedPeerRemoval
  unfolding with_lock take_out
  remove identity = with_lock (take_out identity)
