-- ===== src/Trusted/Store/Locked.antt =====
-- The steps of `TrustedPeerStore` of trusted_peers.rs that leave its file alone: the lock and `load`.
use local_transfer.Prelude.{◌≡◌, ◌≢◌, none, some}
use local_transfer.Prelude.Actions.{
  Keeps, handle-Keeps, >>=-Keeps, map_error-Keeps, done-Keeps, fail-Keeps, lift-Keeps, if-Keeps,
  fail,
}
use local_transfer.Text.{codes}
use local_transfer.FileSystem.{FileSystem, Documented}
use local_transfer.Persistence.{is_file, file_mode}
use local_transfer.Persistence.Keeps.{
  harden_existing_file-Keeps, harden_existing_parent-Keeps, ensure_hardened_parent-Keeps,
  unless_missing-Keeps,
}
use local_transfer.Trusted.Store.{
  TrustedPeerStore, read_open_file, open_and_read, read_store_bytes, harden_existing, load,
  lock_path, open_lock_file, lock_exclusive, io_error, io_error_at,
}

-- Documented of `Path::with_file_name`: the lock file is another file of the same directory.
pub record Beside {W : Type 0} (fs : FileSystem W) (store : TrustedPeerStore) : Type 0 where
  pub same_parent : fs.parent (lock_path fs store) ≡ fs.parent store.path
  pub apart : lock_path fs store ≢ store.path

module _ {W : Type 0} (fs : FileSystem W) (store : TrustedPeerStore)
    (docs : Documented fs store.path) where
  read_open_file-Keeps : (f : fs.File) → Keeps docs.entry (read_open_file fs store f)
  unfolding read_open_file
  read_open_file-Keeps f =
      >>=-Keeps docs.entry _ _ (map_error-Keeps docs.entry _ _ (docs.metadata-Keeps f)) λ m.
        >>=-Keeps docs.entry _ _
          (if-Keeps docs.entry (is_file m.file_type) _ _ (done-Keeps docs.entry tt)
            (fail-Keeps docs.entry _))
          λ u.
            >>=-Keeps docs.entry _ _
              (if-Keeps docs.entry _ _ _ (fail-Keeps docs.entry _) (done-Keeps docs.entry tt))
              λ u.
                >>=-Keeps docs.entry _ _
                  (map_error-Keeps docs.entry _ _ (docs.read_up_to-Keeps f _))
                  λ b.
                    >>=-Keeps docs.entry _ _
                      (if-Keeps docs.entry _ _ _ (fail-Keeps docs.entry _)
                        (done-Keeps docs.entry tt))
                      λ u. done-Keeps docs.entry b

  open_and_read-Keeps : Keeps docs.entry (open_and_read fs store)
  unfolding open_and_read
  open_and_read-Keeps =
      handle-Keeps docs.entry _ _ _ (docs.open_file-Keeps store.path)
        (λ f. >>=-Keeps docs.entry _ _ (read_open_file-Keeps f) λ b. done-Keeps docs.entry (some b))
        (λ e.
          unless_missing-Keeps docs.entry _
            (λ source. fail (io_error fs store (codes "open trusted-peer store") source)) e
            (done-Keeps docs.entry none) (λ e. fail-Keeps docs.entry _))

  read_store_bytes-Keeps : Keeps docs.entry (read_store_bytes fs store)
  unfolding read_store_bytes
  read_store_bytes-Keeps =
      handle-Keeps docs.entry _ _ _ (docs.symlink_metadata-Keeps store.path)
        (λ t. >>=-Keeps docs.entry _ _ (lift-Keeps docs.entry _) λ u. open_and_read-Keeps)
        (λ e.
          unless_missing-Keeps docs.entry _
            (λ source. fail (io_error fs store (codes "inspect trusted-peer store") source)) e
            (done-Keeps docs.entry none) (λ e. fail-Keeps docs.entry _))

  harden_existing-Keeps : Keeps docs.entry (harden_existing fs store)
  unfolding harden_existing
  harden_existing-Keeps =
      if-Keeps docs.entry store.harden_parent _ _
        (>>=-Keeps docs.entry _ _
          (map_error-Keeps docs.entry _ _
            (harden_existing_parent-Keeps fs store.path docs store.path))
          λ u.
            map_error-Keeps docs.entry _ _
              (harden_existing_file-Keeps fs store.path docs store.path))
        (done-Keeps docs.entry tt)

  -- Loading changes no file.
  pub load-Keeps : Keeps docs.entry (load fs store)
  unfolding load
  load-Keeps =
      >>=-Keeps docs.entry _ _ harden_existing-Keeps
        λ u. >>=-Keeps docs.entry _ _ read_store_bytes-Keeps λ r. lift-Keeps docs.entry _

  open_lock_file-Keeps : Beside fs store → Keeps docs.entry (open_lock_file fs store)
  unfolding open_lock_file
  open_lock_file-Keeps beside =
      let lock = lock_path fs store in
      >>=-Keeps docs.entry _ _
        (handle-Keeps docs.entry _ _ _ (docs.symlink_metadata-Keeps lock)
          (λ t. lift-Keeps docs.entry _)
          (λ e.
            unless_missing-Keeps docs.entry _
              (λ source. fail (io_error_at lock (codes "inspect the trusted-peer lock") source)) e
              (done-Keeps docs.entry tt) (λ e. fail-Keeps docs.entry _)))
        λ u.
          >>=-Keeps docs.entry _ _
            (map_error-Keeps docs.entry _ _ (
              ensure_hardened_parent-Keeps fs store.path docs lock store.harden_parent
                beside.same_parent))
            λ u.
              >>=-Keeps docs.entry _ _
                (map_error-Keeps docs.entry _ _
                  (docs.open_or_create-Keeps lock file_mode beside.apart))
                λ f.
                  >>=-Keeps docs.entry _ _ (map_error-Keeps docs.entry _ _ (docs.metadata-Keeps f))
                    λ m.
                      >>=-Keeps docs.entry _ _
                        (if-Keeps docs.entry (is_file m.file_type) _ _ (done-Keeps docs.entry tt)
                          (fail-Keeps docs.entry _))
                        λ u.
                          >>=-Keeps docs.entry _ _
                            (map_error-Keeps docs.entry _ _
                              (harden_existing_file-Keeps fs store.path docs lock))
                            λ u. done-Keeps docs.entry f

  pub lock_exclusive-Keeps : Beside fs store → Keeps docs.entry (lock_exclusive fs store)
  unfolding lock_exclusive
  lock_exclusive-Keeps beside = >>=-Keeps docs.entry _ _ (open_lock_file-Keeps beside) λ f.
      >>=-Keeps docs.entry _ _ (map_error-Keeps docs.entry _ _ (docs.try_lock-Keeps f))
        λ u. done-Keeps docs.entry f
