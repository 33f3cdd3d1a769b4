-- ===== src/Persistence/Keeps.antt =====
-- What persistence.rs does to the file at a path before anything is renamed to it: nothing.
use local_transfer.Prelude.{
  Bool, ◌≡◌, refl, sym, ap, ◌∙◌, Option, none, some, Bytes, ok, ok_or, ◌||◌, ◌&&◌, [], ◌++◌,
}
use local_transfer.Prelude.Actions.{
  if-Keeps, Action, Keeps, done-Keeps, fail, lift, ◌>>=◌, handle-Keeps, map_error-Keeps, >>=-Keeps,
  Ensures, >>=-Ensures, map_error-Ensures, done-Ensures, Keeps-Ensures,
}
use local_transfer.Text.{Text}
use local_transfer.FileSystem.{
  FileSystem, Documented, IoError, not_found, already_exists, would_block, other,
}
use local_transfer.Persistence.{
  harden_existing_file, harden_existing_parent, inspect_parent, prepare_parent,
  create_synced_temporary, ensure_hardened_parent, sync_parent_directory, sync_opened,
  unless_missing, io_failure, inspect_directory, harden_file, is_file, is_dir, file_mode,
  directory_mode, is_none, is_true, invalid_path,
}

pub unless_missing-Keeps :
    {W E A V : Type 0} (view : W → V) (m : Action W E A) (f : IoError → Action W E A) (e : IoError)
    → Keeps view m
    → ((e : IoError) → Keeps view (f e))
    → Keeps view (unless_missing m f e)
unless_missing-Keeps view m f not_found hm hf = hm
unless_missing-Keeps view m f already_exists hm hf = hf already_exists
unless_missing-Keeps view m f would_block hm hf = hf would_block
unless_missing-Keeps view m f (other n) hm hf = hf (other n)

-- `?` on a value that may not be there.
ok_or-Keeps :
    {W E A B V : Type 0} (view : W → V) (o : Option A) (e : E) (f : A → Action W E B)
    → ((a : A) → o ≡ some a → Keeps view (f a))
    → Keeps view (lift (ok_or o e) >>= f)
ok_or-Keeps view none e f h = record { kept = λ w. refl }
ok_or-Keeps view (some a) e f h = record { kept = λ w. (h a refl).kept w }

module _ {W : Type 0} (fs : FileSystem W) (path : Text) (docs : Documented fs path) where
  pub harden_existing_file-Keeps : (p : Text) → Keeps docs.entry (harden_existing_file fs p)
  unfolding harden_existing_file
  harden_existing_file-Keeps p =
      handle-Keeps docs.entry (fs.symlink_metadata p) _ _ (docs.symlink_metadata-Keeps p)
        (λ t.
          if-Keeps docs.entry (is_file t) _ _
            (map_error-Keeps docs.entry _ _ (docs.set_permissions-Keeps p file_mode))
            (record { kept = λ w. refl }))
        (λ e.
          unless_missing-Keeps docs.entry _ (λ source. fail (io_failure harden_file p source)) e
            (record { kept = λ w. refl }) (λ e. (record { kept = λ w. refl })))

  pub harden_existing_parent-Keeps : (p : Text) → Keeps docs.entry (harden_existing_parent fs p)
  unfolding harden_existing_parent
  harden_existing_parent-Keeps p =
      >>=-Keeps docs.entry _ _ (record { kept = λ w. refl })
        λ parent.
          handle-Keeps docs.entry (fs.symlink_metadata parent) _ _
            (docs.symlink_metadata-Keeps parent)
            (λ t.
              if-Keeps docs.entry (is_dir t) _ _
                (map_error-Keeps docs.entry _ _ (docs.set_permissions-Keeps parent directory_mode))
                (record { kept = λ w. refl }))
            (λ e.
              unless_missing-Keeps docs.entry _
                (λ source. fail (io_failure inspect_directory parent source)) e
                (record { kept = λ w. refl }) (λ e. (record { kept = λ w. refl })))

  inspect_parent-Keeps : (p : Text) → Keeps docs.entry (inspect_parent fs p)
  unfolding inspect_parent
  inspect_parent-Keeps p =
      handle-Keeps docs.entry (fs.symlink_metadata p) _ _ (docs.symlink_metadata-Keeps p)
        (λ t. (record { kept = λ w. refl }))
        (λ e.
          unless_missing-Keeps docs.entry _ (λ source. fail (io_failure inspect_directory p source))
            e (record { kept = λ w. refl }) (λ e. (record { kept = λ w. refl })))

  prepare_parent-Keeps :
      (beside : Text) (h : Bool)
      → fs.parent beside ≡ fs.parent path
      → Keeps docs.entry (prepare_parent fs beside h)
  unfolding prepare_parent
  prepare_parent-Keeps beside h same =
      ok_or-Keeps docs.entry (fs.parent beside) (invalid_path beside) _ λ parent e.
        >>=-Keeps docs.entry _ _ (inspect_parent-Keeps parent) λ existing.
          >>=-Keeps docs.entry _ _
            (map_error-Keeps docs.entry _ _ (docs.create_dir_all-Keeps parent (sym same ∙ e)))
            λ u.
              >>=-Keeps docs.entry _ _
                (if-Keeps docs.entry (is_none existing || (h && is_true existing)) _ _
                  (map_error-Keeps docs.entry _ _
                    (docs.set_permissions-Keeps parent directory_mode))
                  (record { kept = λ w. refl }))
                (λ u. (record { kept = λ w. refl }))

  pub create_synced_temporary-Keeps :
      (contents : Bytes) (h : Bool) → Keeps docs.entry (create_synced_temporary fs path contents h)
  unfolding create_synced_temporary
  create_synced_temporary-Keeps contents h =
      >>=-Keeps docs.entry _ _ (prepare_parent-Keeps path h refl) λ parent.
        >>=-Keeps docs.entry _ _ (map_error-Keeps docs.entry _ _ (docs.new_in-Keeps parent)) λ t.
          >>=-Keeps docs.entry _ _
            (map_error-Keeps docs.entry _ _ (docs.set_open_permissions-Keeps t file_mode))
            λ u.
              >>=-Keeps docs.entry _ _
                (map_error-Keeps docs.entry _ _ (docs.write_all-Keeps t contents))
                λ u.
                  >>=-Keeps docs.entry _ _
                    (map_error-Keeps docs.entry _ _ (docs.sync_temporary-Keeps t))
                    (λ u. (record { kept = λ w. refl }))

  pub ensure_hardened_parent-Keeps :
      (beside : Text) (h : Bool)
      → fs.parent beside ≡ fs.parent path
      → Keeps docs.entry (ensure_hardened_parent fs beside h)
  unfolding ensure_hardened_parent
  ensure_hardened_parent-Keeps beside h same =
      >>=-Keeps docs.entry _ _ (prepare_parent-Keeps beside h same) λ p. done-Keeps docs.entry tt

  sync_opened-Keeps : (o : Option Text) → Keeps docs.entry (sync_opened fs o)
  sync_opened-Keeps none = done-Keeps docs.entry tt
  sync_opened-Keeps (some parent) =
      >>=-Keeps docs.entry _ _ (docs.open_file-Keeps parent) λ f. docs.sync_all-Keeps f

  pub sync_parent_directory-Keeps : (p : Text) → Keeps docs.entry (sync_parent_directory fs p)
  unfolding sync_parent_directory
  sync_parent_directory-Keeps p = sync_opened-Keeps (fs.parent p)

  -- The temporary file that is handed back holds what was to be written.
  abbrev pub Holds : Bytes → fs.Temporary → W → Type 0
  Holds bytes t w = docs.held w t ≡ bytes

  abbrev pub Anything : W → Type 0
  Anything w = Unit

  written :
      (t : fs.Temporary) (contents : Bytes) (w z : W)
      → Holds [] t w
      → fs.write_all t contents w ≡ (ok tt, z)
      → Holds contents t z
  written t contents w z p e = docs.write_all-ok t contents w z e ∙ ap (λ b. b ++ contents) p

  pub create_synced_temporary-Holds :
      (contents : Bytes) (h : Bool)
      → Ensures Anything (create_synced_temporary fs path contents h) (Holds contents)
  unfolding create_synced_temporary
  create_synced_temporary-Holds contents h =
      >>=-Ensures Anything (λ p. Anything) (Holds contents) _ _
        (record { ensured = λ w z a p e. tt })
        λ parent.
          >>=-Ensures Anything (Holds []) (Holds contents) _ _
            (map_error-Ensures Anything (Holds []) _ _
              (record { ensured = λ w z t p e. docs.new_in-ok parent w z t e }))
            λ t.
              >>=-Ensures (Holds [] t) (λ u. Holds [] t) (Holds contents) _ _
                (map_error-Ensures (Holds [] t) (λ u. Holds [] t) _ _
                  (Keeps-Ensures (λ w. docs.held w t) [] _
                    (docs.set_open_permissions-held t file_mode)))
                λ u.
                  >>=-Ensures (Holds [] t) (λ u. Holds contents t) (Holds contents) _ _
                    (map_error-Ensures (Holds [] t) (λ u. Holds contents t) _ _
                      (record { ensured = λ w z a p e. written t contents w z p e }))
                    λ u.
                      >>=-Ensures (Holds contents t) (λ u. Holds contents t) (Holds contents) _ _
                        (map_error-Ensures (Holds contents t) (λ u. Holds contents t) _ _
                          (Keeps-Ensures (λ w. docs.held w t) contents _
                            (docs.sync_temporary-held t)))
                        λ u. done-Ensures (Holds contents t) (Holds contents) t (λ w p. p)
