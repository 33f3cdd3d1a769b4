-- ===== src/Persistence/Complete.antt =====
-- persistence.rs where the file system works: every step succeeds.
use local_transfer.Prelude.{Bool, ◌≡◌, ◌≢◌, refl, Option, none, some, Bytes, ok_or, ◌||◌, ◌&&◌}
use local_transfer.Prelude.Actions.{
  Action, Brings, >>=-Brings, map_error-Brings, done-Brings, if-Brings, handle-Brings,
  weaken-Brings, fail, lift, ◌>>=◌,
}
use local_transfer.Text.{Text}
use local_transfer.FileSystem.{FileSystem, Documented, Working, IoError, not_found, missing}
use local_transfer.Persistence.{
  harden_existing_file, harden_existing_parent, inspect_parent, prepare_parent,
  create_synced_temporary, unless_missing, io_failure, inspect_directory, harden_file, is_file,
  is_dir, file_mode, directory_mode, is_none, is_true, invalid_path, set_file_permissions,
  set_directory_permissions,
}

absent-Brings :
    {W E B : Type 0} (S : W → Type 0) (Q : B → W → Type 0) (absent : Action W E B)
    (g : IoError → Action W E B) (e : IoError)
    → Brings S absent Q
    → Brings (λ w. (e ≡ not_found) × S w) (unless_missing absent g e) Q
absent-Brings S Q absent g e h = record { brings = λ w (x, s). rw x (h.brings w s) }

no_value : {A : Type 0} {a : A} → none ≡ some a → ⊥
no_value h = cc

-- `ok_or` of what is known to be there.
ok_or-Brings :
    {W E A B : Type 0} (P : W → Type 0) (Q : B → W → Type 0) (o : Option A) (a : A) (e : E)
    (f : A → Action W E B)
    → o ≡ some a
    → Brings P (f a) Q
    → Brings P (lift (ok_or o e) >>= f) Q
ok_or-Brings P Q o a e f h hf = rw h (record { brings = λ w p. hf.brings w p })

module _ {W : Type 0} (fs : FileSystem W) (path : Text) (docs : Documented fs path)
    (works : Working fs path docs) where
  abbrev dir : Text
  dir = works.directory_of

  pub harden_existing_file-Brings :
      Brings works.sound (harden_existing_file fs path) (λ u. works.sound)
  unfolding harden_existing_file set_file_permissions
  harden_existing_file-Brings =
      handle-Brings works.sound (λ t w. works.sound w × (docs.entry w ≢ missing))
        (λ e w. (e ≡ not_found) × works.sound w) (λ u. works.sound) (fs.symlink_metadata path) _ _
        (λ w v t p e. works.file_found w v t p e) (λ w v x p e. works.file_missing w v x p e)
        (λ t.
          if-Brings _ (λ u. works.sound) (is_file t) _ _
            (map_error-Brings _ _ _ _ (works.hardens_file file_mode))
            (done-Brings _ _ tt (λ w p. p.0)))
        (λ e.
          absent-Brings works.sound _ _ (λ source. fail (io_failure harden_file path source)) e
            (done-Brings _ _ tt (λ w p. p)))

  pub harden_existing_parent-Brings :
      Brings works.sound (harden_existing_parent fs path) (λ u. works.sound)
  unfolding harden_existing_parent set_directory_permissions
  harden_existing_parent-Brings =
      ok_or-Brings works.sound (λ u. works.sound) (fs.parent path) dir (invalid_path path) _
        works.parent_known
        (handle-Brings works.sound (λ t. works.made) (λ e w. (e ≡ not_found) × works.sound w)
          (λ u. works.sound) (fs.symlink_metadata dir) _ _
          (λ w v t p e. works.directory_found w v t p e)
          (λ w v x p e. works.directory_missing w v x p e)
          (λ t.
            if-Brings _ (λ u. works.sound) (is_dir t) _ _ (map_error-Brings _ _ _ _ hardened)
              (done-Brings _ _ tt (λ w p. works.made-sound w p)))
          (λ e.
            absent-Brings works.sound _ _ (λ source. fail (io_failure inspect_directory dir source))
              e (done-Brings _ _ tt (λ w p. p))))
    where
      hardened : Brings works.made (fs.set_permissions dir directory_mode) (λ u. works.sound)
      hardened =
          weaken-Brings _ (λ u. works.made) _ _ (λ u w p. works.made-sound w p)
            (works.hardens_directory directory_mode)

  inspect_parent-Brings : Brings works.sound (inspect_parent fs dir) (λ t. works.sound)
  unfolding inspect_parent
  inspect_parent-Brings =
      handle-Brings works.sound (λ t. works.made) (λ e w. (e ≡ not_found) × works.sound w)
        (λ u. works.sound) (fs.symlink_metadata dir) _ _
        (λ w v t p e. works.directory_found w v t p e)
        (λ w v x p e. works.directory_missing w v x p e)
        (λ t. done-Brings _ _ _ (λ w p. works.made-sound w p))
        (λ e.
          absent-Brings works.sound _ _ (λ source. fail (io_failure inspect_directory dir source)) e
            (done-Brings _ _ none (λ w p. p)))

  prepare_parent-Brings :
      (h : Bool) → Brings works.sound (prepare_parent fs path h) (λ p w. (p ≡ dir) × works.made w)
  unfolding prepare_parent set_directory_permissions
  prepare_parent-Brings h =
      ok_or-Brings works.sound _ (fs.parent path) dir (invalid_path path) _ works.parent_known (
        >>=-Brings works.sound (λ t. works.sound) _ _ _ inspect_parent-Brings
          λ existing.
            >>=-Brings works.sound (λ u. works.made) _ _ _
              (map_error-Brings _ _ _ _ works.creates_directory)
              λ u.
                >>=-Brings works.made (λ u. works.made) _ _ _
                  (if-Brings _ _ (is_none existing || (h && is_true existing)) _ _
                    (map_error-Brings _ _ _ _ (works.hardens_directory directory_mode))
                    (done-Brings _ _ tt (λ w p. p)))
                  λ u. done-Brings works.made _ dir (λ w p. (refl, p)))

  pub create_synced_temporary-Brings :
      (contents : Bytes) (h : Bool)
      → Brings works.sound (create_synced_temporary fs path contents h) (λ t w. works.live w t)
  unfolding create_synced_temporary
  create_synced_temporary-Brings contents h =
      >>=-Brings works.sound (λ p w. (p ≡ dir) × works.made w) _ _ _ (prepare_parent-Brings h)
        λ p.
          >>=-Brings _ (λ t w. works.live w t) _ _ _ (map_error-Brings _ _ _ _ (makes_in p))
            λ t.
              >>=-Brings (λ w. works.live w t) (λ u w. works.live w t) _ _ _
                (map_error-Brings _ _ _ _ (works.hardens_temporary t file_mode))
                λ u.
                  >>=-Brings (λ w. works.live w t) (λ u w. works.live w t) _ _ _
                    (map_error-Brings _ _ _ _ (works.writes t contents))
                    λ u.
                      >>=-Brings (λ w. works.live w t) (λ u w. works.live w t) _ _ _
                        (map_error-Brings _ _ _ _ (works.syncs_temporary t))
                        λ u. done-Brings _ _ t (λ w p. p)
    where
      makes_in :
          (p : Text) → Brings (λ w. (p ≡ dir) × works.made w) (fs.new_in p) (λ t w. works.live w t)
      makes_in p = record { brings = λ w (e, m). rw e (works.makes.brings w m) }
