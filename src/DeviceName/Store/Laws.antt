-- ===== src/DeviceName/Store/Laws.antt =====
-- What `DeviceNameStore` of device_name.rs does to the file of the name.
use local_transfer.Prelude.{
  ◌≡◌, ◌≢◌, ◌⊎◌, inl, inr, refl, sym, ap, ◌∙◌, ok, err, map_err, Result-cases, Bytes, subst,
  map_err-ok,
}
use local_transfer.Prelude.Actions.{
  if-Keeps, Keeps, KeepsFrom, Keeps-From, handle-From, >>=-From, map_error-Keeps, done-Keeps,
  fail-Keeps, lift-Keeps, Ensures, Leaves, >>=-Ensures, >>=-Leaves, map_error-Ensures,
  map_error-Leaves, done-Ensures, Keeps-Ensures, Keeps-Leaves, >>=-succeeded, >>=-Keeps, fail, lift,
}
use local_transfer.Text.{Text, codes}
use local_transfer.Text.Utf8.{as_bytes}
use local_transfer.FileSystem.{FileSystem, Documented, Entry, missing, regular}
use local_transfer.Persistence.Keeps.{
  harden_existing_file-Keeps, harden_existing_parent-Keeps, create_synced_temporary-Keeps,
}
use local_transfer.Persistence.Present.{
  Present, unless_missing-From, unless_exists-From, persist_noclobber-From,
}
use local_transfer.Persistence.Replace.{
  Ready, create_synced_temporary-Ready, persist-Ready, persist-Whole,
}
use local_transfer.DeviceName.{DeviceName, DeviceNameValidationError, new, default}
use local_transfer.DeviceName.Store.{
  DeviceNameStore, load_or_create, create_default, load_existing_after_race, update, write_name,
  validation, write_temporary_name, io_error, name_text,
}

module _ {W : Type 0} (fs : FileSystem W) (store : DeviceNameStore)
    (docs : Documented fs store.path) where
  load_existing_after_race-Keeps : Keeps docs.entry (load_existing_after_race fs store)
  unfolding load_existing_after_race
  load_existing_after_race-Keeps =
      >>=-Keeps docs.entry _ _
        (map_error-Keeps docs.entry _ _ (harden_existing_file-Keeps fs store.path docs store.path))
        λ u.
          >>=-Keeps docs.entry _ _
            (map_error-Keeps docs.entry _ _ (docs.read_to_string-Keeps store.path))
            λ s. lift-Keeps docs.entry _

  write_temporary_name-Keeps : (n : DeviceName) → Keeps docs.entry (write_temporary_name fs store n)
  unfolding write_temporary_name
  write_temporary_name-Keeps n = map_error-Keeps docs.entry _ _ (
      create_synced_temporary-Keeps fs store.path docs (as_bytes (name_text n)) store.harden_parent)

  create_default-From : KeepsFrom Present docs.entry (create_default fs store)
  unfolding create_default
  create_default-From =
      >>=-From Present docs.entry _ _
        (Keeps-From Present docs.entry _ (write_temporary_name-Keeps default))
        λ t.
          handle-From Present docs.entry _ _ _ (persist_noclobber-From fs store.path docs t)
            (λ f. Keeps-From Present docs.entry _ (
              >>=-Keeps docs.entry _ _ (map_error-Keeps docs.entry _ _ (docs.sync_all-Keeps f))
                λ u. done-Keeps docs.entry default))
            (λ e.
              unless_exists-From docs.entry (load_existing_after_race fs store)
                (λ source. fail (io_error store (codes "persist device display name") source)) e
                (Keeps-From Present docs.entry _ load_existing_after_race-Keeps)
                (λ e. Keeps-From Present docs.entry _ (fail-Keeps docs.entry _)))

  load_or_create-From : KeepsFrom Present docs.entry (load_or_create fs store)
  unfolding load_or_create
  load_or_create-From =
      >>=-From Present docs.entry _ _
        (Keeps-From Present docs.entry _ (
          if-Keeps docs.entry store.harden_parent _ _
            (map_error-Keeps docs.entry _ _
              (harden_existing_parent-Keeps fs store.path docs store.path))
            (done-Keeps docs.entry tt)))
        λ u.
          >>=-From Present docs.entry _ _
            (Keeps-From Present docs.entry _ (
              map_error-Keeps docs.entry _ _
                (harden_existing_file-Keeps fs store.path docs store.path)))
            λ u.
              handle-From Present docs.entry _ _ _
                (Keeps-From Present docs.entry _ (docs.read_to_string-Keeps store.path))
                (λ s. Keeps-From Present docs.entry _ (lift-Keeps docs.entry _))
                (λ e.
                  unless_missing-From docs.entry (create_default fs store)
                    (λ source. fail (io_error store (codes "read device display name") source)) e
                    create_default-From
                    (λ e. Keeps-From Present docs.entry _ (fail-Keeps docs.entry _)))

  -- When something stands at the path of the device name, load_or_create leaves it as it is,
  -- whatever its result. The file system is any that keeps what is documented of its calls for the
  -- file.
  pub load_or_create-kept :
      (w : W) → docs.entry w ≢ missing → docs.entry (load_or_create fs store w).1 ≡ docs.entry w
  load_or_create-kept w p = load_or_create-From.kept_from w p

  -- The name's file, complete.
  abbrev pub name_entry : DeviceName → Entry
  name_entry n = regular (as_bytes (name_text n))

  abbrev name_bytes : DeviceName → Bytes
  name_bytes n = as_bytes (name_text n)

  write_temporary_name-Ready :
      (old : Entry) (n : DeviceName)
      → Ensures
          (λ w. docs.entry w ≡ old)
          (write_temporary_name fs store n)
          (Ready fs store.path docs old (name_bytes n))
  unfolding write_temporary_name
  write_temporary_name-Ready old n =
      map_error-Ensures _ _ _ _
        (create_synced_temporary-Ready fs store.path docs old (name_bytes n) store.harden_parent)

  -- The old file or the new one, whole.
  abbrev Whole : Entry → DeviceName → W → Type 0
  Whole old n w = (docs.entry w ≡ old) ⊎ (docs.entry w ≡ name_entry n)

  write_name-Whole :
      (old : Entry) (n : DeviceName)
      → Leaves (λ w. docs.entry w ≡ old) (write_name fs store n) (Whole old n)
  unfolding write_name
  write_name-Whole old n =
      >>=-Leaves _ (Whole old n) (Ready fs store.path docs old (name_bytes n)) _ _
        (write_temporary_name-Ready old n)
        (Keeps-Leaves _ (Whole old n) docs.entry _ (write_temporary_name-Keeps n)
          (λ w v e p. inl (e ∙ p)))
        λ t.
          >>=-Leaves _ (Whole old n) (λ f w. docs.entry w ≡ name_entry n) _ _
            (map_error-Ensures _ _ _ _ (persist-Ready fs store.path docs old (name_bytes n) t))
            (map_error-Leaves _ (Whole old n) _ _
              (persist-Whole fs store.path docs old (name_bytes n) t))
            λ f.
              Keeps-Leaves _ (Whole old n) docs.entry _
                (>>=-Keeps docs.entry _ _ (map_error-Keeps docs.entry _ _ (docs.sync_all-Keeps f))
                  λ u. done-Keeps docs.entry n)
                (λ w v e p. inr (e ∙ p))

  pub write_name-Ensures :
      (old : Entry) (n : DeviceName)
      → Ensures
          (λ w. docs.entry w ≡ old)
          (write_name fs store n)
          (λ m w. (m ≡ n) × (docs.entry w ≡ name_entry n))
  unfolding write_name
  write_name-Ensures old n =
      >>=-Ensures _ (Ready fs store.path docs old (name_bytes n)) _ _ _
        (write_temporary_name-Ready old n)
        λ t.
          >>=-Ensures _ (λ f w. docs.entry w ≡ name_entry n) _ _ _
            (map_error-Ensures _ _ _ _ (persist-Ready fs store.path docs old (name_bytes n) t))
            λ f.
              >>=-Ensures _ (λ u w. docs.entry w ≡ name_entry n) _ _ _
                (map_error-Ensures _ _ _ _
                  (Keeps-Ensures docs.entry (name_entry n) _ (docs.sync_all-Keeps f)))
                λ u. done-Ensures _ _ n (λ w p. (refl, p))

  -- What an update comes to, its name rejected or accepted.
  abbrev pub Rejected : Text → W → Type 0
  Rejected value w =
      (e : DeviceNameValidationError) × (new value ≡ err e)
      × (update fs store value w ≡ (err (validation e), w))

  abbrev pub Accepted : Text → W → Type 0
  Accepted value w =
      (n : DeviceName) × (new value ≡ ok n) × Whole (docs.entry w) n (update fs store value w).1

  -- An update of the device name to a text that DeviceName::new rejects gives the validation error
  -- and leaves the world as it was; with any other text the file holds after it, whatever its
  -- result, what it held before or the new name and the end of a line, whole. The file system is
  -- any that keeps what is documented of its calls for the file.
  pub update_outcome : (value : Text) (w : W) → Rejected value w ⊎ Accepted value w
  unfolding update
  update_outcome value w = elim (Result-cases (new value)) [
    | inl (n, e) ↦
        let run : update fs store value w ≡ write_name fs store n w = rw e refl in
        inr (
          n,
          e,
          subst (λ r. Whole (docs.entry w) n r.1) (sym run)
              ((write_name-Whole (docs.entry w) n).left w refl),
        )
    | inr (e, h) ↦ inl (e, h, rw h refl)
  ]

  pub update-stored :
      (value : Text) (n : DeviceName) (w z : W)
      → update fs store value w ≡ (ok n, z)
      → (new value ≡ ok n) × (docs.entry z ≡ name_entry n)
  unfolding update
  update-stored value n w z h =
      let (m, v, e, d) =
        >>=-succeeded (lift (map_err validation (new value))) (write_name fs store) n w z h in
      let here = ap (λ r. r.0) e in
      let (k, stored) = (write_name-Ensures (docs.entry v) m).ensured v z n refl d in
      (map_err-ok validation (new value) n (rw k here), rw k stored)
