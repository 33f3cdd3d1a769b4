-- ===== src/DeviceName/Store/Working.antt =====
-- `DeviceNameStore` of device_name.rs in worlds where what its calls need is there.
use mathlib.Core.Option.{some-injective}
use local_transfer.Prelude.{
  ◌≡◌, refl, sym, ap, ◌∙◌, subst, [], ◌∷◌, Result, ok, err, All, All-append, arith, inl,
  if◌then◌else◌,
}
use local_transfer.Prelude.Actions.{
  if-Keeps, Action, Brings, Brought, >>=-Brings, map_error-Brings, done-Brings, if-Brings,
  kept-Brings, Brought-result, Keeps, map_error-Keeps, done-Keeps, continue, done, lift, map_error,
}
use local_transfer.Text.{Text, IsScalar}
use local_transfer.Text.Trim.{All-trim}
use local_transfer.Text.Utf8.{as_bytes, from_utf8-as_bytes}
use local_transfer.Text.Split.{strip_suffix_last}
use local_transfer.FileSystem.{FileSystem, Documented, Working, IoError}
use local_transfer.Persistence.{harden_existing_parent}
use local_transfer.Persistence.Keeps.{harden_existing_file-Keeps, harden_existing_parent-Keeps}
use local_transfer.Persistence.Complete.{
  harden_existing_file-Brings, harden_existing_parent-Brings, create_synced_temporary-Brings,
}
use local_transfer.DeviceName.{DeviceName, new}
use local_transfer.DeviceName.Laws.{new_iff, new_of_IsValid}
use local_transfer.DeviceName.Store.{
  DeviceNameStore, DeviceNameError, load_or_create, update, write_name, write_temporary_name,
  parse_persisted, name_text, persistence_error,
}
use local_transfer.DeviceName.Store.Laws.{name_entry, update-stored}

-- A name of text that is accepted as it is.
record Storable (n : DeviceName) : Type 0 where
  text : All IsScalar n.value
  accepted : new n.value ≡ ok n

new-Storable : (value : Text) (n : DeviceName) → All IsScalar value → new value ≡ ok n → Storable n
new-Storable value n h e =
    let (p, same, v) = (new_iff value n).0 e in
    record { text = rw same (All-trim IsScalar value h); accepted = new_of_IsValid n v }

name_text-IsScalar : (n : DeviceName) → Storable n → All IsScalar (name_text n)
name_text-IsScalar n s = All-append IsScalar n.value (b'\n' ∷ []) s.text (inl (omega arith), tt)

parse_persisted-name_text :
    (store : DeviceNameStore) (n : DeviceName)
    → Storable n
    → parse_persisted store (name_text n) ≡ ok n
unfolding parse_persisted
parse_persisted-name_text store n s = rw (strip_suffix_last b'\n' n.value, s.accepted) refl

module _ {W : Type 0} (fs : FileSystem W) (store : DeviceNameStore)
    (docs : Documented fs store.path) (works : Working fs store.path docs) where
  write_name-Brings :
      (n : DeviceName) → Brings works.sound (write_name fs store n) (λ m w. (m ≡ n) × works.sound w)
  unfolding write_name write_temporary_name
  write_name-Brings n =
      >>=-Brings works.sound (λ t w. works.live w t) _ _ _
        (map_error-Brings _ _ _ _ (
          create_synced_temporary-Brings fs store.path docs works (as_bytes (name_text n))
            store.harden_parent))
        λ t.
          >>=-Brings (λ w. works.live w t) (λ f w. works.opened w f) _ _ _
            (map_error-Brings _ _ _ _ (works.renames t))
            λ f.
              >>=-Brings (λ w. works.opened w f) (λ u. works.sound) _ _ _
                (map_error-Brings _ _ _ _ (works.syncs f)) λ u. done-Brings _ _ n (λ w p. (refl, p))

  -- The steps before the read.
  abbrev harden_parent_first : Action W DeviceNameError (Unit {0})
  harden_parent_first =
      if store.harden_parent
      then map_error persistence_error (harden_existing_parent fs store.path)
      else done tt

  harden_parent_first-Brings : Brings works.sound harden_parent_first (λ u. works.sound)
  harden_parent_first-Brings =
      if-Brings works.sound _ store.harden_parent _ _
        (map_error-Brings _ _ persistence_error _
          (harden_existing_parent-Brings fs store.path docs works))
        (done-Brings _ _ tt (λ w p. p))

  harden_parent_first-Keeps : Keeps docs.entry harden_parent_first
  harden_parent_first-Keeps =
      if-Keeps docs.entry store.harden_parent _ _
        (map_error-Keeps docs.entry _ _
          (harden_existing_parent-Keeps fs store.path docs store.path))
        (done-Keeps docs.entry tt)

  -- A sound world where the file holds the name.
  abbrev Stored : DeviceName → W → Type 0
  Stored n w = works.sound w × (docs.entry w ≡ name_entry fs store docs n)

  read_name :
      (n : DeviceName) (w : W) (r : Result IoError Text × W)
      → Storable n
      → Stored n w
      → fs.read_to_string store.path w ≡ r
      → Brought (λ s. works.sound) r
      → (s : Text) (v : W) → r ≡ (ok s, v)
      → parse_persisted store s ≡ ok n
  read_name n w r h p e b s v k =
      let read = docs.read_to_string-ok (as_bytes (name_text n)) s w v p.1 (e ∙ k) in
      let back = from_utf8-as_bytes (name_text n) (name_text-IsScalar n h) in
      let same = some-injective (name_text n) s (sym back ∙ read) in
      subst (λ t. parse_persisted store t ≡ ok n) same (parse_persisted-name_text store n h)

  read_outcome :
      (n : DeviceName) (w : W) (r : Result IoError Text × W)
      (g : IoError → Action W DeviceNameError DeviceName)
      → Storable n
      → Stored n w
      → fs.read_to_string store.path w ≡ r
      → Brought (λ s. works.sound) r
      → Brought (λ m v. m ≡ n) (continue r (λ contents. lift (parse_persisted store contents)) g)
  read_outcome n w (ok s, v) g h p e b = rw (read_name n w (ok s, v) h p e b s v refl) refl
  read_outcome n w (err x, v) g h p e b = absurd b

  load_or_create-Brings :
      (n : DeviceName) → Storable n → Brings (Stored n) (load_or_create fs store) (λ m w. m ≡ n)
  unfolding load_or_create
  load_or_create-Brings n h =
      >>=-Brings (Stored n) (λ u. Stored n) _ _ _
        (kept-Brings docs.entry _ _ _ _ harden_parent_first-Keeps harden_parent_first-Brings)
        λ u.
          >>=-Brings (Stored n) (λ u. Stored n) _ _ _
            (kept-Brings docs.entry _ _ _ _
              (map_error-Keeps docs.entry _ _
                (harden_existing_file-Keeps fs store.path docs store.path))
              (map_error-Brings _ _ persistence_error _
                (harden_existing_file-Brings fs store.path docs works)))
            λ u. record {
              brings = λ w p. read_outcome n w _ _ h p refl (
                  (works.reads (as_bytes (name_text n)) (name_text n)
                      (from_utf8-as_bytes (name_text n) (name_text-IsScalar n h))).brings
                    w p);
            }

  -- Where the calls on the file system succeed when what they need is there, and in a world that
  -- is sound for the path of the device name (Working says what both mean), updating the name to a
  -- text that DeviceName::new accepts succeeds with that name, and loading then succeeds with the
  -- same name.
  pub load_or_create-update :
      (value : Text) (n : DeviceName) (w : W)
      → All IsScalar value
      → new value ≡ ok n
      → works.sound w
      → ((update fs store value w).0 ≡ ok n)
        × ((load_or_create fs store (update fs store value w).1).0 ≡ ok n)
  unfolding update
  load_or_create-update value n w h e sound =
      let run : update fs store value w ≡ write_name fs store n w = rw e refl in
      let (m, given, (same, after)) =
        Brought-result (λ m w. (m ≡ n) × works.sound w) (write_name fs store n w)
          ((write_name-Brings n).brings w sound) in
      let first : update fs store value w ≡ (ok n, (write_name fs store n w).1) =
        run ∙ given ∙ ap (λ m. (ok m, (write_name fs store n w).1)) same in
      let (k, stored) = update-stored fs store docs value n w _ first in
      let (p, loaded, right) =
        Brought-result (λ m w. m ≡ n) (load_or_create fs store (write_name fs store n w).1)
          ((load_or_create-Brings n (new-Storable value n h e)).brings _ (after, stored)) in
      (
        ap (λ r. r.0) first,
        ap (λ v. (load_or_create fs store v).0) (ap (λ r. r.1) first)
            ∙ ap (λ r. r.0) loaded
            ∙ ap (λ p. ok p) right,
      )
