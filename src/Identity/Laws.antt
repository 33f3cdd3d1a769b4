-- ===== src/Identity/Laws.antt =====
-- What `DeviceIdStore` of identity.rs does to the file of the identifier, and what is an identifier.
use local_transfer.Prelude.{
  ◌≡◌, ◌≢◌, ◌↔◌, sym, ap, ◌∙◌, Result, ok, err, none, some, Option, Option-cases, inl, inr, arith,
}
use local_transfer.Prelude.Actions.{
  if-Keeps, Keeps, KeepsFrom, Keeps-From, handle-From, >>=-From, map_error-Keeps, done-Keeps,
  fail-Keeps, lift-Keeps, >>=-Keeps, fail,
}
use local_transfer.Text.{Text, Text-discrete, codes}
use local_transfer.Text.Utf8.{as_bytes}
use local_transfer.FileSystem.{FileSystem, Documented, missing}
use local_transfer.Persistence.Keeps.{
  harden_existing_file-Keeps, harden_existing_parent-Keeps, create_synced_temporary-Keeps,
}
use local_transfer.Persistence.Present.{
  Present, unless_missing-From, unless_exists-From, persist_noclobber-From,
}
use local_transfer.Identity.{
  UuidText, ParseDeviceIdError, parse_device_id_error, DeviceIdStore, from_str, canonical,
  load_or_create, create, load_existing_after_race, harden_existing, io_error, id_text,
}

module _ {W : Type 0} (fs : FileSystem W) (store : DeviceIdStore)
    (docs : Documented fs store.path) where
  harden_existing-Keeps : Keeps docs.entry (harden_existing fs store)
  unfolding harden_existing
  harden_existing-Keeps =
      >>=-Keeps docs.entry _ _
        (if-Keeps docs.entry store.harden_parent _ _
          (map_error-Keeps docs.entry _ _
            (harden_existing_parent-Keeps fs store.path docs store.path))
          (done-Keeps docs.entry tt))
        λ u.
          map_error-Keeps docs.entry _ _ (harden_existing_file-Keeps fs store.path docs store.path)

module _ {Token : Type 0} ⦃u : UuidText Token⦄ where
  canonical-ok :
      (s : Text) (id c : Token) → canonical s c ≡ ok id → (s ≡ u.hyphenated id) × (u.version id ≡ 4)
  canonical-ok s id c h = elim (Text-discrete s (u.hyphenated c)) [
    | yes e ↦ ground arith
    | no n ↦ ground arith
  ]

  canonical-hyphenated :
      (s : Text) (id : Token) → s ≡ u.hyphenated id → u.version id ≡ 4 → canonical s id ≡ ok id
  canonical-hyphenated s id e v = elim (Text-discrete s (u.hyphenated id)) [
    | yes e ↦ ground arith
    | no n ↦ absurd (n e)
  ]

  abbrev chosen : Text → Option Token → Result ParseDeviceIdError Token
  chosen s o = elim o [ none ↦ err parse_device_id_error | some id ↦ canonical s id ]

  -- A text is read as an identifier exactly when it is the hyphenated text of the identifier,
  -- which has version 4.
  pub from_str_iff :
      (s : Text) (id : Token) → (from_str s ≡ ok id) ↔ ((s ≡ u.hyphenated id) × (u.version id ≡ 4))
  unfolding from_str
  from_str_iff s id = (
    elim (Option-cases (u.parse_str s)) [
      | inl e ↦ λ h. ground arith
      | inr (c, e) ↦ λ h. canonical-ok s id c (ap (chosen s) (sym e) ∙ h)
    ],
    λ (e, v).
        (ap (λ t. chosen s (u.parse_str t)) e
          ∙ ap (chosen s) (u.parse_str-hyphenated id)
          ∙ canonical-hyphenated s id e v),
  )

  module _ {W : Type 0} (fs : FileSystem W) (store : DeviceIdStore)
      (docs : Documented fs store.path) where
    load_existing_after_race-Keeps :
        Keeps {A = Token} docs.entry (load_existing_after_race fs store)
    unfolding load_existing_after_race
    load_existing_after_race-Keeps =
        >>=-Keeps docs.entry _ _
          (map_error-Keeps docs.entry _ _
            (harden_existing_file-Keeps fs store.path docs store.path))
          λ u.
            >>=-Keeps docs.entry _ _
              (map_error-Keeps docs.entry _ _ (docs.read_to_string-Keeps store.path))
              λ s. lift-Keeps docs.entry _

    create-From : (fresh : Token) → KeepsFrom Present docs.entry (create fs store fresh)
    unfolding create
    create-From fresh =
        >>=-From Present docs.entry _ _
          (Keeps-From Present docs.entry _ (
            map_error-Keeps docs.entry _ _ (
              create_synced_temporary-Keeps fs store.path docs (as_bytes (id_text fresh))
                store.harden_parent)))
          λ t.
            handle-From Present docs.entry _ _ _ (persist_noclobber-From fs store.path docs t)
              (λ f. Keeps-From Present docs.entry _ (
                >>=-Keeps docs.entry _ _ (map_error-Keeps docs.entry _ _ (docs.sync_all-Keeps f))
                  λ u. done-Keeps docs.entry fresh))
              (λ e.
                unless_exists-From docs.entry (load_existing_after_race {Token = Token} fs store)
                  (λ source. fail (io_error store (codes "persist device identity") source)) e
                  (Keeps-From Present docs.entry _ load_existing_after_race-Keeps)
                  (λ e. Keeps-From Present docs.entry _ (fail-Keeps docs.entry _)))

    load_or_create-From :
        (fresh : Token) → KeepsFrom Present docs.entry (load_or_create fs store fresh)
    unfolding load_or_create
    load_or_create-From fresh =
        >>=-From Present docs.entry _ _
          (Keeps-From Present docs.entry _ (harden_existing-Keeps fs store docs))
          λ u.
            handle-From Present docs.entry _ _ _
              (Keeps-From Present docs.entry _ (docs.read_to_string-Keeps store.path))
              (λ s. Keeps-From Present docs.entry _ (lift-Keeps docs.entry _))
              (λ e.
                unless_missing-From docs.entry (create fs store fresh)
                  (λ source. fail (io_error store (codes "read device identity") source)) e
                  (create-From fresh)
                  (λ e. Keeps-From Present docs.entry _ (fail-Keeps docs.entry _)))

    -- When something stands at the path of the identifier, load_or_create leaves it as it is,
    -- whatever its result. The file system is any that keeps what is documented of its calls for
    -- the file.
    pub load_or_create-same :
        (fresh : Token) (w : W)
        → docs.entry w ≢ missing
        → docs.entry (load_or_create fs store fresh w).1 ≡ docs.entry w
    load_or_create-same fresh w p = (load_or_create-From fresh).kept_from w p
