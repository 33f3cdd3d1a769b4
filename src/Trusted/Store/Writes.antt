-- ===== src/Trusted/Store/Writes.antt =====
-- What `write_all` and `load` of trusted_peers.rs do to the store's file.
use local_transfer.Prelude.{
  ℕ, ◌≤◌, ◌≡◌, ◌⊎◌, inl, inr, refl, ap, ◌∙◌, subst, false, Option, none, some, List, [], length,
  Bytes, ok, ltb, arith, one_result,
}
use local_transfer.Prelude.Actions.{
  Keeps, Leaves, Ensures, >>=-Leaves, >>=-Ensures, map_error-Leaves, map_error-Ensures,
  Keeps-Ensures, Keeps-Leaves, >>=-Keeps, map_error-Keeps, guarded-Leaves, guarded-Ensures,
  map_error, ◌>>◌,
}
use local_transfer.Prelude.Order.{pair_ord, list_ord, nat_ord}
use local_transfer.Prelude.Sort.{sort_by}
use local_transfer.Text.{codes}
use local_transfer.FileSystem.{FileSystem, Documented, Entry, regular}
use local_transfer.Persistence.{sync_parent_directory}
use local_transfer.Persistence.Keeps.{sync_parent_directory-Keeps, create_synced_temporary-Keeps}
use local_transfer.Persistence.Replace.{
  Ready, create_synced_temporary-Ready, persist-Ready, persist-Whole,
}
use local_transfer.Trusted.Format.{
  TrustedPeerRecord, TrustedPeers, no_peers, record_key, encode, max_trusted_peers,
}
use local_transfer.Trusted.Format.RoundTrip.{StoreIsValid}
use local_transfer.Trusted.Format.Validity.{decode-IsValid}
use local_transfer.Trusted.Store.{
  TrustedPeerStore, load, decode_read, harden_existing, replace_file, write_sorted, write_all,
  io_error, read_store_bytes,
}
use local_transfer.Trusted.Store.Locked.{load-Keeps}

ltb_false→le : (a b : ℕ) → ltb a b ≡ false → b ≤ a
ltb_false→le a b h = ground arith

no_peers-IsValid : StoreIsValid []
no_peers-IsValid = record { sorted = tt; distinct = tt; few = omega arith; valid = tt }

module _ {W : Type 0} (fs : FileSystem W) (store : TrustedPeerStore)
    (docs : Documented fs store.path) where
  -- What follows the rename.
  synced-Keeps :
      (f : fs.File)
      → Keeps docs.entry (
          map_error (io_error fs store (codes "sync trusted-peer store")) (fs.sync_all f)
          >> map_error
              (io_error fs store (codes "sync trusted-peer store directory"))
              (sync_parent_directory fs store.path))
  synced-Keeps f =
      >>=-Keeps docs.entry _ _ (map_error-Keeps docs.entry _ _ (docs.sync_all-Keeps f)) λ u.
        map_error-Keeps docs.entry _ _ (sync_parent_directory-Keeps fs store.path docs store.path)

  decode_read-IsValid :
      (r : Option Bytes) (peers : TrustedPeers)
      → decode_read fs store r ≡ ok peers
      → StoreIsValid peers.records
  decode_read-IsValid none peers h =
      subst (λ p. StoreIsValid p.records) (one_result _ no_peers peers refl h) no_peers-IsValid
  decode_read-IsValid (some bytes) peers h = decode-IsValid bytes peers h

  replace_file-Leaves :
      (old : Entry) (bytes : Bytes)
      → Leaves
          (λ w. docs.entry w ≡ old)
          (replace_file fs store bytes)
          (λ w. (docs.entry w ≡ old) ⊎ (docs.entry w ≡ regular bytes))
  unfolding replace_file
  replace_file-Leaves old bytes =
      >>=-Leaves _ _ (Ready fs store.path docs old bytes) _ _
        (map_error-Ensures _ _ _ _
          (create_synced_temporary-Ready fs store.path docs old bytes store.harden_parent))
        (Keeps-Leaves _ _ docs.entry _
          (map_error-Keeps docs.entry _ _
            (create_synced_temporary-Keeps fs store.path docs bytes store.harden_parent))
          (λ w v e p. inl (e ∙ p)))
        λ t.
          >>=-Leaves _ _ (λ f w. docs.entry w ≡ regular bytes) _ _
            (map_error-Ensures _ _ _ _ (persist-Ready fs store.path docs old bytes t))
            (map_error-Leaves _ _ _ _ (persist-Whole fs store.path docs old bytes t))
            λ f. Keeps-Leaves _ _ docs.entry _ (synced-Keeps f) (λ w v e p. inr (e ∙ p))

  replace_file-Ensures :
      (old : Entry) (bytes : Bytes)
      → Ensures
          (λ w. docs.entry w ≡ old)
          (replace_file fs store bytes)
          (λ u w. docs.entry w ≡ regular bytes)
  unfolding replace_file
  replace_file-Ensures old bytes =
      >>=-Ensures _ (Ready fs store.path docs old bytes) _ _ _
        (map_error-Ensures _ _ _ _
          (create_synced_temporary-Ready fs store.path docs old bytes store.harden_parent))
        λ t.
          >>=-Ensures _ (λ f w. docs.entry w ≡ regular bytes) _ _ _
            (map_error-Ensures _ _ _ _ (persist-Ready fs store.path docs old bytes t))
            λ f. Keeps-Ensures docs.entry (regular bytes) _ (synced-Keeps f)

  abbrev pub At : Entry → W → Type 0
  At old w = docs.entry w ≡ old

  -- What is loaded is valid, and the file is as it was.
  abbrev pub Loaded : Entry → TrustedPeers → W → Type 0
  Loaded old peers w = StoreIsValid peers.records × At old w

  loaded-IsValid : Ensures (λ w. Unit) (load fs store) (λ peers w. StoreIsValid peers.records)
  unfolding load
  loaded-IsValid =
      >>=-Ensures _ (λ u w. Unit) _ (harden_existing fs store) _
        (record { ensured = λ w z a p e. tt })
        λ u.
          >>=-Ensures _ (λ r w. Unit) _ (read_store_bytes fs store) _
            (record { ensured = λ w z a p e. tt })
            λ r. record { ensured = λ w z peers p e. decode_read-IsValid r peers (ap (λ x. x.0) e) }

  pub load-Ensures : (old : Entry) → Ensures (At old) (load fs store) (Loaded old)
  load-Ensures old = record {
    ensured = λ w z peers p e. (
      loaded-IsValid.ensured w z peers tt e,
      (Keeps-Ensures docs.entry old _ (load-Keeps fs store docs)).ensured w z peers p e,
    );
  }

  -- The file of records, which are not too many.
  abbrev pub Written : List TrustedPeerRecord → W → Type 0
  Written records w =
      (length records ≤ max_trusted_peers)
      × (docs.entry w ≡ regular (encode (sort_by record_key records)))

  write_sorted-Leaves :
      (old : Entry) (records : List TrustedPeerRecord)
      → Leaves
          (At old)
          (write_sorted fs store records)
          (λ w. At old w ⊎ At (regular (encode records)) w)
  unfolding write_sorted
  write_sorted-Leaves old records =
      guarded-Leaves _ _ _ _ _ (λ w p. inl p) λ small. replace_file-Leaves old (encode records)

  write_sorted-Ensures :
      (old : Entry) (records : List TrustedPeerRecord)
      → Ensures (At old) (write_sorted fs store records) (λ u. At (regular (encode records)))
  unfolding write_sorted
  write_sorted-Ensures old records =
      guarded-Ensures _ _ _ _ _ λ small. replace_file-Ensures old (encode records)

  pub write_all-Leaves :
      (old : Entry) (records : List TrustedPeerRecord)
      → Leaves (At old) (write_all fs store records) (λ w. At old w ⊎ Written records w)
  unfolding write_all
  write_all-Leaves old records =
      guarded-Leaves _ _ _ _ _ (λ w p. inl p)
        λ few. record {
          left = λ w p. elim ((write_sorted-Leaves old (sort_by record_key records)).left w p) [
            | inl same ↦ inl same
            | inr new ↦ inr (ltb_false→le max_trusted_peers (length records) few, new)
          ];
        }

  pub write_all-Ensures :
      (old : Entry) (records : List TrustedPeerRecord)
      → Ensures (At old) (write_all fs store records) (λ u. Written records)
  unfolding write_all
  write_all-Ensures old records = guarded-Ensures _ _ _ _ _ λ few. record {
    ensured = λ w z u p e. (
      ltb_false→le max_trusted_peers (length records) few,
      (write_sorted-Ensures old (sort_by record_key records)).ensured w z u p e,
    );
  }
