-- ===== src/Trusted/Store/Laws.antt =====
-- What `store` and `remove` of trusted_peers.rs leave of the store's file.
use local_transfer.Prelude.{
  ◌≡◌, ◌⊎◌, inl, inr, refl, sym, ap, ◌∙◌, subst, not, Option, none, some, List, Bytes, Result, ok,
}
use local_transfer.Prelude.Actions.{
  Action, Leaves, Ensures, >>=-Leaves, >>=-Ensures, Keeps-Ensures, Keeps-Leaves, if-Leaves,
  Leaves-Ensures, done,
}
use local_transfer.Prelude.Order.{pair_ord, list_ord, nat_ord}
use local_transfer.Prelude.Sort.{sort_by}
use local_transfer.FileSystem.{FileSystem, Documented, Entry, missing, regular}
use local_transfer.Trusted.{PeerKeyIdentity}
use local_transfer.Trusted.Errors.{TrustedPeerStoreError}
use local_transfer.Trusted.Format.{TrustedPeerRecord, TrustedPeers, record_key, decode}
use local_transfer.Trusted.Format.Lines.{RecordIsValid}
use local_transfer.Trusted.Format.RoundTrip.{StoreIsValid, decode-encode_file}
use local_transfer.Trusted.Lookup.{get, contains}
use local_transfer.Trusted.Store.{
  TrustedPeerStore, TrustedPeerRemoval, removed, already_absent, load, write_all, lock_exclusive,
  with_lock, unlocked_after, add, store_record, take_out, remove, without,
}
use local_transfer.Trusted.Store.Changes.{stored, stored-IsValid, without-IsValid, get-stored}
use local_transfer.Trusted.Store.Writes.{
  At, Loaded, load-Ensures, Written, write_all-Leaves, write_all-Ensures,
}
use local_transfer.Trusted.Store.Locked.{Beside, load-Keeps, lock_exclusive-Keeps}

module _ {W : Type 0} (fs : FileSystem W) (store : TrustedPeerStore)
    (docs : Documented fs store.path) where
  -- The file is missing, or it is read as a set of records.
  abbrev pub Loadable : Entry → Type 0
  Loadable e =
      (e ≡ missing)
      ⊎ ((bytes : Bytes) × (peers : TrustedPeers) × (e ≡ regular bytes) × (decode bytes ≡ ok peers))

  Written-Loadable :
      (records : List TrustedPeerRecord) (w : W)
      → StoreIsValid (sort_by record_key records)
      → Written fs store docs records w
      → Loadable (docs.entry w)
  Written-Loadable records w v h =
      inr (_, _, h.1, decode-encode_file (sort_by record_key records) v)

  -- The guard's release keeps the file.
  unlock-same :
      {A : Type 0} (f : fs.File) (r : Result TrustedPeerStoreError A × W)
      → docs.entry (unlocked_after fs store f r).1 ≡ docs.entry r.1
  unfolding unlocked_after
  unlock-same f (r, w) = (docs.unlock-Keeps f).kept w

  with_lock-Leaves :
      {A : Type 0} (old : Entry) (Q : Entry → Type 0) (body : Action W TrustedPeerStoreError A)
      → Beside fs store
      → Q old
      → Leaves (At fs store docs old) body (λ w. Q (docs.entry w))
      → Leaves (At fs store docs old) (with_lock fs store body) (λ w. Q (docs.entry w))
  unfolding with_lock
  with_lock-Leaves old Q body beside q h =
      >>=-Leaves _ _ (λ f. At fs store docs old) (lock_exclusive fs store) _
        (Keeps-Ensures docs.entry old _ (lock_exclusive-Keeps fs store docs beside))
        (Keeps-Leaves _ _ docs.entry _ (lock_exclusive-Keeps fs store docs beside)
          (λ w v e p. subst Q (sym (e ∙ p)) q))
        λ f. record { left = λ w p. subst Q (sym (unlock-same f (body w))) (h.left w p) }

  add-Leaves :
      (old : Entry) (r : TrustedPeerRecord)
      → RecordIsValid r
      → Loadable old
      → Leaves (At fs store docs old) (add fs store r) (λ w. Loadable (docs.entry w))
  unfolding add
  add-Leaves old r v l =
      >>=-Leaves _ _ (Loaded fs store docs old) (load fs store) _ (load-Ensures fs store docs old)
        (Keeps-Leaves _ _ docs.entry _ (load-Keeps fs store docs)
          (λ w v e p. subst Loadable (sym (e ∙ p)) l))
        λ peers. record {
          left = λ w (valid, same).
              elim ((write_all-Leaves fs store docs old (stored r peers.records)).left w same) [
                | inl kept ↦ subst Loadable (sym kept) l
                | inr new ↦
                    Written-Loadable (stored r peers.records) _
                      (stored-IsValid r peers.records v valid new.0) new
              ];
        }

  without-Leaves :
      (old : Entry) (i : PeerKeyIdentity) (peers : TrustedPeers)
      → Loadable old
      → Leaves
          (Loaded fs store docs old peers)
          (write_all fs store (without i peers.records))
          (λ w. Loadable (docs.entry w))
  without-Leaves old i peers l = record {
    left = λ w (valid, same).
        elim ((write_all-Leaves fs store docs old (without i peers.records)).left w same) [
          | inl kept ↦ subst Loadable (sym kept) l
          | inr new ↦
              Written-Loadable (without i peers.records) _
                (without-IsValid i peers.records valid new.0) new
        ];
  }

  take_out-Leaves :
      (old : Entry) (i : PeerKeyIdentity)
      → Loadable old
      → Leaves (At fs store docs old) (take_out fs store i) (λ w. Loadable (docs.entry w))
  unfolding take_out
  take_out-Leaves old i l =
      >>=-Leaves _ _ (Loaded fs store docs old) (load fs store) _ (load-Ensures fs store docs old)
        (Keeps-Leaves _ _ docs.entry _ (load-Keeps fs store docs)
          (λ w v e p. subst Loadable (sym (e ∙ p)) l))
        λ peers.
          if-Leaves _ _ (not (contains peers i)) (done already_absent) _
            (record { left = λ w p. subst Loadable (sym p.1) l })
            (>>=-Leaves _ _ (λ u w. Loadable (docs.entry w))
              (write_all fs store (without i peers.records)) (λ u. done removed)
              (Leaves-Ensures _ _ _ (without-Leaves old i peers l)) (without-Leaves old i peers l)
              (λ u. record { left = λ w p. p }))

  -- Storing a valid record, whether it succeeds or fails at any step, leaves the file of the store
  -- missing or readable as a set of trusted peers, if it was missing or readable before. The file
  -- system is any that keeps what is documented of its calls for the file, the lock file is
  -- another file of the same directory, and nothing else changes the file.
  pub store_record-Loadable :
      (r : TrustedPeerRecord) (w : W)
      → Beside fs store
      → RecordIsValid r
      → Loadable (docs.entry w)
      → Loadable (docs.entry (store_record fs store r w).1)
  unfolding store_record
  store_record-Loadable r w beside v l =
      (with_lock-Leaves (docs.entry w) Loadable (add fs store r) beside l
          (add-Leaves (docs.entry w) r v l)).left
        w refl

  pub remove-Loadable :
      (i : PeerKeyIdentity) (w : W)
      → Beside fs store
      → Loadable (docs.entry w)
      → Loadable (docs.entry (remove fs store i w).1)
  unfolding remove
  remove-Loadable i w beside l =
      (with_lock-Leaves (docs.entry w) Loadable (take_out fs store i) beside l
          (take_out-Leaves (docs.entry w) i l)).left
        w refl

  unlocked :
      {A : Type 0} (Q : A → Entry → Type 0) (f : fs.File) (r : Result TrustedPeerStoreError A × W)
      (a : A) (z : W)
      → unlocked_after fs store f r ≡ (ok a, z)
      → (r ≡ (ok a, r.1) → Q a (docs.entry r.1))
      → Q a (docs.entry z)
  unfolding unlocked_after
  unlocked Q f (r, w) a z e h =
      let same = sym ((docs.unlock-Keeps f).kept w) ∙ ap (λ x. docs.entry x.1) e in
      subst (Q a) same (h (ap (λ x. (x, w)) (ap (λ x. x.0) e)))

  with_lock-Ensures :
      {A : Type 0} (old : Entry) (Q : A → Entry → Type 0) (body : Action W TrustedPeerStoreError A)
      → Beside fs store
      → Ensures (At fs store docs old) body (λ a w. Q a (docs.entry w))
      → Ensures (At fs store docs old) (with_lock fs store body) (λ a w. Q a (docs.entry w))
  unfolding with_lock
  with_lock-Ensures old Q body beside h =
      >>=-Ensures _ (λ f. At fs store docs old) _ (lock_exclusive fs store) _
        (Keeps-Ensures docs.entry old _ (lock_exclusive-Keeps fs store docs beside))
        λ f. record { ensured = λ w z a p e. unlocked Q f (body w) a z e (h.ensured w _ a p) }

  -- The set in the file, and what is found of an identity in it.
  abbrev pub Holding : PeerKeyIdentity → Option TrustedPeerRecord → Entry → Type 0
  Holding i found e =
      (bytes : Bytes) × (peers : TrustedPeers) × (e ≡ regular bytes)
      × (decode bytes ≡ ok peers)
      × (get peers i ≡ found)

  add-Ensures :
      (old : Entry) (r : TrustedPeerRecord)
      → RecordIsValid r
      → Ensures
          (At fs store docs old)
          (add fs store r)
          (λ u w. Holding r.identity (some r) (docs.entry w))
  unfolding add
  add-Ensures old r v =
      >>=-Ensures _ (Loaded fs store docs old) _ (load fs store) _ (load-Ensures fs store docs old)
        λ peers. record {
          ensured = λ w z u (valid, same) e.
              let written =
                (write_all-Ensures fs store docs old (stored r peers.records)).ensured w z u same
                  e in
              let good = stored-IsValid r peers.records v valid written.0 in
              (_, _, written.1, decode-encode_file _ good, get-stored r peers.records good);
        }

  -- When storing a valid record succeeds, the file of the store holds bytes that decode to a set
  -- of trusted peers in which the identity of the record is found with that record. The file
  -- system is any that keeps what is documented of its calls for the file, and the lock file is
  -- another file of the same directory.
  pub store_record-get :
      (r : TrustedPeerRecord) (w z : W)
      → Beside fs store
      → RecordIsValid r
      → store_record fs store r w ≡ (ok tt, z)
      → Holding r.identity (some r) (docs.entry z)
  unfolding store_record
  store_record-get r w z beside v h =
      (with_lock-Ensures (docs.entry w) (λ u. Holding r.identity (some r)) (add fs store r) beside
          (add-Ensures (docs.entry w) r v)).ensured
        w z tt refl h

  -- What a removal that succeeded says of the file.
  abbrev pub Outcome : Entry → PeerKeyIdentity → TrustedPeerRemoval → Entry → Type 0
  Outcome old i removed e = Holding i none e
  Outcome old i already_absent e = e ≡ old
