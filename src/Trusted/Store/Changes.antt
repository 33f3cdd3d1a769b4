-- ===== src/Trusted/Store/Changes.antt =====
-- The set of records that `store` and `remove` of trusted_peers.rs write.
use local_transfer.Prelude.{
  ◌≤◌, ◌≡◌, ◌≢◌, ◌⊎◌, inl, inr, refl, sym, ap, ◌∙◌, subst, true, false, none, some, List, [], ◌∷◌,
  ◌++◌, length, All, All-append, arith, if_pos, if_neg, Bool-cases,
}
use local_transfer.Prelude.Order.{pair_ord, list_ord, nat_ord, pair_le?}
use local_transfer.Prelude.Sort.{
  Distinct, sort_by, insert_by, sort_by-Sorted, All-sort_by, Distinct-sort_by, length-sort_by,
}
use local_transfer.Trusted.{PeerKeyIdentity}
use local_transfer.Trusted.Format.{
  TrustedPeerRecord, record_key, identity_key, identity-discrete, max_trusted_peers,
}
use local_transfer.Trusted.Format.Lines.{RecordIsValid}
use local_transfer.Trusted.Format.RoundTrip.{StoreIsValid}
use local_transfer.Trusted.Lookup.{get, find}
use local_transfer.Trusted.Lookup.Search.{get-find}
use local_transfer.Trusted.Store.{without}

identity_of_key : (i j : PeerKeyIdentity) → identity_key i ≡ identity_key j → i ≡ j
identity_of_key i j e = ap (λ k. record { scheme = k.0; material = k.1 }) e

All-without :
    (P : TrustedPeerRecord → Type 0) (i : PeerKeyIdentity) (records : List TrustedPeerRecord)
    → All P records
    → All P (without i records)
unfolding without
All-without P i [] h = tt
All-without P i (r ∷ records) h = elim (identity-discrete r.identity i) [
  | yes e ↦ rw (if_pos (identity-discrete r.identity i) e true false) (All-without P i records h.1)
  | no n ↦
      rw (if_neg (identity-discrete r.identity i) n true false) (h.0, All-without P i records h.1)
]

-- No record of the identity is left.
pub without_none :
    (i : PeerKeyIdentity) (records : List TrustedPeerRecord)
    → All (λ r. r.identity ≢ i) (without i records)
unfolding without
without_none i [] = tt
without_none i (r ∷ records) = elim (identity-discrete r.identity i) [
  | yes e ↦ rw (if_pos (identity-discrete r.identity i) e true false) (without_none i records)
  | no n ↦ rw (if_neg (identity-discrete r.identity i) n true false) (n, without_none i records)
]

Distinct-without :
    (i : PeerKeyIdentity) (records : List TrustedPeerRecord)
    → Distinct record_key records
    → Distinct record_key (without i records)
unfolding without
Distinct-without i [] d = tt
Distinct-without i (r ∷ records) d = elim (identity-discrete r.identity i) [
  | yes e ↦
      rw (if_pos (identity-discrete r.identity i) e true false) (Distinct-without i records d.1)
  | no n ↦
      rw (if_neg (identity-discrete r.identity i) n true false) (
        All-without (λ y. record_key y ≢ record_key r) i records d.0,
        Distinct-without i records d.1,
      )
]

Distinct-append :
    (records : List TrustedPeerRecord) (r : TrustedPeerRecord)
    → Distinct record_key records
    → All (λ y. y.identity ≢ r.identity) records
    → Distinct record_key (records ++ r ∷ [])
Distinct-append [] r d n = (tt, tt)
Distinct-append (x ∷ records) r d n = (
  All-append (λ y. record_key y ≢ record_key x) records (r ∷ []) d.0
      (λ e. n.0 (identity_of_key x.identity r.identity (sym e)), tt),
  Distinct-append records r d.1 n.1,
)

-- The set after `store`, and the set after `remove`.
abbrev pub stored : TrustedPeerRecord → List TrustedPeerRecord → List TrustedPeerRecord
stored r records = without r.identity records ++ r ∷ []

sorted-IsValid :
    (records : List TrustedPeerRecord)
    → Distinct record_key records
    → All RecordIsValid records
    → length records ≤ max_trusted_peers
    → StoreIsValid (sort_by record_key records)
sorted-IsValid records d v few = record {
  sorted = sort_by-Sorted record_key records;
  distinct = Distinct-sort_by record_key record_key records d;
  few = omega (arith, few, length-sort_by record_key records);
  valid = All-sort_by record_key RecordIsValid records v;
}

pub stored-IsValid :
    (r : TrustedPeerRecord) (records : List TrustedPeerRecord)
    → RecordIsValid r
    → StoreIsValid records
    → length (stored r records) ≤ max_trusted_peers
    → StoreIsValid (sort_by record_key (stored r records))
stored-IsValid r records v s few =
    sorted-IsValid (stored r records)
      (Distinct-append (without r.identity records) r
        (Distinct-without r.identity records s.distinct) (without_none r.identity records))
      (All-append RecordIsValid (without r.identity records) (r ∷ [])
        (All-without RecordIsValid r.identity records s.valid) (v, tt))
      few

pub without-IsValid :
    (i : PeerKeyIdentity) (records : List TrustedPeerRecord)
    → StoreIsValid records
    → length (without i records) ≤ max_trusted_peers
    → StoreIsValid (sort_by record_key (without i records))
without-IsValid i records s few =
    sorted-IsValid (without i records) (Distinct-without i records s.distinct)
      (All-without RecordIsValid i records s.valid) few

-- The record is in the list.
In : TrustedPeerRecord → List TrustedPeerRecord → Type 0
In r [] = ⊥
In r (x ∷ records) = (x ≡ r) ⊎ In r records

In-insert_by :
    (r x : TrustedPeerRecord) (records : List TrustedPeerRecord)
    → (x ≡ r) ⊎ In r records
    → In r (insert_by record_key x records)
unfolding In insert_by
In-insert_by r x [] h = h
In-insert_by r x (y ∷ records) h = elim (Bool-cases (pair_le? (record_key x) (record_key y))) [
  | inl le ↦ rw le h
  | inr gt ↦ rw gt (elim h [
    | inl e ↦ inr (In-insert_by r x records (inl e))
    | inr (inl e) ↦ inl e
    | inr (inr i) ↦ inr (In-insert_by r x records (inr i))
  ])
]

In-sort_by :
    (r : TrustedPeerRecord) (records : List TrustedPeerRecord)
    → In r records
    → In r (sort_by record_key records)
unfolding In sort_by
In-sort_by r [] h = h
In-sort_by r (x ∷ records) (inl e) = In-insert_by r x (sort_by record_key records) (inl e)
In-sort_by r (x ∷ records) (inr i) =
    In-insert_by r x (sort_by record_key records) (inr (In-sort_by r records i))

In-last : (r : TrustedPeerRecord) (records : List TrustedPeerRecord) → In r (records ++ r ∷ [])
unfolding In
In-last r [] = inl refl
In-last r (x ∷ records) = inr (In-last r records)

All-In :
    (P : TrustedPeerRecord → Type 0) (r : TrustedPeerRecord) (records : List TrustedPeerRecord)
    → All P records
    → In r records
    → P r
unfolding In
All-In P r [] h i = absurd i
All-In P r (x ∷ records) h (inl e) = subst P e h.0
All-In P r (x ∷ records) h (inr i) = All-In P r records h.1 i

find-In :
    (r : TrustedPeerRecord) (records : List TrustedPeerRecord)
    → Distinct record_key records
    → In r records
    → find records r.identity ≡ some r
unfolding In find
find-In r [] d i = absurd i
find-In r (x ∷ records) d (inl e) =
    if_pos (identity-discrete x.identity r.identity) (ap (λ y. y.identity) e) _ _ ∙ ap some e
find-In r (x ∷ records) d (inr i) =
    let n = All-In (λ y. record_key y ≢ record_key x) r records d.0 i in
    if_neg (identity-discrete x.identity r.identity) (λ e. n (ap identity_key (sym e))) _ _
    ∙ find-In r records d.1 i

find_absent :
    (i : PeerKeyIdentity) (records : List TrustedPeerRecord)
    → All (λ r. r.identity ≢ i) records
    → find records i ≡ none
unfolding find
find_absent i [] h = refl
find_absent i (x ∷ records) h =
    if_neg (identity-discrete x.identity i) h.0 _ _ ∙ find_absent i records h.1

-- The stored record is the one found under its identity.
pub get-stored :
    (r : TrustedPeerRecord) (records : List TrustedPeerRecord)
    → StoreIsValid (sort_by record_key (stored r records))
    → get (record { records = sort_by record_key (stored r records) }) r.identity ≡ some r
get-stored r records v =
    get-find (record { records = sort_by record_key (stored r records) }) r.identity v.sorted
      v.distinct
    ∙ find-In r (sort_by record_key (stored r records)) v.distinct
        (In-sort_by r (stored r records) (In-last r (without r.identity records)))

-- A removed identity is not found.
pub get-without :
    (i : PeerKeyIdentity) (records : List TrustedPeerRecord)
    → StoreIsValid (sort_by record_key (without i records))
    → get (record { records = sort_by record_key (without i records) }) i ≡ none
get-without i records v =
    get-find (record { records = sort_by record_key (without i records) }) i v.sorted v.distinct
    ∙ find_absent i (sort_by record_key (without i records))
        (All-sort_by record_key (λ r. r.identity ≢ i) (without i records) (without_none i records))
