-- ===== src/Trusted/Lookup/Search.antt =====
-- The search of `TrustedPeers::get` of trusted_peers.rs against a look at every record.
use mathlib.Core.Option.{some-injective}
use local_transfer.Prelude.{
  ℕ, zero, suc, ◌+◌, ◌-◌, ◌/◌, ◌≤◌, ◌<◌, ◌≡◌, ◌≢◌, refl, ap, sym, ◌∙◌, Bool, true, false, not, none,
  some, List, [], ◌∷◌, length, All, arith, ltb, if_pos, if_neg, Bool-cases, Option-cases, inl, inr,
  ltb→lt, ◌⊎◌, Bytes, subst, dec_lt, ℕ_discrete,
}
use local_transfer.Prelude.Order.{pair_ord, list_ord, nat_ord, pair_le?, pair_antisymm, pair_total}
use local_transfer.Prelude.Sort.{Sorted, Distinct}
use local_transfer.Trusted.{PeerKeyIdentity}
use local_transfer.Trusted.Format.{
  TrustedPeerRecord, TrustedPeers, identity_key, record_key, identity-discrete,
}
use local_transfer.Trusted.Lookup.{nth, greater, narrow, matching, get, find}

abbrev At : List TrustedPeerRecord → ℕ → TrustedPeerRecord → Type 0
At records i r = nth records i ≡ some r

All-nth :
    (P : TrustedPeerRecord → Type 0) (records : List TrustedPeerRecord) (i : ℕ)
    (r : TrustedPeerRecord)
    → All P records
    → At records i r
    → P r
unfolding nth
All-nth P [] i r h e = cc
All-nth P (x ∷ records) zero r h e = subst P (some-injective x r e) h.0
All-nth P (x ∷ records) (suc i) r h e = All-nth P records i r h.1 e

-- Records in order, at two places.
nth-Sorted :
    (records : List TrustedPeerRecord) (i j : ℕ) (a b : TrustedPeerRecord)
    → Sorted record_key records
    → i < j
    → At records i a
    → At records j b
    → pair_le? (record_key a) (record_key b) ≡ true
unfolding nth
nth-Sorted [] i j a b s h p q = cc
nth-Sorted (x ∷ records) i zero a b s h p q = absurd (omega arith)
nth-Sorted (x ∷ records) zero (suc j) a b s h p q =
    subst (λ y. pair_le? (record_key y) (record_key b) ≡ true) (some-injective x a p)
      (All-nth (λ y. pair_le? (record_key x) (record_key y) ≡ true) records j b s.0 q)
nth-Sorted (x ∷ records) (suc i) (suc j) a b s h p q =
    nth-Sorted records i j a b s.1 (omega arith) p q

nth-Distinct :
    (records : List TrustedPeerRecord) (i j : ℕ) (a b : TrustedPeerRecord)
    → Distinct record_key records
    → i < j
    → At records i a
    → At records j b
    → record_key b ≢ record_key a
unfolding nth
nth-Distinct [] i j a b s h p q = cc
nth-Distinct (x ∷ records) i zero a b s h p q = absurd (omega arith)
nth-Distinct (x ∷ records) zero (suc j) a b s h p q =
    subst (λ y. record_key b ≢ record_key y) (some-injective x a p)
      (All-nth (λ y. record_key y ≢ record_key x) records j b s.0 q)
nth-Distinct (x ∷ records) (suc i) (suc j) a b s h p q =
    nth-Distinct records i j a b s.1 (omega arith) p q

ltb_false→le : (a b : ℕ) → ltb a b ≡ false → b ≤ a
ltb_false→le a b h = ground arith

le_refl : (k : ℕ × Bytes) → pair_le? k k ≡ true
le_refl k = elim (pair_total k k) [ inl h ↦ h | inr h ↦ h ]

no_record : {r : TrustedPeerRecord} → none ≡ some r → ⊥
no_record h = cc

nth-before :
    (records : List TrustedPeerRecord) (i j : ℕ) (r : TrustedPeerRecord)
    → nth records i ≡ none
    → At records j r
    → j < i
unfolding nth
nth-before [] i j r h e = absurd (no_record e)
nth-before (x ∷ records) zero j r h e = absurd (no_record (sym h))
nth-before (x ∷ records) (suc i) zero r h e = omega arith
nth-before (x ∷ records) (suc i) (suc j) r h e = omega (arith, nth-before records i j r h e)

ℕ_trichotomy : (a b : ℕ) → (a < b) ⊎ ((a ≡ b) ⊎ (b < a))
ℕ_trichotomy a b = elim (dec_lt a b) [
  | yes h ↦ inl h
  | no h ↦ elim (ℕ_discrete a b) [ yes e ↦ inr (inl e) | no n ↦ inr (inr (omega arith)) ]
]

flip : (b : Bool) → not b ≡ true → b ≢ true
flip b h = ground arith

unflip : (b : Bool) → not b ≡ false → b ≡ true
unflip b h = ground arith

clash : true ≢ false
clash h = cc

-- In a sorted set of distinct identities, a record at `mid` above the identity is after it,
-- and any other is not.
module _ (records : List TrustedPeerRecord) (sorted : Sorted record_key records)
    (distinct : Distinct record_key records) (identity : PeerKeyIdentity) (j : ℕ)
    (r : TrustedPeerRecord) (here : At records j r) (matched : r.identity ≡ identity) where
  at_most_self :
      (m : TrustedPeerRecord) → m ≡ r → pair_le? (record_key m) (identity_key identity) ≡ true
  at_most_self m e =
      subst (λ k. pair_le? (record_key m) k ≡ true) (ap record_key e ∙ ap identity_key matched)
        (le_refl (record_key m))

  greater_after : (mid : ℕ) → greater (nth records mid) identity ≡ true → j < mid
  unfolding greater
  greater_after mid h = elim (Option-cases (nth records mid)) [
    | inl n ↦ nth-before records mid j r n here
    | inr (m, e) ↦
        let above = flip (pair_le? (record_key m) (identity_key identity)) (rw (e, greater) at h) in
        elim (ℕ_trichotomy j mid) [
          | inl lt ↦ lt
          | inr (inl eq) ↦ absurd (
              above
                (at_most_self m (some-injective m r (sym e ∙ (ap (nth records) (sym eq) ∙ here)))))
          | inr (inr gt) ↦ absurd (
              above (
                subst (λ k. pair_le? (record_key m) k ≡ true) (ap identity_key matched)
                  (nth-Sorted records mid j m r sorted gt e here)))
        ]
  ]

  not_greater_before : (mid : ℕ) → greater (nth records mid) identity ≡ false → mid ≤ j
  unfolding greater
  not_greater_before mid h = elim (Option-cases (nth records mid)) [
    | inl n ↦ absurd (clash (rw (n, greater) at h))
    | inr (m, e) ↦
        let below =
          unflip (pair_le? (record_key m) (identity_key identity)) (rw (e, greater) at h) in
        elim (ℕ_trichotomy j mid) [
          | inl lt ↦ absurd (
              nth-Distinct records j mid r m distinct lt here e (
                pair_antisymm (record_key m) (record_key r)
                  (subst (λ k. pair_le? (record_key m) k ≡ true) (sym (ap identity_key matched))
                    below)
                  (nth-Sorted records j mid r m sorted lt here e)))
          | inr (inl eq) ↦ omega (arith, eq)
          | inr (inr gt) ↦ omega (arith, gt)
        ]
  ]

  -- The loop keeps the record between its bounds, and its fuel is enough.
  narrow_finds :
      (fuel base size : ℕ)
      → size ≤ suc fuel
      → base ≤ j
      → j < base + size
      → narrow fuel base size records identity ≡ j
  unfolding narrow
  narrow_finds zero base size enough low high = omega arith
  narrow_finds (suc fuel) base size enough low high = elim (Bool-cases (ltb 1 size)) [
    | inl more ↦ elim (Bool-cases (greater (nth records (base + size / 2)) identity)) [
      | inl g ↦
          let after = greater_after (base + size / 2) g in
          rw (more, g)
            (narrow_finds fuel base (size - size / 2) (omega (arith, ltb→lt 1 size more)) low
              (omega arith))
      | inr g ↦
          let before = not_greater_before (base + size / 2) g in
          rw (more, g)
            (narrow_finds fuel (base + size / 2) (size - size / 2)
              (omega (arith, ltb→lt 1 size more)) before (omega arith))
    ]
    | inr one ↦ rw one (omega (arith, ltb_false→le 1 size one))
  ]

find-some :
    (records : List TrustedPeerRecord) (identity : PeerKeyIdentity) (r : TrustedPeerRecord)
    → find records identity ≡ some r
    → (j : ℕ) × At records j r × (r.identity ≡ identity) × (j < length records)
unfolding find nth
find-some [] identity r h = absurd (no_record h)
find-some (x ∷ records) identity r h = elim (identity-discrete x.identity identity) [
  | yes e ↦
      let same =
        some-injective x r (sym (if_pos (identity-discrete x.identity identity) e _ _) ∙ h) in
      (0, ap some same, subst (λ y. y.identity ≡ identity) same e, omega arith)
  | no n ↦
      let (j, a, m, l) =
        find-some records identity r
          (sym (if_neg (identity-discrete x.identity identity) n _ _) ∙ h) in
      (suc j, a, m, omega (arith, l))
]

unmatched :
    (x : TrustedPeerRecord) (records : List TrustedPeerRecord) (identity : PeerKeyIdentity)
    → x.identity ≢ identity
    → ((k : ℕ) → matching (nth records k) identity ≡ none)
    → (i : ℕ) → matching (nth (x ∷ records) i) identity ≡ none
unfolding nth matching
unmatched x records identity n rest zero = if_neg (identity-discrete x.identity identity) n _ _
unmatched x records identity n rest (suc i) = rest i

find-none :
    (records : List TrustedPeerRecord) (identity : PeerKeyIdentity) (i : ℕ)
    → find records identity ≡ none
    → matching (nth records i) identity ≡ none
unfolding find nth matching
find-none [] identity i h = refl
find-none (x ∷ records) identity i h = elim (identity-discrete x.identity identity) [
  | yes e ↦ absurd (no_record (sym h ∙ if_pos (identity-discrete x.identity identity) e _ _))
  | no n ↦
      unmatched x records identity n
        (λ k.
          find-none records identity k
            (sym (if_neg (identity-discrete x.identity identity) n _ _) ∙ h))
        i
]

matched_is :
    (r : TrustedPeerRecord) (identity : PeerKeyIdentity)
    → r.identity ≡ identity
    → matching (some r) identity ≡ some r
unfolding matching
matched_is r identity e = if_pos (identity-discrete r.identity identity) e (some r) none

-- In a set that is in the order of its identities and has no identity twice, the binary search of
-- get gives what looking at every record gives: the record of the identity, or none.
pub get-find :
    (peers : TrustedPeers) (identity : PeerKeyIdentity)
    → Sorted record_key peers.records
    → Distinct record_key peers.records
    → get peers identity ≡ find peers.records identity
unfolding get
get-find peers identity s d =
    let records = peers.records in
    let n = length records in
    elim (Option-cases (find records identity)) [
      | inl e ↦ find-none records identity (narrow n 0 n records identity) e ∙ sym e
      | inr (r, e) ↦
          let (j, here, same, l) = find-some records identity r e in
          let found =
            narrow_finds records s d identity j r here same n 0 n (omega arith) (omega arith)
              (omega arith) in
          rw (found, here) (matched_is r identity same) ∙ sym e
    ]
