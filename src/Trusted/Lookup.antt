-- ===== src/Trusted/Lookup.antt =====
-- `TrustedPeers::get` and `contains` of crates/local-transfer-core/src/trusted_peers.rs, with the
-- halving of `slice::binary_search_by`.
pub mod Search
use mathlib.Core.Option.{some-injective}
use local_transfer.Prelude.{
  ℕ, zero, suc, ◌+◌, ◌-◌, ◌/◌, ◌≤◌, ◌<◌, ◌≡◌, ◌≢◌, refl, ap, sym, ◌∙◌, Bool, true, false, not,
  Option, none, some, List, [], ◌∷◌, length, All, arith, ltb, if◌then◌else◌, ite, if_pos, if_neg,
  Bool-cases, Option-cases, inl, inr, ltb→lt, ◌⊎◌, Bytes, subst, dec_lt, ℕ_discrete,
}
use local_transfer.Prelude.Order.{pair_ord, list_ord, nat_ord, pair_le?, pair_antisymm, pair_total}
use local_transfer.Prelude.Sort.{Sorted, Distinct}
use local_transfer.Trusted.{PeerKeyIdentity}
use local_transfer.Trusted.Format.{
  TrustedPeerRecord, TrustedPeers, identity_key, record_key, identity-discrete,
}

unfoldable pub nth : List TrustedPeerRecord → ℕ → Option TrustedPeerRecord
nth [] i = none
nth (r ∷ records) zero = some r
nth (r ∷ records) (suc i) = nth records i

-- The comparison is `Greater`.
unfoldable pub greater : Option TrustedPeerRecord → PeerKeyIdentity → Bool
greater none identity = true
greater (some r) identity = not (pair_le? (record_key r) (identity_key identity))

-- The loop of the search, its start the length of what is searched; fuel for each halving.
unfoldable pub narrow : ℕ → ℕ → ℕ → List TrustedPeerRecord → PeerKeyIdentity → ℕ
narrow zero base size records identity = base
narrow (suc fuel) base size records identity =
    let mid = base + size / 2 in
    let next = (if greater (nth records mid) identity then base else mid) in
    let rest = narrow fuel next (size - size / 2) records identity in
    if ltb 1 size then rest else base

-- The record at the place found, when its comparison is `Equal`.
unfoldable pub matching : Option TrustedPeerRecord → PeerKeyIdentity → Option TrustedPeerRecord
matching none identity = none
matching (some r) identity = ite (identity-discrete r.identity identity) (some r) none

unfoldable pub get : TrustedPeers → PeerKeyIdentity → Option TrustedPeerRecord
unfolding narrow matching
get peers identity =
    matching
      (nth peers.records
        (narrow (length peers.records) 0 (length peers.records) peers.records identity))
      identity

unfoldable pub contains : TrustedPeers → PeerKeyIdentity → Bool
unfolding get
contains peers identity = elim (get peers identity) [ none ↦ false | some r ↦ true ]

-- The reference: the records one after the other.
unfoldable pub find : List TrustedPeerRecord → PeerKeyIdentity → Option TrustedPeerRecord
find [] identity = none
find (r ∷ records) identity =
    let rest = find records identity in ite (identity-discrete r.identity identity) (some r) rest
