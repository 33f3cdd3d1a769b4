-- ===== src/Peers/Expire.antt =====
-- `expire` of discovered_peers.rs.
pub mod Exact
use mathlib.Core.Logic.{inl, inr}
use mathlib.Core.Option
use local_transfer.Prelude.{
  ℕ, ◌+◌, ◌-◌, ◌≤◌, ◌<◌, ◌≡◌, ◌≢◌, refl, sym, ap, ◌∙◌, Bool, true, false, not, ◌&&◌, leb,
  if◌then◌else◌, List, [], ◌∷◌, map, Option, none, some, All, ite, if_pos, if_neg, arith,
  Bool-cases, Option-cases,
}
use local_transfer.Prelude.Order.{nat_ord, list_ord}
use local_transfer.Prelude.Sort.{sort_by, Distinct, Distinct-sort_by, All-sort_by}
use local_transfer.Prelude.Table.{IsTable, lookup, insert, count_if, lookup-insert}
use local_transfer.Browser.Key.{TransientDiscoveryKey, Key-discrete, checked_sub}
use local_transfer.Peers.{
  PeerRecord, Records, DiscoveredPeerState, DiscoveredPeerTransition, removed_for, expired, get,
  shown, is_visible, absent, prune_tombstones,
}
use local_transfer.Peers.Prune.{IsValid, Pruned, prune-Pruned, lookup_other, lookup_same}
use local_transfer.Peers.Observe.{IsBounded, Written, write-Written, checked_sub_pos}

-- The liveness window of a visible record has passed.
unfoldable pub is_stale : ℕ → ℕ → PeerRecord → Bool
is_stale now stale_after r = elim r.visible [
  | none ↦ false
  | some v ↦ leb v.last_observed_at now && leb stale_after (now - v.last_observed_at)
]

unfoldable pub stale_keys : ℕ → ℕ → Records → List TransientDiscoveryKey
stale_keys now stale_after [] = []
stale_keys now stale_after ((key, r) ∷ m) =
    let rest = stale_keys now stale_after m in
    if is_stale now stale_after r then key ∷ rest else rest

-- The keys in the order that they are reported.
abbrev pub expired_keys : ℕ → ℕ → Records → List TransientDiscoveryKey
expired_keys now stale_after m = sort_by (λ k. k.value) (stale_keys now stale_after m)

module _ {F : Type 0} where
  -- The closure of `expire` for one key, with the record that `get_mut` found.
  unfoldable pub expire_record :
      DiscoveredPeerState
      → TransientDiscoveryKey
      → ℕ
      → Option PeerRecord
      → Option (DiscoveredPeerTransition F × DiscoveredPeerState)
  expire_record s key now none = none
  expire_record s key now (some r) =
      Option.map
        (λ count. (
          removed_for key expired,
          record {
            records = insert Key-discrete key (absent now) s.records;
            visible_count = count;
          },
        ))
        (checked_sub s.visible_count 1)

  unfoldable pub expire_keys :
      ℕ
      → List TransientDiscoveryKey
      → DiscoveredPeerState
      → Option (List (DiscoveredPeerTransition F) × DiscoveredPeerState)
  unfolding expire_record
  expire_keys now [] s = some ([], s)
  expire_keys now (key ∷ keys) s =
      Option.bind (expire_record s key now (lookup Key-discrete key s.records))
        λ one. Option.map (λ rest. (one.0 ∷ rest.0, rest.1)) (expire_keys now keys one.1)

  unfoldable pub expire :
      DiscoveredPeerState → ℕ → ℕ → Option (List (DiscoveredPeerTransition F) × DiscoveredPeerState)
  unfolding expire_keys
  expire s now stale_after =
      let pruned = prune_tombstones now s in
      Option.map (λ r. (r.0, prune_tombstones now r.1))
        (expire_keys now (expired_keys now stale_after pruned.records) pruned)
