-- ===== src/Peers/Late.antt =====
-- `apply` of discovered_peers.rs on an observation, by its time.
use mathlib.Core.Logic.{inl, inr}
use local_transfer.Prelude.{
  ℕ, ◌≤◌, ◌<◌, ◌≡◌, refl, ap, ◌∙◌, ◌⊎◌, true, false, if◌then◌else◌, Option, none, some, length, ite,
  arith, le→leb,
}
use local_transfer.Prelude.Table.{
  lookup, insert, retain, count_if, lookup-insert, lookup-retain, count_if-retain_le,
}
use local_transfer.Browser.Key.{TransientDiscoveryKey, Key-discrete}
use local_transfer.Browser.Peer.{
  DiscoveredPeer, DiscoveryBrowserEvent, added, updated, refreshed, removed, error,
}
use mathlib.Core.Option.{some-injective}
use local_transfer.Peers.{
  PeerRecord, DiscoveredPeerState, DiscoveredPeerTransition, noop, stale, get, shown, is_visible,
  seen, observe_record, observe, apply, keeps, tombstones, drop_oldest, prune_tombstones, Records,
  max_retained_tombstones,
}
use local_transfer.Peers.Prune.{IsValid, prune-Pruned, is_tombstone, length-tombstones}
use local_transfer.Peers.Observe.{IsBounded}

-- An observation at a time that the record already passed; at the very time of a removal, too.
abbrev pub IsLate : ℕ → PeerRecord → Type 0
IsLate now r =
    (now < r.last_transition_at) ⊎ ((now ≡ r.last_transition_at) × (is_visible r ≡ false))

drop_oldest_few :
    (m : Records) → count_if is_tombstone m ≤ max_retained_tombstones → drop_oldest m ≡ m
unfolding drop_oldest
drop_oldest_few m h =
    rw (le→leb (length (tombstones m)) max_retained_tombstones (omega (arith, length-tombstones m)))
      refl

keeps_late : (now : ℕ) (r : PeerRecord) → IsLate now r → keeps now r ≡ true
unfolding keeps
keeps_late now r (inl h) = ground arith
keeps_late now r (inr h) = ground arith

-- A record that is late for `now` outlives the pruning at `now`.
prune_late :
    (s : DiscoveredPeerState) (k : TransientDiscoveryKey) (now : ℕ) (r : PeerRecord)
    → IsBounded s
    → lookup Key-discrete k s.records ≡ some r
    → IsLate now r
    → lookup Key-discrete k (prune_tombstones now s).records ≡ some r
unfolding prune_tombstones
prune_late s k now r b e late =
    ap (lookup Key-discrete k) (
      drop_oldest_few (retain (keeps now) s.records)
        (omega (arith, b.few, count_if-retain_le (keeps now) is_tombstone s.records)))
    ∙ lookup-retain Key-discrete (keeps now) k s.records b.valid.table
    ∙ ap (λ o. elim o [ none ↦ none | some q ↦ if keeps now q then some q else none ]) e
    ∙ ap (λ c. if c then some r else none) (keeps_late now r late)

module _ {F : Type 0} where
  -- The peer that an event is an observation of: an added, an updated or a refreshed one.
  abbrev pub observed : DiscoveryBrowserEvent F → Option DiscoveredPeer
  observed (added peer) = some peer
  observed (updated peer) = some peer
  observed (refreshed peer) = some peer
  observed (removed key) = none
  observed (error e) = none

  apply-observed :
      (s : DiscoveredPeerState) (e : DiscoveryBrowserEvent F) (p : DiscoveredPeer) (now : ℕ)
      → observed e ≡ some p
      → apply s e now ≡ some (observe (prune_tombstones now s) p now)
  unfolding apply
  apply-observed s (added q) p now h = rw (some-injective q p h) refl
  apply-observed s (updated q) p now h = rw (some-injective q p h) refl
  apply-observed s (refreshed q) p now h = rw (some-injective q p h) refl
  apply-observed s (removed k) p now h = cc
  apply-observed s (error x) p now h = cc

  observe_record_late :
      (s : DiscoveredPeerState) (p : DiscoveredPeer) (now : ℕ) (r : PeerRecord)
      → IsLate now r
      → observe_record {F = F} s p now (some r) ≡ (noop p.key stale, s)
  unfolding observe_record
  observe_record_late s p now r (inl h) = ground arith
  observe_record_late s p now r (inr h) = ground arith

  -- In a state with distinct keys, a right count and at most 256 tombstones, an event that
  -- observes a peer (added, updated or refreshed) and is late for the record of its key is
  -- reported as stale and changes nothing that is shown: a removed or expired peer does not come
  -- back.
  pub late_observation_ignored :
      (s : DiscoveredPeerState) (e : DiscoveryBrowserEvent F) (p : DiscoveredPeer) (now : ℕ)
      (r : PeerRecord)
      → observed e ≡ some p
      → IsBounded s
      → lookup Key-discrete p.key s.records ≡ some r
      → IsLate now r
      → (t : DiscoveredPeerState) × (apply s e now ≡ some (noop p.key stale, t))
        × ((j : TransientDiscoveryKey) → get t j ≡ get s j)
  unfolding observe
  late_observation_ignored s e p now r same b found late =
      let q = prune_tombstones now s in
      (
        q,
        apply-observed s e p now same
            ∙ ap some (
                ap (observe_record q p now) (prune_late s p.key now r b found late)
                ∙ observe_record_late q p now r late),
        (prune-Pruned now s b.valid).same_view,
      )

module _ (F : Type 0) where
  observe_record_fresh :
      (s : DiscoveredPeerState) (p : DiscoveredPeer) (now : ℕ) (o : Option PeerRecord)
      → ((r : PeerRecord) → o ≡ some r → ¬ (IsLate now r))
      → (observe_record {F = F} s p now o).1.records
        ≡ insert Key-discrete p.key (seen p now) s.records
  unfolding observe_record
  observe_record_fresh s p now none h = refl
  observe_record_fresh s p now (some r) h = ground (arith, h r refl)

  shown-ite :
      {A : Type 0} (c : Dec A) (p : DiscoveredPeer) (now : ℕ) (o : Option PeerRecord)
      → shown (ite c (some (seen p now)) o) ≡ ite c (some p) (shown o)
  shown-ite (yes a) p now o = refl
  shown-ite (no n) p now o = refl

  -- In a state with distinct keys and a right count, the peer of an event that observes one
  -- (added, updated or refreshed) and is not late for the record that pruning leaves for its key
  -- is shown for its key, and what is shown for every other key stays.
  pub observation_shown :
      (s : DiscoveredPeerState) (e : DiscoveryBrowserEvent F) (p : DiscoveredPeer) (now : ℕ)
      → observed e ≡ some p
      → IsValid s
      → ((r : PeerRecord)
          → lookup Key-discrete p.key (prune_tombstones now s).records ≡ some r
          → ¬ (IsLate now r))
      → (t : DiscoveredPeerTransition F × DiscoveredPeerState) × (apply s e now ≡ some t)
        × ((j : TransientDiscoveryKey) → get t.1 j ≡ ite (Key-discrete p.key j) (some p) (get s j))
  unfolding observe
  observation_shown s e p now same v h =
      let q = prune_tombstones now s in
      let o = lookup Key-discrete p.key q.records in
      (
        observe_record q p now o,
        apply-observed s e p now same,
        λ j.
            ap (λ m. shown (lookup Key-discrete j m)) (observe_record_fresh q p now o h)
            ∙ ap shown (lookup-insert Key-discrete p.key j (seen p now) q.records)
            ∙ shown-ite (Key-discrete p.key j) p now (lookup Key-discrete j q.records)
            ∙ ap (ite (Key-discrete p.key j) (some p)) ((prune-Pruned now s v).same_view j),
      )
