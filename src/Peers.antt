-- ===== src/Peers.antt =====
-- `DiscoveredPeerState` of crates/local-transfer-core/src/discovered_peers.rs. Times are `Duration`s,
-- here whole nanoseconds; `none` stands for a panic (a failed `expect`, or a count below zero).
pub mod Prune
pub mod Observe
pub mod Late
pub mod Expire
use local_transfer.Prelude.{
  ℕ, ◌+◌, ◌-◌, ◌*◌, ◌^◌, Bool, true, false, not, ◌&&◌, ◌||◌, ltb, leb, ◌==◌, if◌then◌else◌, max,
  List, [], ◌∷◌, Option, none, some, length, take, ite,
}
use mathlib.Core.Option
use local_transfer.Prelude.Order.{nat_ord, pair_ord, list_ord}
use local_transfer.Prelude.Sort.{sort_by}
use local_transfer.Prelude.Table.{Table, lookup, insert, remove, retain}
use local_transfer.Browser.Key.{TransientDiscoveryKey, Key-discrete, checked_sub}
use local_transfer.Browser.Peer.{
  DiscoveredPeer, Peer-discrete, DiscoveryBrowserError, DiscoveryBrowserEvent, added, updated,
  refreshed, removed, error,
}

abbrev pub max_retained_tombstones : ℕ
max_retained_tombstones = 256

abbrev pub tombstone_retention : ℕ
tombstone_retention = 300 * 1000000000

pub record VisibleDiscoveredPeer : Type 0 where
  pub peer : DiscoveredPeer
  pub last_observed_at : ℕ

pub data DiscoveredPeerRemovalReason : Type 0 where
  explicit expired : DiscoveredPeerRemovalReason

pub data DiscoveredPeerNoopReason : Type 0 where
  already_absent stale : DiscoveredPeerNoopReason

-- `refreshed_at`, `updated_at` and `removed_for` are `Refreshed`, `Updated` and `Removed` of the source.
pub data DiscoveredPeerTransition (F : Type 0) : Type 0 where
  appeared refreshed_at updated_at : TransientDiscoveryKey → DiscoveredPeerTransition F
  removed_for : TransientDiscoveryKey → DiscoveredPeerRemovalReason → DiscoveredPeerTransition F
  noop : TransientDiscoveryKey → DiscoveredPeerNoopReason → DiscoveredPeerTransition F
  rejected : DiscoveryBrowserError F → DiscoveredPeerTransition F

pub record PeerRecord : Type 0 where
  pub visible : Option VisibleDiscoveredPeer
  pub last_transition_at : ℕ

abbrev pub Records : Type 0
Records = Table TransientDiscoveryKey PeerRecord

pub record DiscoveredPeerState : Type 0 where
  pub records : Records
  pub visible_count : ℕ

abbrev pub empty_peers : DiscoveredPeerState
empty_peers = record { records = []; visible_count = 0 }

abbrev pub peer_of : Option VisibleDiscoveredPeer → Option DiscoveredPeer
peer_of none = none
peer_of (some v) = some v.peer

-- `record.visible.as_ref().map(…)` of what `records.get(key)` found.
abbrev pub shown : Option PeerRecord → Option DiscoveredPeer
shown none = none
shown (some r) = peer_of r.visible

abbrev pub get : DiscoveredPeerState → TransientDiscoveryKey → Option DiscoveredPeer
get s key = shown (lookup Key-discrete key s.records)

abbrev pub is_some {ℓ} : {A : Type ℓ} → Option A → Bool
is_some none = false
is_some (some a) = true

abbrev pub is_visible : PeerRecord → Bool
is_visible r = is_some r.visible

-- `retain`'s test; `now.saturating_sub` is the subtraction on ℕ.
unfoldable pub keeps : ℕ → PeerRecord → Bool
keeps now r =
    is_visible r
    || ltb now r.last_transition_at
    || leb (now - r.last_transition_at) tombstone_retention

unfoldable pub tombstones : Records → List (ℕ × TransientDiscoveryKey)
tombstones [] = []
tombstones ((key, r) ∷ m) =
    let rest = tombstones m in if is_visible r then rest else (r.last_transition_at, key) ∷ rest

-- The derived order of the pairs that are sorted.
abbrev pub tombstone_key : ℕ × TransientDiscoveryKey → ℕ × List ℕ
tombstone_key t = (t.0, t.1.value)

unfoldable pub remove_all : List (ℕ × TransientDiscoveryKey) → Records → Records
remove_all [] m = m
remove_all (t ∷ ts) m = remove_all ts (remove Key-discrete t.1 m)

unfoldable pub drop_oldest : Records → Records
drop_oldest m =
    let dead = tombstones m in
    if leb (length dead) max_retained_tombstones
    then m
    else remove_all (take (length dead - max_retained_tombstones) (sort_by tombstone_key dead)) m

unfoldable pub prune_tombstones : ℕ → DiscoveredPeerState → DiscoveredPeerState
unfolding keeps drop_oldest
prune_tombstones now s = record s { records = drop_oldest (retain (keeps now) s.records) }

-- The records that `observe` and `remove` write.
abbrev pub seen : DiscoveredPeer → ℕ → PeerRecord
seen peer now = record {
  visible = some (record { peer = peer; last_observed_at = now });
  last_transition_at = now;
}

abbrev pub absent : ℕ → PeerRecord
absent now = record { visible = none; last_transition_at = now }

module _ {F : Type 0} where
  -- `observe`'s third arm, by what was visible: the transition and the new count.
  abbrev pub seen_again :
      DiscoveredPeer → ℕ → Option VisibleDiscoveredPeer → DiscoveredPeerTransition F × ℕ
  seen_again peer count none = (appeared peer.key, count + 1)
  seen_again peer count (some v) =
      (ite (Peer-discrete v.peer peer) (refreshed_at peer.key) (updated_at peer.key), count)

  unfoldable pub observe_record :
      DiscoveredPeerState
      → DiscoveredPeer
      → ℕ
      → Option PeerRecord
      → DiscoveredPeerTransition F × DiscoveredPeerState
  observe_record s peer now none = (
    appeared peer.key,
    record {
      records = insert Key-discrete peer.key (seen peer now) s.records;
      visible_count = s.visible_count + 1;
    },
  )
  observe_record s peer now (some r) =
      if ltb now r.last_transition_at
      then (noop peer.key stale, s)
      else if not (is_some r.visible) && now == r.last_transition_at
      then (noop peer.key stale, s)
      else (let again = seen_again peer s.visible_count r.visible in
          (
            again.0,
            record {
              records = insert Key-discrete peer.key (seen peer now) s.records;
              visible_count = again.1;
            },
          ))

  unfoldable pub observe :
      DiscoveredPeerState → DiscoveredPeer → ℕ → DiscoveredPeerTransition F × DiscoveredPeerState
  unfolding observe_record
  observe s peer now = observe_record s peer now (lookup Key-discrete peer.key s.records)

  unfoldable pub remove_record :
      DiscoveredPeerState
      → TransientDiscoveryKey
      → ℕ
      → Option PeerRecord
      → Option (DiscoveredPeerTransition F × DiscoveredPeerState)
  remove_record s key now none = some (
    noop key already_absent,
    record s { records = insert Key-discrete key (absent now) s.records },
  )
  remove_record s key now (some r) =
      if ltb now r.last_transition_at
      then some (noop key stale, s)
      else if is_some r.visible
      then Option.map
          (λ count. (
            removed_for key explicit,
            record {
              records = insert Key-discrete key (absent now) s.records;
              visible_count = count;
            },
          ))
          (checked_sub s.visible_count 1)
      else some (
        noop key already_absent,
        record s {
          records =
              insert Key-discrete key
                (record r { last_transition_at = max r.last_transition_at now }) s.records;
        },
      )

  unfoldable pub remove_peer :
      DiscoveredPeerState
      → TransientDiscoveryKey
      → ℕ
      → Option (DiscoveredPeerTransition F × DiscoveredPeerState)
  unfolding remove_record
  remove_peer s key now = remove_record s key now (lookup Key-discrete key s.records)

  unfoldable pub apply :
      DiscoveredPeerState
      → DiscoveryBrowserEvent F
      → ℕ
      → Option (DiscoveredPeerTransition F × DiscoveredPeerState)
  unfolding prune_tombstones observe remove_peer
  apply s (added peer) now = some (observe (prune_tombstones now s) peer now)
  apply s (updated peer) now = some (observe (prune_tombstones now s) peer now)
  apply s (refreshed peer) now = some (observe (prune_tombstones now s) peer now)
  apply s (removed key) now =
      Option.map (λ t. (t.0, prune_tombstones now t.1))
        (remove_peer (prune_tombstones now s) key now)
  apply s (error e) now = some (rejected e, s)
