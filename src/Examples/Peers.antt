-- ===== src/Examples/Peers.antt =====
-- A key that was removed at time 5, and observations of it before and after its tombstone is dropped.
use mathlib.Core.Logic.{inr}
use local_transfer.Prelude.{ℕ, ◌*◌, ◌≡◌, refl, none, some, arith, [], ◌∷◌, ite, ite_same}
use local_transfer.Prelude.Table.{lookup, count_if, retain}
use local_transfer.Text.{codes}
use local_transfer.Browser.Key.{TransientDiscoveryKey, Key-discrete}
use local_transfer.Browser.Endpoint.{ipv4}
use local_transfer.Browser.Peer.{DiscoveredPeer, updated, refreshed, removed}
use local_transfer.Discovery.Range.{initial}
use local_transfer.Peers.{
  PeerRecord, DiscoveredPeerState, DiscoveredPeerTransition, absent, apply, get, noop, stale,
  prune_tombstones, drop_oldest, tombstones, keeps,
}
use local_transfer.Peers.Prune.{Pruned, prune-Pruned}
use local_transfer.Peers.Observe.{IsBounded, apply-IsBounded}
use local_transfer.Peers.Late.{IsLate, late_observation_ignored, observation_shown}
use local_transfer.Peers.{seen}

abbrev key : TransientDiscoveryKey
key = record { value = codes "desk._local-transfer._tcp.local." }

abbrev peer : DiscoveredPeer
peer = record {
  key = key;
  metadata = record { protocols = initial; name = none; platform = none };
  port = 4040;
  endpoints = ipv4 3232235777 ∷ [];
  protocol_major = 1;
}

abbrev held : DiscoveredPeerState
held = record { records = (key, absent 5) ∷ []; visible_count = 0 }

held-IsBounded : IsBounded held
unfolding count_if
held-IsBounded = record { valid = record { table = (tt, tt); counted = refl }; few = omega arith }

apply-IsBounded_example :
    (t : DiscoveredPeerTransition Unit × DiscoveredPeerState) × (apply held (removed key) 7
      ≡ some t)
    × IsBounded t.1
apply-IsBounded_example = apply-IsBounded Unit held (removed key) 7 held-IsBounded

late_observation_ignored_example :
    (t : DiscoveredPeerState) × (apply {F = Unit} held (refreshed peer) 5
      ≡ some (noop key stale, t))
    × ((j : TransientDiscoveryKey) → get t j ≡ get held j)
unfolding lookup
late_observation_ignored_example =
    late_observation_ignored held (refreshed peer) peer 5 (absent 5) refl held-IsBounded
      (ite_same Key-discrete key (some (absent 5)) none) (inr (refl, refl))

abbrev later : ℕ
later = 400 * 1000000000

dropped :
    (r : PeerRecord)
    → lookup Key-discrete key (prune_tombstones later held).records ≡ some r
    → ¬ (IsLate later r)
unfolding prune_tombstones drop_oldest tombstones keeps retain lookup
dropped r e late = cc

observation_shown_example :
    (t : DiscoveredPeerTransition Unit × DiscoveredPeerState) × (apply held (updated peer) later
      ≡ some t)
    × ((j : TransientDiscoveryKey) → get t.1 j ≡ ite (Key-discrete key j) (some peer) (get held j))
observation_shown_example =
    observation_shown Unit held (updated peer) peer later refl held-IsBounded.valid dropped

prune-Pruned_example : Pruned held (prune_tombstones later held)
prune-Pruned_example = prune-Pruned later held held-IsBounded.valid

abbrev here : DiscoveredPeerState
here = record { records = (key, seen peer 5) ∷ []; visible_count = 1 }
