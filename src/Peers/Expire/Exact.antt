-- ===== src/Peers/Expire/Exact.antt =====
-- `expire` of discovered_peers.rs on a state whose count is right.
use mathlib.Core.Option
use local_transfer.Prelude.{ℕ, ◌-◌, ◌≡◌, ◌≢◌, true, List, none, some, All}
use local_transfer.Prelude.Order.{nat_ord, list_ord}
use local_transfer.Prelude.Table.{lookup, insert}
use local_transfer.Browser.Key.{TransientDiscoveryKey, Key-discrete}
use local_transfer.Peers.{PeerRecord, Records, DiscoveredPeerState, get, is_visible, absent}
use local_transfer.Peers.Prune.{IsValid}

-- A key that is visible.
abbrev Live : Records → TransientDiscoveryKey → Type 0
Live m k = (r : PeerRecord) × (lookup Key-discrete k m ≡ some r) × (is_visible r ≡ true)

-- What expiring keys makes of a state.
pub record Expired (s : DiscoveredPeerState) (ks : List TransientDiscoveryKey)
    (t : DiscoveredPeerState) : Type 0 where
  pub valid : IsValid t
  pub others : (j : TransientDiscoveryKey) → All (λ k. k ≢ j) ks → get t j ≡ get s j
  pub gone : All (λ k. get t k ≡ none) ks

module _ (F : Type 0) where
  -- The state after one key is expired.
  abbrev without : DiscoveredPeerState → TransientDiscoveryKey → ℕ → DiscoveredPeerState
  without s k now = record {
    records = insert Key-discrete k (absent now) s.records;
    visible_count = s.visible_count - 1;
  }
