-- ===== src/Browser/State.antt =====
-- `BrowserState` of browser.rs: raw events of the backend become events about peers.
pub mod Follow
use local_transfer.Prelude.{[], Option, none, some, ite, Result, ok, err}
use local_transfer.Prelude.Table.{Table, lookup, insert, remove}
use local_transfer.Text.{Text}
use local_transfer.Browser.Key.{TransientDiscoveryKey, Key-discrete}
use local_transfer.Browser.Peer.{
  DiscoveredPeer, Peer-discrete, DiscoveryBrowserError, DiscoveryBrowserEvent, added, updated,
  refreshed, removed, error, RawResolvedService, new_key, resolve_peer,
}

-- `gone` and `failed` are `Removed` and `Error` of the source.
pub data RawBrowserEvent (F : Type 0) : Type 0 where
  resolved : RawResolvedService → RawBrowserEvent F
  gone : Text → RawBrowserEvent F
  failed : DiscoveryBrowserError F → RawBrowserEvent F

pub record BrowserState : Type 0 where
  pub peers : Table TransientDiscoveryKey DiscoveredPeer

abbrev pub empty_state : BrowserState
empty_state = record { peers = [] }

module _ {F : Type 0} where
  -- The last `match` of `resolve`.
  unfoldable pub classify :
      BrowserState
      → DiscoveredPeer
      → Option DiscoveredPeer
      → Option (DiscoveryBrowserEvent F) × BrowserState
  classify s peer none =
      (some (added peer), record { peers = insert Key-discrete peer.key peer s.peers })
  classify s peer (some previous) =
      ite (Peer-discrete previous peer) (some (refreshed peer), s)
        (some (updated peer), record { peers = insert Key-discrete peer.key peer s.peers })

  -- The rest of `resolve`, once the peer is made: the result, and the state it leaves behind.
  unfoldable pub store_peer :
      BrowserState
      → Result (DiscoveryBrowserError F) DiscoveredPeer
      → Result (DiscoveryBrowserError F) (Option (DiscoveryBrowserEvent F)) × BrowserState
  unfolding classify
  store_peer s (err e) = (err e, s)
  store_peer s (ok peer) =
      let after = classify s peer (lookup Key-discrete peer.key s.peers) in (ok after.0, after.1)

  abbrev pub resolve :
      BrowserState
      → RawResolvedService
      → Result (DiscoveryBrowserError F) (Option (DiscoveryBrowserEvent F)) × BrowserState
  resolve s r = store_peer s (resolve_peer r)

  -- The arms of `translate`: what `resolve` returned, and a removed name with what is stored for it.
  abbrev pub answer :
      Result (DiscoveryBrowserError F) (Option (DiscoveryBrowserEvent F))
      → Option (DiscoveryBrowserEvent F)
  answer (ok event) = event
  answer (err e) = some (error e)

  abbrev pub remove_key :
      BrowserState
      → TransientDiscoveryKey
      → Option DiscoveredPeer
      → Option (DiscoveryBrowserEvent F) × BrowserState
  remove_key s key none = (none, s)
  remove_key s key (some peer) =
      (some (removed key), record { peers = remove Key-discrete key s.peers })

  unfoldable pub remove_name :
      BrowserState
      → Result (DiscoveryBrowserError F) TransientDiscoveryKey
      → Option (DiscoveryBrowserEvent F) × BrowserState
  remove_name s (err e) = (some (error e), s)
  remove_name s (ok key) = remove_key s key (lookup Key-discrete key s.peers)

  unfoldable pub translate :
      BrowserState → RawBrowserEvent F → Option (DiscoveryBrowserEvent F) × BrowserState
  unfolding remove_name
  translate s (resolved r) = let after = resolve s r in (answer after.0, after.1)
  translate s (gone fullname) = remove_name s (new_key fullname)
  translate s (failed e) = (some (error e), s)
