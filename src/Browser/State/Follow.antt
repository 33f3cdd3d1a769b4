-- ===== src/Browser/State/Follow.antt =====
-- The events of `BrowserState::translate` against the peers that the state stores, for a listener who
-- applies them in order.
use local_transfer.Prelude.{
  ◌≡◌, ◌≢◌, refl, sym, ap, ◌∙◌, Option, none, some, List, [], ◌∷◌, ite, if_pos, if_neg, Result, ok,
  err,
}
use local_transfer.Prelude.Table.{lookup, insert, lookup-insert, lookup-remove}
use local_transfer.Browser.Key.{TransientDiscoveryKey, Key-discrete}
use local_transfer.Browser.Peer.{
  DiscoveredPeer, Peer-discrete, DiscoveryBrowserError, DiscoveryBrowserEvent, added, updated,
  refreshed, removed, error, new_key, resolve_peer, IsResolved, resolve_peer-IsResolved,
}
use local_transfer.Browser.State.{
  BrowserState, RawBrowserEvent, resolved, gone, failed, classify, store_peer, answer, remove_key,
  remove_name, translate,
}

-- The peer that a state stores for a key.
abbrev pub view : BrowserState → TransientDiscoveryKey → Option DiscoveredPeer
view s j = lookup Key-discrete j s.peers

module _ {F : Type 0} where
  -- What an event makes of a listener's entry for a key.
  abbrev pub apply_event :
      TransientDiscoveryKey
      → Option (DiscoveryBrowserEvent F)
      → Option DiscoveredPeer
      → Option DiscoveredPeer
  apply_event j (some (added p)) seen = ite (Key-discrete p.key j) (some p) seen
  apply_event j (some (updated p)) seen = ite (Key-discrete p.key j) (some p) seen
  apply_event j (some (refreshed p)) seen = seen
  apply_event j (some (removed k)) seen = ite (Key-discrete k j) none seen
  apply_event j (some (error e)) seen = seen
  apply_event j none seen = seen

  -- Which events a state can give.
  abbrev pub Honest : BrowserState → Option (DiscoveryBrowserEvent F) → Type 0
  Honest s (some (added p)) = IsResolved p × (view s p.key ≡ none)
  Honest s (some (updated p)) =
      IsResolved p × ((q : DiscoveredPeer) × (view s p.key ≡ some q) × (q ≢ p))
  Honest s (some (refreshed p)) = IsResolved p × (view s p.key ≡ some p)
  Honest s (some (removed k)) = (q : DiscoveredPeer) × (view s k ≡ some q)
  Honest s (some (error e)) = Unit
  Honest s none = Unit

  abbrev pub Told : BrowserState → (Option (DiscoveryBrowserEvent F) × BrowserState) → Type 0
  Told s t =
      ((j : TransientDiscoveryKey) → view t.1 j ≡ apply_event j t.0 (view s j)) × Honest s t.0

module _ (F : Type 0) where
  abbrev kept : BrowserState → DiscoveredPeer → Option (DiscoveryBrowserEvent F) × BrowserState
  kept s p = (some (refreshed p), s)

  abbrev replaced : BrowserState → DiscoveredPeer → Option (DiscoveryBrowserEvent F) × BrowserState
  replaced s p = (some (updated p), record { peers = insert Key-discrete p.key p s.peers })

  Told-classify :
      (s : BrowserState) (p : DiscoveredPeer) (o : Option DiscoveredPeer)
      → IsResolved p
      → view s p.key ≡ o
      → Told s (classify {F = F} s p o)
  unfolding classify
  Told-classify s p none r e = (λ j. lookup-insert Key-discrete p.key j p s.peers, (r, e))
  Told-classify s p (some q) r e = elim (Peer-discrete q p) [
    | yes same ↦
        rw (if_pos (Peer-discrete q p) same (kept s p) (replaced s p))
          (λ j. refl, (r, e ∙ ap some same))
    | no other ↦
        rw (if_neg (Peer-discrete q p) other (kept s p) (replaced s p))
          (λ j. lookup-insert Key-discrete p.key j p s.peers, (r, (q, e, other)))
  ]

  Told-remove_key :
      (s : BrowserState) (k : TransientDiscoveryKey) (o : Option DiscoveredPeer)
      → view s k ≡ o
      → Told s (remove_key {F = F} s k o)
  Told-remove_key s k none e = (λ j. refl, tt)
  Told-remove_key s k (some q) e = (λ j. lookup-remove Key-discrete k j s.peers, (q, e))

module _ {F : Type 0} where
  Told-store_peer :
      (s : BrowserState) (r : Result (DiscoveryBrowserError F) DiscoveredPeer)
      → ((p : DiscoveredPeer) → r ≡ ok p → IsResolved p)
      → Told s (answer (store_peer s r).0, (store_peer s r).1)
  unfolding store_peer
  Told-store_peer s (err e) h = (λ j. refl, tt)
  Told-store_peer s (ok p) h = Told-classify F s p (view s p.key) (h p refl) refl

  Told-remove_name :
      (s : BrowserState) (k : Result (DiscoveryBrowserError F) TransientDiscoveryKey)
      → Told s (remove_name s k)
  unfolding remove_name
  Told-remove_name s (err e) = (λ j. refl, tt)
  Told-remove_name s (ok k) = Told-remove_key F s k (view s k) refl

  -- After any raw event the peer stored for each key is what the event that is given out makes of
  -- the one stored before; an added peer was absent, an updated one was stored with other
  -- contents, a refreshed one was stored as it is, a removed one was stored, and every announced
  -- peer is a resolved one.
  pub translate-Told : (s : BrowserState) (raw : RawBrowserEvent F) → Told s (translate s raw)
  unfolding translate
  translate-Told s (resolved r) = Told-store_peer s (resolve_peer r) (resolve_peer-IsResolved r)
  translate-Told s (gone name) = Told-remove_name s (new_key name)
  translate-Told s (failed e) = (λ j. refl, tt)

  -- A run of the browser over raw events: the events given out, in order, and the last state.
  unfoldable pub run :
      BrowserState
      → List (RawBrowserEvent F)
      → List (Option (DiscoveryBrowserEvent F)) × BrowserState
  run s [] = ([], s)
  run s (raw ∷ raws) =
      let after = translate s raw in let rest = run after.1 raws in (after.0 ∷ rest.0, rest.1)

  -- A listener's entry for a key after a list of events.
  unfoldable pub replay :
      TransientDiscoveryKey
      → List (Option (DiscoveryBrowserEvent F))
      → Option DiscoveredPeer
      → Option DiscoveredPeer
  replay j [] seen = seen
  replay j (e ∷ es) seen = replay j es (apply_event j e seen)

  -- A listener who applies every event of a run of the browser, in order, to what the browser
  -- stored for a key at its start ends with what the browser stores for that key.
  pub replay-run :
      (s : BrowserState) (raws : List (RawBrowserEvent F)) (j : TransientDiscoveryKey)
      → replay j (run s raws).0 (view s j) ≡ view (run s raws).1 j
  unfolding run replay
  replay-run s [] j = refl
  replay-run s (raw ∷ raws) j =
      ap (replay j (run (translate s raw).1 raws).0) (sym ((translate-Told s raw).0 j))
      ∙ replay-run (translate s raw).1 raws j
