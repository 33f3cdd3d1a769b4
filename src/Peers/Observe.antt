-- ===== src/Peers/Observe.antt =====
-- `apply` of discovered_peers.rs on a state whose count is right: its arms one by one.
use mathlib.Core.Logic.{inl, inr}
use mathlib.Core.Option
use local_transfer.Prelude.{
  ℕ, ◌+◌, ◌-◌, ◌≤◌, ◌<◌, ◌≡◌, refl, ap, Bool, true, false, not, ltb, ◌&&◌, ◌==◌, Option, none, some,
  max, arith, Bool-cases,
}
use local_transfer.Prelude.Table.{
  IsTable, lookup, insert, count_if, one_if, IsTable-insert, count_if-insert_new,
  count_if-insert_old,
}
use local_transfer.Browser.Key.{TransientDiscoveryKey, Key-discrete, checked_sub}
use local_transfer.Browser.Peer.{
  DiscoveredPeer, DiscoveryBrowserEvent, added, updated, refreshed, removed, error,
}
use local_transfer.Peers.{
  PeerRecord, VisibleDiscoveredPeer, DiscoveredPeerState, DiscoveredPeerTransition, noop, stale,
  already_absent, explicit, removed_for, rejected, is_visible, is_some, seen, absent, seen_again,
  observe_record, observe, remove_record, remove_peer, apply, prune_tombstones,
  max_retained_tombstones,
}
use local_transfer.Peers.Prune.{IsValid, prune-Pruned, is_tombstone}

-- A valid state with at most so many tombstones.
pub record IsBounded (s : DiscoveredPeerState) : Type 0 where
  pub valid : IsValid s
  pub few : count_if is_tombstone s.records ≤ max_retained_tombstones

abbrev pub was_visible : Option PeerRecord → Bool
was_visible none = false
was_visible (some r) = is_visible r

-- How writing one record changes the two counts.
pub record Written (s : DiscoveredPeerState) (k : TransientDiscoveryKey) (r : PeerRecord)
    (o : Option PeerRecord) : Type 0 where
  pub table : IsTable (insert Key-discrete k r s.records)
  pub visibles :
      count_if is_visible (insert Key-discrete k r s.records) + one_if (was_visible o)
      ≡ one_if (is_visible r) + count_if is_visible s.records
  pub few :
      is_visible r ≡ true
      → count_if is_tombstone (insert Key-discrete k r s.records) ≤ count_if is_tombstone s.records

pub write-Written :
    (s : DiscoveredPeerState) (k : TransientDiscoveryKey) (r : PeerRecord) (o : Option PeerRecord)
    → IsValid s
    → lookup Key-discrete k s.records ≡ o
    → Written s k r o
write-Written s k r none v e = record {
  table = IsTable-insert Key-discrete k r s.records v.table;
  visibles = ground (arith, count_if-insert_new Key-discrete is_visible k r s.records e);
  few = λ h. ground (arith, h, count_if-insert_new Key-discrete is_tombstone k r s.records e);
}
write-Written s k r (some q) v e = record {
  table = IsTable-insert Key-discrete k r s.records v.table;
  visibles = ground (arith, count_if-insert_old Key-discrete is_visible k r q s.records e);
  few = λ h. ground (arith, h, count_if-insert_old Key-discrete is_tombstone k r q s.records e);
}

pub checked_sub_pos : (n : ℕ) → 0 < n → checked_sub n 1 ≡ some (n - 1)
checked_sub_pos n h = ground arith

module _ (F : Type 0) where
  seen_again-count :
      (p : DiscoveredPeer) (n : ℕ) (o : Option VisibleDiscoveredPeer)
      → (seen_again {F = F} p n o).1 + one_if (is_some o) ≡ n + 1
  seen_again-count p n none = omega arith
  seen_again-count p n (some v) = omega arith

  -- What an observation leaves behind, whatever was recorded of its key.
  pub observe_record-IsBounded :
      (s : DiscoveredPeerState) (p : DiscoveredPeer) (now : ℕ) (o : Option PeerRecord)
      → IsBounded s
      → lookup Key-discrete p.key s.records ≡ o
      → IsBounded (observe_record {F = F} s p now o).1
  unfolding observe_record
  observe_record-IsBounded s p now none b e =
      let w = write-Written s p.key (seen p now) none b.valid e in
      record {
        valid = record { table = w.table; counted = omega (arith, w.visibles, b.valid.counted) };
        few = omega (arith, w.few refl, b.few);
      }
  observe_record-IsBounded s p now (some r) b e =
      let w = write-Written s p.key (seen p now) (some r) b.valid e in
      elim (Bool-cases (ltb now r.last_transition_at)) [
        | inl late ↦ rw late b
        | inr on_time ↦ elim (Bool-cases (not (is_some r.visible) && now == r.last_transition_at)) [
          | inl tie ↦ rw (on_time, tie) b
          | inr fresh ↦
              rw (on_time, fresh)
                (record {
                  valid = record {
                    table = w.table;
                    counted = omega (
                      arith,
                      w.visibles,
                      b.valid.counted,
                      seen_again-count p s.visible_count r.visible,
                    );
                  };
                  few = omega (arith, w.few refl, b.few);
                })
        ]
      ]

  -- `remove` does not panic on a valid state, and leaves it valid.
  pub remove_record-IsValid :
      (s : DiscoveredPeerState) (k : TransientDiscoveryKey) (now : ℕ) (o : Option PeerRecord)
      → IsValid s
      → lookup Key-discrete k s.records ≡ o
      → (t : DiscoveredPeerTransition F × DiscoveredPeerState) × (remove_record {F = F} s k now o
          ≡ some t)
        × IsValid t.1
  unfolding remove_record
  remove_record-IsValid s k now none v e =
      let w = write-Written s k (absent now) none v e in
      (
        (
          noop k already_absent,
          record s { records = insert Key-discrete k (absent now) s.records },
        ),
        refl,
        record { table = w.table; counted = omega (arith, w.visibles, v.counted) },
      )
  remove_record-IsValid s k now (some r) v e =
      let w = write-Written s k (absent now) (some r) v e in
      let again = record r { last_transition_at = max r.last_transition_at now } in
      let wa = write-Written s k again (some r) v e in
      elim (Bool-cases (ltb now r.last_transition_at)) [
        | inl late ↦ ((noop k stale, s), rw late refl, v)
        | inr on_time ↦ elim (Bool-cases (is_some r.visible)) [
          | inl here ↦ (
            (
              removed_for k explicit,
              record {
                records = insert Key-discrete k (absent now) s.records;
                visible_count = s.visible_count - 1;
              },
            ),
            rw (on_time, here)
                (ap (Option.map _)
                  (checked_sub_pos s.visible_count (ground (arith, v.counted, w.visibles, here)))),
            record { table = w.table; counted = ground (arith, v.counted, w.visibles, here) },
          )
          | inr gone ↦ (
            (noop k already_absent, record s { records = insert Key-discrete k again s.records }),
            rw (on_time, gone) refl,
            record { table = wa.table; counted = ground (arith, v.counted, wa.visibles, gone) },
          )
        ]
      ]

  observed-IsBounded :
      (s : DiscoveredPeerState) (p : DiscoveredPeer) (now : ℕ)
      → IsValid s
      → IsBounded (observe {F = F} (prune_tombstones now s) p now).1
  unfolding observe
  observed-IsBounded s p now v =
      let pr = prune-Pruned now s v in
      let q = prune_tombstones now s in
      observe_record-IsBounded q p now (lookup Key-discrete p.key q.records)
        (record { valid = pr.valid; few = pr.few }) refl

  -- On a state whose keys are distinct, whose count is that of its visible records and which has
  -- at most 256 tombstones, apply does not panic, whatever the event and the time, and leaves such
  -- a state.
  pub apply-IsBounded :
      (s : DiscoveredPeerState) (event : DiscoveryBrowserEvent F) (now : ℕ)
      → IsBounded s
      → (t : DiscoveredPeerTransition F × DiscoveredPeerState) × (apply s event now ≡ some t)
        × IsBounded t.1
  unfolding apply remove_peer
  apply-IsBounded s (added p) now b =
      (observe (prune_tombstones now s) p now, refl, observed-IsBounded s p now b.valid)
  apply-IsBounded s (updated p) now b =
      (observe (prune_tombstones now s) p now, refl, observed-IsBounded s p now b.valid)
  apply-IsBounded s (refreshed p) now b =
      (observe (prune_tombstones now s) p now, refl, observed-IsBounded s p now b.valid)
  apply-IsBounded s (removed k) now b =
      let q = prune_tombstones now s in
      let (t, e, v) =
        remove_record-IsValid q k now (lookup Key-discrete k q.records)
          (prune-Pruned now s b.valid).valid refl in
      let pr = prune-Pruned now t.1 v in
      (
        (t.0, prune_tombstones now t.1),
        ap (Option.map (λ t. (t.0, prune_tombstones now t.1))) e,
        record { valid = pr.valid; few = pr.few },
      )
  apply-IsBounded s (error e) now b = ((rejected e, s), refl, b)
