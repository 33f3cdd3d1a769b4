-- ===== src/Peers/Prune.antt =====
-- `prune_tombstones` of discovered_peers.rs: what is shown, the count, and the tombstones.
use mathlib.Core.Logic.{inl, inr}
use local_transfer.Prelude.{
  ℕ, ◌+◌, ◌-◌, ◌≤◌, ◌≡◌, ◌≢◌, refl, sym, ap, ◌∙◌, Bool, true, false, not, if◌then◌else◌, List, [],
  ◌∷◌, Option, none, some, length, suc, zero, take, All, length-take, if_pos, if_neg, arith,
  Bool-cases, Option-cases, le→leb, lt→leb_false, dec_le,
}
use local_transfer.Prelude.Order.{nat_ord, pair_ord, list_ord}
use local_transfer.Prelude.Sort.{sort_by, Distinct, Distinct-sort_by, All-sort_by, length-sort_by}
use local_transfer.Prelude.Table.{
  IsTable, lookup, remove, retain, count_if, lookup-remove, IsTable-remove, IsTable-retain,
  lookup-retain, count_if-retain, count_if-remove,
}
use local_transfer.Browser.Key.{TransientDiscoveryKey, Key-discrete}
use local_transfer.Peers.{
  PeerRecord, Records, DiscoveredPeerState, shown, is_visible, keeps, tombstones, tombstone_key,
  remove_all, drop_oldest, prune_tombstones, max_retained_tombstones, peer_of, get,
}

abbrev pub is_tombstone : PeerRecord → Bool
is_tombstone r = not (is_visible r)

abbrev Stamp : Type 0
Stamp = ℕ × TransientDiscoveryKey

-- A key whose record is a tombstone.
abbrev Dead : Records → Stamp → Type 0
Dead m t = (r : PeerRecord) × (lookup Key-discrete t.1 m ≡ some r) × (is_visible r ≡ false)

All-map : (P Q : Stamp → Type 0) (ts : List Stamp) → ((t : Stamp) → P t → Q t) → All P ts → All Q ts
All-map P Q [] f h = tt
All-map P Q (t ∷ ts) f h = (f t h.0, All-map P Q ts f h.1)

All-take : (P : Stamp → Type 0) (n : ℕ) (ts : List Stamp) → All P ts → All P (take n ts)
All-take P zero ts h = tt
All-take P (suc n) [] h = tt
All-take P (suc n) (t ∷ ts) h = (h.0, All-take P n ts h.1)

Distinct-take : (n : ℕ) (ts : List Stamp) → Distinct (λ t. t.1) ts → Distinct (λ t. t.1) (take n ts)
Distinct-take zero ts d = tt
Distinct-take (suc n) [] d = tt
Distinct-take (suc n) (t ∷ ts) d = (All-take (λ u. u.1 ≢ t.1) n ts d.0, Distinct-take n ts d.1)

-- The keys of the tombstones are keys of the table.
tombstones-keys :
    (P : TransientDiscoveryKey → Type 0) (m : Records)
    → All (λ e. P e.0) m
    → All (λ t. P t.1) (tombstones m)
unfolding tombstones
tombstones-keys P [] h = tt
tombstones-keys P ((k, r) ∷ m) h = elim (Bool-cases (is_visible r)) [
  | inl v ↦ rw v (tombstones-keys P m h.1)
  | inr n ↦ rw n (h.0, tombstones-keys P m h.1)
]

tombstones-Distinct : (m : Records) → IsTable m → Distinct (λ t. t.1) (tombstones m)
unfolding tombstones
tombstones-Distinct [] t = tt
tombstones-Distinct ((k, r) ∷ m) t = elim (Bool-cases (is_visible r)) [
  | inl v ↦ rw v (tombstones-Distinct m t.1)
  | inr n ↦ rw n (tombstones-keys (λ j. j ≢ k) m t.0, tombstones-Distinct m t.1)
]

All-both :
    (P Q R : Stamp → Type 0) (ts : List Stamp)
    → ((t : Stamp) → P t → Q t → R t)
    → All P ts
    → All Q ts
    → All R ts
All-both P Q R [] f p q = tt
All-both P Q R (t ∷ ts) f p q = (f t p.0 q.0, All-both P Q R ts f p.1 q.1)

pub lookup_other :
    (k j : TransientDiscoveryKey) (r : PeerRecord) (m : Records)
    → j ≢ k
    → lookup Key-discrete j ((k, r) ∷ m) ≡ lookup Key-discrete j m
unfolding lookup
lookup_other k j r m n =
    if_neg (Key-discrete k j) (λ e. n (sym e)) (some r) (lookup Key-discrete j m)

pub lookup_same :
    (k : TransientDiscoveryKey) (r : PeerRecord) (m : Records)
    → lookup Key-discrete k ((k, r) ∷ m) ≡ some r
unfolding lookup
lookup_same k r m = if_pos (Key-discrete k k) refl (some r) (lookup Key-discrete k m)

tombstones-Dead : (m : Records) → IsTable m → All (Dead m) (tombstones m)
unfolding tombstones
tombstones-Dead [] t = tt
tombstones-Dead ((k, r) ∷ m) t =
    let later =
      All-both (λ u. u.1 ≢ k) (Dead m) (Dead ((k, r) ∷ m)) (tombstones m)
        (λ u n (q, e, v). (q, lookup_other k u.1 r m n ∙ e, v)) (tombstones-keys (λ j. j ≢ k) m t.0)
        (tombstones-Dead m t.1) in
    elim (Bool-cases (is_visible r)) [
      | inl v ↦ rw v later
      | inr n ↦ rw n ((r, lookup_same k r m, n), later)
    ]

pub length-tombstones : (m : Records) → length (tombstones m) ≡ count_if is_tombstone m
unfolding tombstones count_if
length-tombstones [] = refl
length-tombstones ((k, r) ∷ m) = ground (arith, length-tombstones m)

-- Removing a tombstone leaves the others.
Dead-remove :
    (k : TransientDiscoveryKey) (m : Records) (t : Stamp)
    → t.1 ≢ k
    → Dead m t
    → Dead (remove Key-discrete k m) t
Dead-remove k m t n (r, e, v) = (
  r,
  lookup-remove Key-discrete k t.1 m
      ∙ if_neg (Key-discrete k t.1) (λ q. n (sym q)) none (lookup Key-discrete t.1 m)
      ∙ e,
  v,
)

-- Removing distinct tombstones keeps what is shown and counted as visible, and counts each.
pub record Removed (m : Records) (n : ℕ) (m' : Records) : Type 0 where
  pub table : IsTable m'
  pub same_view :
      (j : TransientDiscoveryKey)
      → shown (lookup Key-discrete j m') ≡ shown (lookup Key-discrete j m)
  pub same_count : count_if is_visible m' ≡ count_if is_visible m
  pub fewer : count_if is_tombstone m' + n ≡ count_if is_tombstone m

not_shown : (r : PeerRecord) → is_visible r ≡ false → peer_of r.visible ≡ none
not_shown r h = elim (Option-cases r.visible) [ inl e ↦ ap peer_of e | inr (v, e) ↦ absurd (cc) ]

remove-view :
    (m : Records) (t : Stamp) (r : PeerRecord) (j : TransientDiscoveryKey)
    → lookup Key-discrete t.1 m ≡ some r
    → is_visible r ≡ false
    → shown (lookup Key-discrete j (remove Key-discrete t.1 m)) ≡ shown (lookup Key-discrete j m)
remove-view m t r j e v =
    ap shown (lookup-remove Key-discrete t.1 j m) ∙ elim (Key-discrete t.1 j) [
      | yes q ↦
          ap shown (if_pos (Key-discrete t.1 j) q none (lookup Key-discrete j m))
          ∙ sym (not_shown r v)
          ∙ sym (ap shown e)
          ∙ ap (λ k. shown (lookup Key-discrete k m)) q
      | no n ↦ ap shown (if_neg (Key-discrete t.1 j) n none (lookup Key-discrete j m))
    ]

remove-Removed :
    (m : Records) (t : Stamp) → IsTable m → Dead m t → Removed m 1 (remove Key-discrete t.1 m)
remove-Removed m t tab (r, e, v) = record {
  table = IsTable-remove Key-discrete t.1 m tab;
  same_view = λ j. remove-view m t r j e v;
  same_count = ground (arith, count_if-remove Key-discrete is_visible t.1 r m tab e);
  fewer = ground (arith, count_if-remove Key-discrete is_tombstone t.1 r m tab e);
}

remove_all-Removed :
    (ts : List Stamp) (m : Records)
    → IsTable m
    → Distinct (λ t. t.1) ts
    → All (Dead m) ts
    → Removed m (length ts) (remove_all ts m)
unfolding remove_all
remove_all-Removed [] m tab d h = record {
  table = tab;
  same_view = λ j. refl;
  same_count = refl;
  fewer = omega arith;
}
remove_all-Removed (t ∷ ts) m tab d h =
    let one = remove-Removed m t tab h.0 in
    let rest = remove_all-Removed ts (remove Key-discrete t.1 m) one.table d.1 (
      All-both (λ u. u.1 ≢ t.1) (Dead m) (Dead (remove Key-discrete t.1 m)) ts (Dead-remove t.1 m)
        d.0 h.1) in
    record {
      table = rest.table;
      same_view = λ j. rest.same_view j ∙ one.same_view j;
      same_count = rest.same_count ∙ one.same_count;
      fewer = omega (arith, rest.fewer, one.fewer);
    }

drop_oldest-Removed :
    (m : Records)
    → IsTable m
    → (n : ℕ) × Removed m n (drop_oldest m)
      × (count_if is_tombstone (drop_oldest m) ≤ max_retained_tombstones)
unfolding drop_oldest
drop_oldest-Removed m tab = elim (dec_le (length (tombstones m)) max_retained_tombstones) [
  | yes le ↦ rw (le→leb (length (tombstones m)) max_retained_tombstones le) (
    0,
    record { table = tab; same_view = λ j. refl; same_count = refl; fewer = omega arith },
    omega (arith, length-tombstones m, le),
  )
  | no gt ↦
      let n = length (tombstones m) - max_retained_tombstones in
      let sorted = sort_by tombstone_key (tombstones m) in
      let result =
        remove_all-Removed (take n sorted) m tab
          (Distinct-take n sorted
            (Distinct-sort_by tombstone_key (λ t. t.1) (tombstones m) (tombstones-Distinct m tab)))
          (All-take (Dead m) n sorted
            (All-sort_by tombstone_key (Dead m) (tombstones m) (tombstones-Dead m tab))) in
      rw (lt→leb_false (length (tombstones m)) max_retained_tombstones (omega arith)) (
        length (take n sorted),
        result,
        omega (
          arith,
          gt,
          result.fewer,
          length-take n sorted,
          length-sort_by tombstone_key (tombstones m),
          length-tombstones m,
        ),
      )
]

-- A state's count is that of its visible records.
pub record IsValid (s : DiscoveredPeerState) : Type 0 where
  pub table : IsTable s.records
  pub counted : s.visible_count ≡ count_if is_visible s.records

-- Pruning keeps a state valid and what it shows, and leaves at most so many tombstones.
pub record Pruned (s t : DiscoveredPeerState) : Type 0 where
  pub valid : IsValid t
  pub same_view : (j : TransientDiscoveryKey) → get t j ≡ get s j
  pub few : count_if is_tombstone t.records ≤ max_retained_tombstones

keeps_visible : (now : ℕ) (r : PeerRecord) → is_visible r ≡ true → keeps now r ≡ true
unfolding keeps
keeps_visible now r h = ground arith

shown_kept :
    (now : ℕ) (o : Option PeerRecord)
    → shown (elim o [ none ↦ none | some r ↦ if keeps now r then some r else none ]) ≡ shown o
shown_kept now none = refl
shown_kept now (some r) = elim (Bool-cases (is_visible r)) [
  | inl v ↦ rw (keeps_visible now r v) refl
  | inr n ↦ elim (Bool-cases (keeps now r)) [
    | inl k ↦ rw k refl
    | inr d ↦ rw d (sym (not_shown r n))
  ]
]

-- Pruning a state with distinct keys and a right count keeps it so, keeps what is shown for every
-- key, and leaves at most 256 tombstones.
pub prune-Pruned :
    (now : ℕ) (s : DiscoveredPeerState) → IsValid s → Pruned s (prune_tombstones now s)
unfolding prune_tombstones
prune-Pruned now s valid =
    let kept = retain (keeps now) s.records in
    let (n, dropped, few) =
      drop_oldest-Removed kept (IsTable-retain (keeps now) s.records valid.table) in
    record {
      valid = record {
        table = dropped.table;
        counted =
            valid.counted
            ∙ sym (count_if-retain (keeps now) is_visible s.records (keeps_visible now))
            ∙ sym dropped.same_count;
      };
      same_view = λ j.
          dropped.same_view j
          ∙ ap shown (lookup-retain Key-discrete (keeps now) j s.records valid.table)
          ∙ shown_kept now (lookup Key-discrete j s.records);
      few = few;
    }
