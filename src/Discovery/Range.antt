-- ===== src/Discovery/Range.antt =====
-- `DiscoveryProtocolRange` of crates/local-transfer-core/src/discovery.rs.
use local_transfer.Prelude.{
  ℕ, ◌≤◌, ◌≡◌, ◌↔◌, Bool, true, false, Option, none, some, ltb, leb, if◌then◌else◌, min, max,
  Result, ok, err, arith,
}

abbrev pub initial_protocol_major : ℕ
initial_protocol_major = 1

pub record DiscoveryProtocolRange : Type 0 where
  pub min : ℕ
  pub max : ℕ

pub record DiscoveryProtocolRangeError : Type 0 where
  pub min : ℕ
  pub max : ℕ

unfoldable pub new : ℕ → ℕ → Result DiscoveryProtocolRangeError DiscoveryProtocolRange
new min max =
    if ltb max min
    then err (record { min = min; max = max })
    else ok (record { min = min; max = max })

abbrev pub initial : DiscoveryProtocolRange
initial = record { min = initial_protocol_major; max = initial_protocol_major }

unfoldable pub highest_compatible_version :
    DiscoveryProtocolRange → DiscoveryProtocolRange → Option ℕ
highest_compatible_version a b =
    let minimum = max a.min b.min in
    let maximum = min a.max b.max in if leb minimum maximum then some maximum else none

unfoldable pub is_compatible_with : DiscoveryProtocolRange → DiscoveryProtocolRange → Bool
unfolding highest_compatible_version
is_compatible_with a b = elim (highest_compatible_version a b) [ none ↦ false | some v ↦ true ]

-- The versions that a range admits.
abbrev pub Admits : DiscoveryProtocolRange → ℕ → Type 0
Admits r v = (r.min ≤ v) × (v ≤ r.max)

-- A version that two ranges choose is admitted by both, and no version that both admit is higher.
pub highest_sound :
    (a b : DiscoveryProtocolRange) (v : ℕ)
    → highest_compatible_version a b ≡ some v
    → Admits a v × Admits b v × ((w : ℕ) → Admits a w → Admits b w → w ≤ v)
unfolding highest_compatible_version
highest_sound a b v h = (ground arith, ground arith, λ w p q. ground arith)

-- Two ranges choose a version exactly when both admit it and no version that both admit is higher.
pub highest_iff :
    (a b : DiscoveryProtocolRange) (v : ℕ)
    → (highest_compatible_version a b ≡ some v)
      ↔ (Admits a v × Admits b v × ((w : ℕ) → Admits a w → Admits b w → w ≤ v))
unfolding highest_compatible_version
highest_iff a b v =
    (highest_sound a b v, λ (p, q, top). let greatest = top (min a.max b.max) in ground arith)

-- Two ranges are compatible exactly when some version is admitted by both.
pub compatible_iff :
    (a b : DiscoveryProtocolRange)
    → (is_compatible_with a b ≡ true) ↔ ((v : ℕ) × Admits a v × Admits b v)
unfolding is_compatible_with
compatible_iff a b = (λ h. (max a.min b.min, ground arith, ground arith), λ (v, p, q). ground arith)

-- The choice does not depend on which side makes it.
pub highest_comm :
    (a b : DiscoveryProtocolRange) → highest_compatible_version a b ≡ highest_compatible_version b a
unfolding highest_compatible_version
highest_comm a b = ground arith
