-- ===== src/Browser/Endpoint.antt =====
-- `DiscoveryEndpoint` of browser.rs, with the `BTreeSet` that `resolve` collects endpoints into.
use local_transfer.Prelude.{
  ℕ, suc, ◌≡◌, true, false, if◌then◌else◌, List, [], ◌∷◌, Option, none, some, All, ℕ_discrete,
  arith, Bool-cases,
}
use mathlib.Core.Logic.{inl, inr}
use local_transfer.Prelude.Order.{Ord}

-- `std::net::IpAddr`, the octets read as one number in network order.
pub data IpAddr : Type 0 where
  v4 v6 : ℕ → IpAddr

pub record DiscoveryEndpoint : Type 0 where
  pub address : IpAddr
  pub scope_id : Option ℕ

abbrev pub ipv4 : ℕ → DiscoveryEndpoint
ipv4 address = record { address = v4 address; scope_id = none }

abbrev pub ipv6 : ℕ → ℕ → DiscoveryEndpoint
ipv6 address scope_id = record { address = v6 address; scope_id = some scope_id }

unfoldable pub Endpoint-discrete : Discrete DiscoveryEndpoint
Endpoint-discrete = hlevel ℕ_discrete

-- The derived order: the family, the octets, the scope (`None` first).
abbrev pub address_key : IpAddr → ℕ × ℕ
address_key (v4 a) = (0, a)
address_key (v6 a) = (1, a)

abbrev pub scope_key : Option ℕ → ℕ
scope_key none = 0
scope_key (some n) = suc n

abbrev pub endpoint_key : DiscoveryEndpoint → (ℕ × ℕ) × ℕ
endpoint_key e = (address_key e.address, scope_key e.scope_id)

module _ {ℓ} {A K : Type ℓ} ⦃o : Ord K⦄ (key : A → K) where
  -- `BTreeSet::insert` on the set's elements in order: an equal element stays.
  unfoldable pub set_insert : A → List A → List A
  set_insert x [] = x ∷ []
  set_insert x (y ∷ ys) =
      let rest = set_insert x ys in
      if o.le? (key x) (key y)
      then (if o.le? (key y) (key x) then y ∷ ys else x ∷ y ∷ ys)
      else y ∷ rest

  unfoldable pub collect_from : List A → List A → List A
  collect_from set [] = set
  collect_from set (x ∷ xs) = collect_from (set_insert x set) xs

  abbrev pub collect : List A → List A
  collect xs = collect_from [] xs

  abbrev pub Below : A → A → Type 0
  Below x y = (o.le? (key x) (key y) ≡ true) × (o.le? (key y) (key x) ≡ false)

  -- Each element is strictly below all that follow.
  abbrev pub Strict : List A → Type ℓ
  Strict [] = Unit
  Strict (x ∷ xs) = All (Below x) xs × Strict xs

  Below-trans : (x y z : A) → Below x y → Below y z → Below x z
  Below-trans x y z p q = ground (
    arith,
    o.le?_trans (key x) (key y) (key z),
    o.le?_trans (key z) (key x) (key y),
    o.le?_total (key x) (key z),
  )

  All-Below : (x y : A) (ys : List A) → Below x y → All (Below y) ys → All (Below x) ys
  All-Below x y [] p h = tt
  All-Below x y (z ∷ ys) p h = (Below-trans x y z p h.0, All-Below x y ys p h.1)

  All-set_insert {μ} :
      (P : A → Type μ) (x : A) (xs : List A) → P x → All P xs → All P (set_insert x xs)
  unfolding set_insert
  All-set_insert P x [] p h = (p, tt)
  All-set_insert P x (y ∷ ys) p h = elim (Bool-cases (o.le? (key x) (key y))) [
    | inr gt ↦ rw gt (h.0, All-set_insert P x ys p h.1)
    | inl le ↦ elim (Bool-cases (o.le? (key y) (key x))) [
      | inl same ↦ rw (le, same) h
      | inr lt ↦ rw (le, lt) (p, h)
    ]
  ]

  Strict-set_insert : (x : A) (xs : List A) → Strict xs → Strict (set_insert x xs)
  unfolding set_insert
  Strict-set_insert x [] s = (tt, tt)
  Strict-set_insert x (y ∷ ys) s = elim (Bool-cases (o.le? (key x) (key y))) [
    | inr gt ↦ rw gt (
      All-set_insert (Below y) x ys (ground (arith, o.le?_total (key x) (key y))) s.0,
      Strict-set_insert x ys s.1,
    )
    | inl le ↦ elim (Bool-cases (o.le? (key y) (key x))) [
      | inl same ↦ rw (le, same) s
      | inr lt ↦ rw (le, lt) (((le, lt), All-Below x y ys (le, lt) s.0), s)
    ]
  ]

  Strict-collect_from : (set xs : List A) → Strict set → Strict (collect_from set xs)
  unfolding collect_from
  Strict-collect_from set [] s = s
  Strict-collect_from set (x ∷ xs) s =
      Strict-collect_from (set_insert x set) xs (Strict-set_insert x set s)

  -- What is collected is strictly ascending: sorted, and without duplicates.
  pub collect-Strict : (xs : List A) → Strict (collect xs)
  collect-Strict xs = Strict-collect_from [] xs tt
