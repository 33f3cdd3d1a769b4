-- ===== src/Prelude/Table.antt =====
-- `HashMap` as an association list with distinct keys. Its order of iteration is unspecified; the
-- program sorts wherever the order would show.
use Prim.Native.Nat.{ℕ, ◌+◌, ◌≤◌}
use mathlib.Core.Path.{◌≡◌, refl, sym, ap}
use mathlib.Core.Logic.{inl, inr, ◌≢◌, ite, if_pos, if_neg}
use mathlib.Core.Bool.{Bool, true, false}
use mathlib.Core.Option.{Option, none, some}
use mathlib.Core.List.{List, [], ◌∷◌}
use native.Mathlib.Omega.{arith}
use local_transfer.Prelude.Tests.{if◌then◌else◌, Bool-cases}
use local_transfer.Prelude.Lists.{All}
use local_transfer.Prelude.Sort.{Distinct}

abbrev pub Table {ℓ} : Type ℓ → Type ℓ → Type ℓ
Table K V = List (K × V)

-- Each key once.
abbrev pub IsTable {ℓ} : {K : Type ℓ} {V : Type ℓ} → Table K V → Type ℓ
IsTable m = Distinct (λ e. e.0) m

module _ {ℓ} {K V : Type ℓ} (d : Discrete K) where
  unfoldable pub lookup : K → Table K V → Option V
  lookup k [] = none
  lookup k ((j, v) ∷ m) = ite (d j k) (some v) (lookup k m)

  unfoldable pub insert : K → V → Table K V → Table K V
  insert k v [] = (k, v) ∷ []
  insert k v ((j, w) ∷ m) = ite (d j k) ((k, v) ∷ m) ((j, w) ∷ insert k v m)

  unfoldable pub remove : K → Table K V → Table K V
  remove k [] = []
  remove k ((j, v) ∷ m) = let rest = remove k m in ite (d j k) rest ((j, v) ∷ rest)

  pub lookup-insert :
      (k j : K) (v : V) (m : Table K V)
      → lookup j (insert k v m) ≡ ite (d k j) (some v) (lookup j m)
  unfolding lookup insert
  lookup-insert k j v [] = refl
  lookup-insert k j v ((i, w) ∷ m) = ground (arith, lookup-insert k j v m)

  pub lookup-remove :
      (k j : K) (m : Table K V) → lookup j (remove k m) ≡ ite (d k j) none (lookup j m)
  unfolding lookup remove
  lookup-remove k j [] = ground arith
  lookup-remove k j ((i, w) ∷ m) = ground (arith, lookup-remove k j m)

  All-insert {μ} :
      (P : K × V → Type μ) (k : K) (v : V) (m : Table K V)
      → P (k, v)
      → All P m
      → All P (insert k v m)
  unfolding insert
  All-insert P k v [] p h = (p, tt)
  All-insert P k v ((j, w) ∷ m) p h = elim (d j k) [
    | yes e ↦ rw (if_pos (d j k) e) (p, h.1)
    | no n ↦ rw (if_neg (d j k) n) (h.0, All-insert P k v m p h.1)
  ]

  All-remove {μ} : (P : K × V → Type μ) (k : K) (m : Table K V) → All P m → All P (remove k m)
  unfolding remove
  All-remove P k [] h = tt
  All-remove P k ((j, w) ∷ m) h = elim (d j k) [
    | yes e ↦ rw (if_pos (d j k) e) (All-remove P k m h.1)
    | no n ↦ rw (if_neg (d j k) n) (h.0, All-remove P k m h.1)
  ]

  pub IsTable-insert : (k : K) (v : V) (m : Table K V) → IsTable m → IsTable (insert k v m)
  unfolding insert
  IsTable-insert k v [] t = (tt, tt)
  IsTable-insert k v ((j, w) ∷ m) t = elim (d j k) [
    | yes e ↦ rw (if_pos (d j k) e) (rw e at t)
    | no n ↦
        rw (if_neg (d j k) n)
          (All-insert (λ e. e.0 ≢ j) k v m (λ e. n (sym e)) t.0, IsTable-insert k v m t.1)
  ]

  pub IsTable-remove : (k : K) (m : Table K V) → IsTable m → IsTable (remove k m)
  unfolding remove
  IsTable-remove k [] t = tt
  IsTable-remove k ((j, w) ∷ m) t = elim (d j k) [
    | yes e ↦ rw (if_pos (d j k) e) (IsTable-remove k m t.1)
    | no n ↦ rw (if_neg (d j k) n) (All-remove (λ e. e.0 ≢ j) k m t.0, IsTable-remove k m t.1)
  ]

  lookup_absent : (k : K) (m : Table K V) → All (λ e. e.0 ≢ k) m → lookup k m ≡ none
  unfolding lookup
  lookup_absent k [] h = refl
  lookup_absent k ((j, w) ∷ m) h = rw (if_neg (d j k) h.0) (lookup_absent k m h.1)

  remove_absent : (k : K) (m : Table K V) → All (λ e. e.0 ≢ k) m → remove k m ≡ m
  unfolding remove
  remove_absent k [] h = refl
  remove_absent k ((j, w) ∷ m) h = rw (if_neg (d j k) h.0) (ap (◌∷◌ (j, w)) (remove_absent k m h.1))

abbrev pub one_if : Bool → ℕ
one_if true = 1
one_if false = 0

module _ {ℓ} {K V : Type ℓ} where
  -- `retain(|_, v| p(v))`
  unfoldable pub retain : (V → Bool) → Table K V → Table K V
  retain p [] = []
  retain p ((k, v) ∷ m) = let rest = retain p m in if p v then (k, v) ∷ rest else rest

  -- How many values pass a test.
  unfoldable pub count_if : (V → Bool) → Table K V → ℕ
  count_if p [] = 0
  count_if p ((k, v) ∷ m) = one_if (p v) + count_if p m

  All-retain {μ} :
      (P : K × V → Type μ) (p : V → Bool) (m : Table K V) → All P m → All P (retain p m)
  unfolding retain
  All-retain P p [] h = tt
  All-retain P p ((k, v) ∷ m) h = elim (Bool-cases (p v)) [
    | inl keep ↦ rw keep (h.0, All-retain P p m h.1)
    | inr drop ↦ rw drop (All-retain P p m h.1)
  ]

  pub IsTable-retain : (p : V → Bool) (m : Table K V) → IsTable m → IsTable (retain p m)
  unfolding retain
  IsTable-retain p [] t = tt
  IsTable-retain p ((k, v) ∷ m) t = elim (Bool-cases (p v)) [
    | inl keep ↦ rw keep (All-retain (λ e. e.0 ≢ k) p m t.0, IsTable-retain p m t.1)
    | inr drop ↦ rw drop (IsTable-retain p m t.1)
  ]

  -- Dropping values that fail a test does not change how many pass one that implies it.
  pub count_if-retain :
      (p q : V → Bool) (m : Table K V)
      → ((v : V) → q v ≡ true → p v ≡ true)
      → count_if q (retain p m) ≡ count_if q m
  unfolding count_if retain
  count_if-retain p q [] h = refl
  count_if-retain p q ((k, v) ∷ m) h = ground (arith, h v, count_if-retain p q m h)

  pub count_if-retain_le : (p q : V → Bool) (m : Table K V) → count_if q (retain p m) ≤ count_if q m
  unfolding count_if retain
  count_if-retain_le p q [] = omega arith
  count_if-retain_le p q ((k, v) ∷ m) = ground (arith, count_if-retain_le p q m)

module _ {ℓ} {K V : Type ℓ} (d : Discrete K) where
  pub lookup-retain :
      (p : V → Bool) (k : K) (m : Table K V)
      → IsTable m
      → lookup d k (retain p m)
        ≡ elim (lookup d k m) [ none ↦ none | some v ↦ if p v then some v else none ]
  unfolding lookup retain
  lookup-retain p k [] t = refl
  lookup-retain p k ((j, w) ∷ m) t = elim (d j k) [
    | yes e ↦ elim (Bool-cases (p w)) [
      | inl keep ↦ ground (arith, lookup-retain p k m t.1)
      | inr drop ↦ ground (arith, lookup-retain p k m t.1, lookup_absent d k m (rw e at t.0))
    ]
    | no n ↦ ground (arith, lookup-retain p k m t.1)
  ]

  pub count_if-insert_new :
      (p : V → Bool) (k : K) (v : V) (m : Table K V)
      → lookup d k m ≡ none
      → count_if p (insert d k v m) ≡ one_if (p v) + count_if p m
  unfolding count_if insert lookup
  count_if-insert_new p k v [] h = refl
  count_if-insert_new p k v ((j, w) ∷ m) h = ground (arith, count_if-insert_new p k v m)

  pub count_if-insert_old :
      (p : V → Bool) (k : K) (v w : V) (m : Table K V)
      → lookup d k m ≡ some w
      → count_if p (insert d k v m) + one_if (p w) ≡ one_if (p v) + count_if p m
  unfolding count_if insert lookup
  count_if-insert_old p k v w [] h = cc
  count_if-insert_old p k v w ((j, x) ∷ m) h = ground (arith, count_if-insert_old p k v w m)

  pub count_if-remove :
      (p : V → Bool) (k : K) (w : V) (m : Table K V)
      → IsTable m
      → lookup d k m ≡ some w
      → count_if p (remove d k m) + one_if (p w) ≡ count_if p m
  unfolding count_if remove lookup
  count_if-remove p k w [] t h = cc
  count_if-remove p k w ((j, x) ∷ m) t h = elim (d j k) [
    | yes e ↦ ground (arith, remove_absent d k m (rw e at t.0), lookup_absent d k m (rw e at t.0))
    | no n ↦ ground (arith, count_if-remove p k w m t.1)
  ]
