-- ===== src/Prelude/Sort.antt =====
-- `slice::sort`: a stable sort, and what it keeps.
use Prim.Native.Nat.{suc}
use mathlib.Core.Path.{◌≡◌, refl, sym, ap, ◌∙◌}
use mathlib.Core.Logic.{inl, inr, ◌≢◌}
use mathlib.Core.Bool.{true}
use mathlib.Core.List.{List, [], ◌∷◌}
use native.Mathlib.Omega.{arith}
use local_transfer.Prelude.Tests.{if◌then◌else◌, Bool-cases}
use local_transfer.Prelude.Lists.{All, length}
use local_transfer.Prelude.Order.{Ord}

module _ {ℓ κ} {A : Type ℓ} {K : Type κ} (key : A → K) where
  -- No two elements have one key.
  abbrev pub Distinct : List A → Type κ
  Distinct [] = Unit
  Distinct (x ∷ xs) = All (λ y. key y ≢ key x) xs × Distinct xs

module _ {ℓ κ} {A : Type ℓ} {K : Type κ} ⦃o : Ord K⦄ (key : A → K) where
  -- `sort_by(|a, b| key(a).cmp(key(b)))`
  unfoldable pub insert_by : A → List A → List A
  insert_by x [] = x ∷ []
  insert_by x (y ∷ ys) =
      let rest = insert_by x ys in if o.le? (key x) (key y) then x ∷ y ∷ ys else y ∷ rest

  unfoldable pub sort_by : List A → List A
  unfolding insert_by
  sort_by [] = []
  sort_by (x ∷ xs) = insert_by x (sort_by xs)

  -- Each element's key is at most those of all that follow.
  abbrev pub Sorted : List A → Type (ℓ ⊔ κ)
  Sorted [] = Unit
  Sorted (x ∷ xs) = All (λ y. o.le? (key x) (key y) ≡ true) xs × Sorted xs

  length-insert_by : (x : A) (xs : List A) → length (insert_by x xs) ≡ suc (length xs)
  unfolding insert_by
  length-insert_by x [] = refl
  length-insert_by x (y ∷ ys) = ground (arith, length-insert_by x ys)

  pub length-sort_by : (xs : List A) → length (sort_by xs) ≡ length xs
  unfolding sort_by
  length-sort_by [] = refl
  length-sort_by (x ∷ xs) = length-insert_by x (sort_by xs) ∙ ap suc (length-sort_by xs)

  All-insert_by {μ} :
      (P : A → Type μ) (x : A) (xs : List A) → P x → All P xs → All P (insert_by x xs)
  unfolding insert_by
  All-insert_by P x [] p h = (p, tt)
  All-insert_by P x (y ∷ ys) p h = elim (Bool-cases (o.le? (key x) (key y))) [
    | inl le ↦ rw le (p, h)
    | inr gt ↦ rw gt (h.0, All-insert_by P x ys p h.1)
  ]

  -- What holds of all elements holds of all after sorting.
  pub All-sort_by {μ} : (P : A → Type μ) (xs : List A) → All P xs → All P (sort_by xs)
  unfolding sort_by
  All-sort_by P [] h = tt
  All-sort_by P (x ∷ xs) h = All-insert_by P x (sort_by xs) h.0 (All-sort_by P xs h.1)

  Distinct-insert_by {μ} :
      {J : Type μ} (id : A → J) (x : A) (xs : List A)
      → All (λ y. id y ≢ id x) xs
      → Distinct id xs
      → Distinct id (insert_by x xs)
  unfolding insert_by
  Distinct-insert_by id x [] a d = (tt, tt)
  Distinct-insert_by id x (y ∷ ys) a d = elim (Bool-cases (o.le? (key x) (key y))) [
    | inl le ↦ rw le (a, d)
    | inr gt ↦ rw gt (
      All-insert_by (λ z. id z ≢ id y) x ys (λ e. a.0 (sym e)) d.0,
      Distinct-insert_by id x ys a.1 d.1,
    )
  ]

  -- Elements that differ in some part still do after sorting.
  pub Distinct-sort_by {μ} :
      {J : Type μ} (id : A → J) (xs : List A) → Distinct id xs → Distinct id (sort_by xs)
  unfolding sort_by
  Distinct-sort_by id [] d = tt
  Distinct-sort_by id (x ∷ xs) d =
      Distinct-insert_by id x (sort_by xs) (All-sort_by (λ y. id y ≢ id x) xs d.0)
        (Distinct-sort_by id xs d.1)

  All-le :
      (x y : A) (ys : List A)
      → o.le? (key x) (key y) ≡ true
      → All (λ z. o.le? (key y) (key z) ≡ true) ys
      → All (λ z. o.le? (key x) (key z) ≡ true) ys
  All-le x y [] p h = tt
  All-le x y (z ∷ ys) p h = (o.le?_trans (key x) (key y) (key z) p h.0, All-le x y ys p h.1)

  Sorted-insert_by : (x : A) (xs : List A) → Sorted xs → Sorted (insert_by x xs)
  unfolding insert_by
  Sorted-insert_by x [] s = (tt, tt)
  Sorted-insert_by x (y ∷ ys) s = elim (Bool-cases (o.le? (key x) (key y))) [
    | inl le ↦ rw le ((le, All-le x y ys le s.0), s)
    | inr gt ↦ rw gt (
      All-insert_by (λ z. o.le? (key y) (key z) ≡ true) x ys
          (ground (arith, o.le?_total (key x) (key y))) s.0,
      Sorted-insert_by x ys s.1,
    )
  ]

  pub sort_by-Sorted : (xs : List A) → Sorted (sort_by xs)
  unfolding sort_by
  sort_by-Sorted [] = tt
  sort_by-Sorted (x ∷ xs) = Sorted-insert_by x (sort_by xs) (sort_by-Sorted xs)

  insert_by_least :
      (x : A) (xs : List A) → All (λ y. o.le? (key x) (key y) ≡ true) xs → insert_by x xs ≡ x ∷ xs
  unfolding insert_by
  insert_by_least x [] h = refl
  insert_by_least x (y ∷ ys) h = rw (h.0)

  -- A sorted list is left as it is.
  pub sort_by_of_Sorted : (xs : List A) → Sorted xs → sort_by xs ≡ xs
  unfolding sort_by
  sort_by_of_Sorted [] s = refl
  sort_by_of_Sorted (x ∷ xs) s = rw (sort_by_of_Sorted xs s.1) (insert_by_least x xs s.0)
