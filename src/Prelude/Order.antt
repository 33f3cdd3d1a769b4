-- ===== src/Prelude/Order.antt =====
-- Total orders (`Ord`): those of numbers, pairs and lists.
use Prim.Native.Nat.{ℕ}
use mathlib.Core.Path.{◌≡◌, refl}
use mathlib.Core.Logic.{◌⊎◌, inl, inr}
use mathlib.Core.Bool.{Bool, true, false}
use mathlib.Core.List.{List, [], ◌∷◌}
use native.Mathlib.Omega.{arith}
use local_transfer.Prelude.Tests.{leb, if◌then◌else◌}

pub record Ord {ℓ} (A : Type ℓ) : Type ℓ where
  pub le? : A → A → Bool
  pub le?_total : (a b : A) → (le? a b ≡ true) ⊎ (le? b a ≡ true)
  pub le?_trans : (a b c : A) → le? a b ≡ true → le? b c ≡ true → le? a c ≡ true
  pub le?_antisymm : (a b : A) → le? a b ≡ true → le? b a ≡ true → a ≡ b

pub leb_total : (a b : ℕ) → (leb a b ≡ true) ⊎ (leb b a ≡ true)
leb_total a b = ground arith

pub leb_trans : (a b c : ℕ) → leb a b ≡ true → leb b c ≡ true → leb a c ≡ true
leb_trans a b c p q = ground arith

pub leb_antisymm : (a b : ℕ) → leb a b ≡ true → leb b a ≡ true → a ≡ b
leb_antisymm a b p q = ground arith

instance abbrev pub nat_ord : Ord ℕ
nat_ord = record {
  le? = leb;
  le?_total = leb_total;
  le?_trans = leb_trans;
  le?_antisymm = leb_antisymm;
}

module _ {ℓ κ} {A : Type ℓ} {B : Type κ} ⦃o : Ord A⦄ ⦃p : Ord B⦄ where
  -- the derived order of a struct: field by field
  abbrev pub pair_le? : A × B → A × B → Bool
  pair_le? x y = if o.le? x.0 y.0 then (if o.le? y.0 x.0 then p.le? x.1 y.1 else true) else false

  pub pair_total : (x y : A × B) → (pair_le? x y ≡ true) ⊎ (pair_le? y x ≡ true)
  pair_total x y = ground (arith, o.le?_total x.0 y.0, p.le?_total x.1 y.1)

  pub pair_trans : (x y z : A × B) → pair_le? x y ≡ true → pair_le? y z ≡ true → pair_le? x z ≡ true
  pair_trans x y z h k = ground (
    arith,
    o.le?_trans x.0 y.0 z.0,
    o.le?_trans z.0 x.0 y.0,
    o.le?_trans y.0 z.0 x.0,
    p.le?_trans x.1 y.1 z.1,
  )

  pub pair_antisymm : (x y : A × B) → pair_le? x y ≡ true → pair_le? y x ≡ true → x ≡ y
  pair_antisymm x y h k = ground (arith, o.le?_antisymm x.0 y.0, p.le?_antisymm x.1 y.1)

  instance abbrev pub pair_ord : Ord (A × B)
  pair_ord = record {
    le? = pair_le?;
    le?_total = pair_total;
    le?_trans = pair_trans;
    le?_antisymm = pair_antisymm;
  }

module _ {ℓ} {A : Type ℓ} ⦃o : Ord A⦄ where
  -- the lexicographic order of slices and strings
  unfoldable pub list_le? : List A → List A → Bool
  list_le? [] ys = true
  list_le? (x ∷ xs) [] = false
  list_le? (x ∷ xs) (y ∷ ys) =
      let rest = list_le? xs ys in if o.le? x y then (if o.le? y x then rest else true) else false

  pub list_total : (xs ys : List A) → (list_le? xs ys ≡ true) ⊎ (list_le? ys xs ≡ true)
  unfolding list_le?
  list_total [] ys = inl refl
  list_total (x ∷ xs) [] = inr refl
  list_total (x ∷ xs) (y ∷ ys) = ground (arith, o.le?_total x y, list_total xs ys)

  pub list_trans :
      (xs ys zs : List A) → list_le? xs ys ≡ true → list_le? ys zs ≡ true → list_le? xs zs ≡ true
  unfolding list_le?
  list_trans [] ys zs h k = refl
  list_trans (x ∷ xs) [] zs h k = cc
  list_trans (x ∷ xs) (y ∷ ys) [] h k = cc
  list_trans (x ∷ xs) (y ∷ ys) (z ∷ zs) h k =
      ground (arith, o.le?_trans x y z, o.le?_trans z x y, o.le?_trans y z x, list_trans xs ys zs)

  pub list_antisymm : (xs ys : List A) → list_le? xs ys ≡ true → list_le? ys xs ≡ true → xs ≡ ys
  unfolding list_le?
  list_antisymm [] [] h k = refl
  list_antisymm [] (y ∷ ys) h k = cc
  list_antisymm (x ∷ xs) [] h k = cc
  list_antisymm (x ∷ xs) (y ∷ ys) h k = ground (arith, o.le?_antisymm x y, list_antisymm xs ys)

  instance abbrev pub list_ord : Ord (List A)
  list_ord = record {
    le? = list_le?;
    le?_total = list_total;
    le?_trans = list_trans;
    le?_antisymm = list_antisymm;
  }
