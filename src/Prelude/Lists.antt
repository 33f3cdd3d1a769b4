-- ===== src/Prelude/Lists.antt =====
-- Lists measured and indexed by native numbers, under the library's names.
use Prim.Native.Nat.{ℕ, zero, suc, ◌+◌, ◌-◌, min}
use mathlib.Core.Path.{◌≡◌, refl, ap, sym, subst}
use mathlib.Core.Logic.{◌⊎◌, inl, inr}
use mathlib.Core.Bool.{Bool, true, false, ◌&&◌, ◌||◌}
use mathlib.Core.List.{Memᴰ, List, [], ◌∷◌, ◌++◌, map}
use native.Mathlib.Omega.{arith}

module _ {ℓ} {A : Type ℓ} where
  abbrev pub length : List A → ℕ
  length [] = 0
  length (x ∷ xs) = suc (length xs)

  abbrev pub get_or : List A → ℕ → A → A
  get_or [] i d = d
  get_or (x ∷ xs) zero d = x
  get_or (x ∷ xs) (suc i) d = get_or xs i d

  abbrev pub take : ℕ → List A → List A
  take zero xs = []
  take (suc n) [] = []
  take (suc n) (x ∷ xs) = x ∷ take n xs

  abbrev pub drop : ℕ → List A → List A
  drop zero xs = xs
  drop (suc n) [] = []
  drop (suc n) (x ∷ xs) = drop n xs

  -- `iter().any(p)` and `iter().all(p)`
  abbrev pub any : (A → Bool) → List A → Bool
  any p [] = false
  any p (x ∷ xs) = p x || any p xs

  abbrev pub all : (A → Bool) → List A → Bool
  all p [] = true
  all p (x ∷ xs) = p x && all p xs

  abbrev pub All {κ} : (A → Type κ) → List A → Type κ
  All P [] = Unit
  All P (x ∷ xs) = P x × All P xs

module _ {ℓ} {A : Type ℓ} where
  pub length-append : (xs ys : List A) → length (xs ++ ys) ≡ length xs + length ys
  length-append [] ys = omega arith
  length-append (x ∷ xs) ys = omega (arith, length-append xs ys)

  pub length-map {κ} : {B : Type κ} (xs : List A) (f : A → B) → length (map f xs) ≡ length xs
  length-map [] f = refl
  length-map (x ∷ xs) f = ap suc (length-map xs f)

  pub take-append-drop : (n : ℕ) (xs : List A) → take n xs ++ drop n xs ≡ xs
  take-append-drop zero xs = refl
  take-append-drop (suc n) [] = refl
  take-append-drop (suc n) (x ∷ xs) = ap (◌∷◌ x) (take-append-drop n xs)

  pub length-take : (n : ℕ) (xs : List A) → length (take n xs) ≡ min n (length xs)
  length-take zero xs = omega arith
  length-take (suc n) [] = omega arith
  length-take (suc n) (x ∷ xs) = omega (arith, length-take n xs)

  pub length-drop : (n : ℕ) (xs : List A) → length (drop n xs) ≡ length xs - n
  length-drop zero xs = omega arith
  length-drop (suc n) [] = omega arith
  length-drop (suc n) (x ∷ xs) = omega (arith, length-drop n xs)

  -- A prefix of known length is what `take` gives back.
  pub take-append : (n : ℕ) (xs ys : List A) → length xs ≡ n → take n (xs ++ ys) ≡ xs
  take-append zero [] ys h = refl
  take-append zero (x ∷ xs) ys h = absurd (omega arith)
  take-append (suc n) [] ys h = absurd (omega arith)
  take-append (suc n) (x ∷ xs) ys h = ap (◌∷◌ x) (take-append n xs ys (omega arith))

  pub take_all : (n : ℕ) (xs : List A) → length xs ≡ n → take n xs ≡ xs
  take_all zero [] h = refl
  take_all zero (x ∷ xs) h = absurd (omega arith)
  take_all (suc n) [] h = absurd (omega arith)
  take_all (suc n) (x ∷ xs) h = ap (◌∷◌ x) (take_all n xs (omega arith))

  pub get_or-append :
      (n : ℕ) (xs : List A) (y : A) (ys : List A) (d : A)
      → length xs ≡ n
      → get_or (xs ++ y ∷ ys) n d ≡ y
  get_or-append zero [] y ys d h = refl
  get_or-append zero (x ∷ xs) y ys d h = absurd (omega arith)
  get_or-append (suc n) [] y ys d h = absurd (omega arith)
  get_or-append (suc n) (x ∷ xs) y ys d h = get_or-append n xs y ys d (omega arith)

  -- A list one longer than its prefix ends in the element at that index.
  pub take-get_or :
      (n : ℕ) (xs : List A) (d : A) → length xs ≡ suc n → take n xs ++ get_or xs n d ∷ [] ≡ xs
  take-get_or n [] d h = absurd (omega arith)
  take-get_or zero (x ∷ []) d h = refl
  take-get_or zero (x ∷ y ∷ xs) d h = absurd (omega arith)
  take-get_or (suc n) (x ∷ xs) d h = ap (◌∷◌ x) (take-get_or n xs d (omega arith))

  pub All-append {κ} : (P : A → Type κ) (xs ys : List A) → All P xs → All P ys → All P (xs ++ ys)
  All-append P [] ys hx hy = hy
  All-append P (x ∷ xs) ys hx hy = (hx.0, All-append P xs ys hx.1 hy)

pub All-map {ℓ κ μ} :
    {A : Type ℓ} {P : A → Type κ} {Q : A → Type μ} (xs : List A)
    → ((x : A) → P x → Q x)
    → All P xs
    → All Q xs
All-map [] f h = tt
All-map (x ∷ xs) f h = (f x h.0, All-map xs f h.1)

pub any-append {ℓ} :
    {A : Type ℓ} (p : A → Bool) (s t : List A) → any p (s ++ t) ≡ (any p s || any p t)
any-append p [] t = refl
any-append p (c ∷ s) t = ground (arith, any-append p s t)

-- The element at an index replaced by its image; nothing where there is none.
abbrev pub modify {ℓ} : {A : Type ℓ} → ℕ → (A → A) → List A → List A
modify n f [] = []
modify zero f (x ∷ xs) = f x ∷ xs
modify (suc n) f (x ∷ xs) = x ∷ modify n f xs

pub All-modify {ℓ κ} :
    {A : Type ℓ} (P : A → Type κ) (n : ℕ) (f : A → A) (xs : List A)
    → ((x : A) → P x → P (f x))
    → All P xs
    → All P (modify n f xs)
All-modify P n f [] h a = tt
All-modify P zero f (x ∷ xs) h a = (h x a.0, a.1)
All-modify P (suc n) f (x ∷ xs) h a = (a.0, All-modify P n f xs h a.1)

pub All-mem {ℓ κ} : {A : Type ℓ} (P : A → Type κ) {x : A} (xs : List A) → Memᴰ x xs → All P xs → P x
All-mem P [] m a = elim m [ ]
All-mem P (y ∷ xs) (Memᴰ.head e) a = subst P (sym e) a.0
All-mem P (y ∷ xs) (Memᴰ.tail m) a = All-mem P xs m a.1

-- An element is still there, or its image is.
pub mem-modify {ℓ} :
    {A : Type ℓ} {x : A} (n : ℕ) (f : A → A) (xs : List A)
    → Memᴰ x xs
    → (y : A) × Memᴰ y (modify n f xs) × ((y ≡ x) ⊎ (y ≡ f x))
mem-modify n f [] m = elim m [ ]
mem-modify {x = x} zero f (z ∷ xs) (Memᴰ.head e) = (f x, Memᴰ.head (ap f e), inr refl)
mem-modify {x = x} zero f (z ∷ xs) (Memᴰ.tail m) = (x, Memᴰ.tail m, inl refl)
mem-modify {x = x} (suc n) f (z ∷ xs) (Memᴰ.head e) = (x, Memᴰ.head e, inl refl)
mem-modify (suc n) f (z ∷ xs) (Memᴰ.tail m) =
    let (y, k, h) = mem-modify n f xs m in (y, Memᴰ.tail k, h)
