-- ===== src/Text/Split.antt =====
-- `str::split` on one character, `strip_suffix` and `strip_prefix`, and how lines are put together.
use mathlib.Core.Option
use local_transfer.Prelude.{
  ℕ, ◌≡◌, ◌≢◌, refl, ap, Option, none, some, List, [], ◌∷◌, ◌++◌, ◌==◌, if◌then◌else◌, arith, All,
  append_assoc,
}
use local_transfer.Text.{Text}

abbrev cons_first : ℕ → List Text → List Text
cons_first x [] = (x ∷ []) ∷ []
cons_first x (part ∷ parts) = (x ∷ part) ∷ parts

-- `split(c)`
unfoldable pub split : ℕ → Text → List Text
split c [] = [] ∷ []
split c (x ∷ s) = let rest = split c s in if x == c then [] ∷ rest else cons_first x rest

-- `strip_suffix(c)`
unfoldable pub strip_suffix : ℕ → Text → Option Text
strip_suffix c [] = none
strip_suffix c (x ∷ []) = if x == c then some [] else none
strip_suffix c (x ∷ y ∷ s) = Option.map (◌∷◌ x) (strip_suffix c (y ∷ s))

-- `strip_prefix(text)`
unfoldable pub strip_prefix : Text → Text → Option Text
strip_prefix [] s = some s
strip_prefix (c ∷ p) [] = none
strip_prefix (c ∷ p) (x ∷ s) = let rest = strip_prefix p s in if c == x then rest else none

-- Each line with `c` after it.
unfoldable pub unlines : ℕ → List Text → Text
unlines c [] = []
unlines c (line ∷ lines) = line ++ c ∷ unlines c lines

-- The lines with `c` between them.
unfoldable pub join : ℕ → Text → List Text → Text
join c line [] = line
join c line (next ∷ lines) = line ++ c ∷ join c next lines

pub split-append : (c : ℕ) (s t : Text) → All (λ x. x ≢ c) s → split c (s ++ c ∷ t) ≡ s ∷ split c t
unfolding split
split-append c [] t h = ground arith
split-append c (x ∷ s) t h = ground (arith, h.0, split-append c s t h.1)

pub split_whole : (c : ℕ) (s : Text) → All (λ x. x ≢ c) s → split c s ≡ s ∷ []
unfolding split
split_whole c [] h = refl
split_whole c (x ∷ s) h = ground (arith, h.0, split_whole c s h.1)

-- Lines free of the separator are what the joined text is split into.
pub split-join :
    (c : ℕ) (line : Text) (lines : List Text)
    → All (All (λ x. x ≢ c)) (line ∷ lines)
    → split c (join c line lines) ≡ line ∷ lines
unfolding join
split-join c line [] h = split_whole c line h.0
split-join c line (next ∷ lines) h =
    rw (split-append c line (join c next lines) h.0) (ap (◌∷◌ line) (split-join c next lines h.1))

-- The character that was put at the end is taken off.
pub strip_suffix_last : (c : ℕ) (s : Text) → strip_suffix c (s ++ c ∷ []) ≡ some s
unfolding strip_suffix
strip_suffix_last c [] = ground arith
strip_suffix_last c (x ∷ []) = ground arith
strip_suffix_last c (x ∷ y ∷ s) = rw (strip_suffix_last c (y ∷ s)) refl

unlines-join :
    (c : ℕ) (line : Text) (lines : List Text)
    → unlines c (line ∷ lines) ≡ join c line lines ++ c ∷ []
unfolding unlines join
unlines-join c line [] = refl
unlines-join c line (next ∷ lines) =
    rw (append_assoc line (c ∷ join c next lines) (c ∷ []))
      (ap (λ t. line ++ c ∷ t) (unlines-join c next lines))

-- Without the last separator, the lines are joined.
pub strip_suffix-unlines :
    (c : ℕ) (line : Text) (lines : List Text)
    → strip_suffix c (unlines c (line ∷ lines)) ≡ some (join c line lines)
strip_suffix-unlines c line lines =
    rw (unlines-join c line lines) (strip_suffix_last c (join c line lines))
