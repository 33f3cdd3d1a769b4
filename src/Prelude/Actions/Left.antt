-- ===== src/Prelude/Actions/Left.antt =====
-- What holds after a step, whatever its result.
use mathlib.Core.Path.{◌≡◌, refl, ap, sym, subst}
use mathlib.Core.Logic.{inl, inr}
use mathlib.Core.Bool.{Bool, true, false}
use local_transfer.Prelude.Tests.{if◌then◌else◌, Bool-cases}
use local_transfer.Prelude.Results.{Result, ok, err}
use local_transfer.Prelude.Actions.Steps.{Action, continue, done, fail, map_error, ◌>>=◌}
use local_transfer.Prelude.Actions.Kept.{Keeps}
use local_transfer.Prelude.Actions.Ensured.{Ensures}

-- Whatever the result, `Q` holds of the world that the step leaves.
pub record Leaves {W E A : Type 0} (P : W → Type 0) (m : Action W E A) (Q : W → Type 0)
    : Type 0 where
  pub left : (w : W) → P w → Q (m w).1

module _ {W E A : Type 0} (P : W → Type 0) (Q : W → Type 0) where
  continue-Leaves :
      {B : Type 0} (r : Result E A × W) (f : A → Action W E B)
      → Q r.1
      → ((a : A) → r.0 ≡ ok a → Q (f a r.1).1)
      → Q (continue r f fail).1
  continue-Leaves (ok a, w) f q h = h a refl
  continue-Leaves (err e, w) f q h = q

  pub >>=-Leaves :
      {B : Type 0} (R : A → W → Type 0) (m : Action W E A) (f : A → Action W E B)
      → Ensures P m R
      → Leaves P m Q
      → ((a : A) → Leaves (R a) (f a) Q)
      → Leaves P (m >>= f) Q
  >>=-Leaves R m f e l h = record {
    left = λ w p.
        continue-Leaves (m w) f (l.left w p)
          (λ a r. (h a).left (m w).1 (e.ensured w (m w).1 a p (ap (λ x. (x, (m w).1)) r)));
  }

  pub Keeps-Leaves :
      {V : Type 0} (view : W → V) (m : Action W E A)
      → Keeps view m
      → ((w v : W) → view v ≡ view w → P w → Q v)
      → Leaves P m Q
  Keeps-Leaves view m h t = record { left = λ w p. t w (m w).1 (h.kept w) p }

module _ {W E F A : Type 0} (P : W → Type 0) (Q : W → Type 0) where
  continue_map : (f : E → F) (r : Result E A × W) → (continue r done (λ e. fail (f e))).1 ≡ r.1
  continue_map f (ok a, w) = refl
  continue_map f (err e, w) = refl

  pub map_error-Leaves : (f : E → F) (m : Action W E A) → Leaves P m Q → Leaves P (map_error f m) Q
  map_error-Leaves f m h = record {
    left = λ w p. subst Q (sym (continue_map f (m w))) (h.left w p);
  }

module _ {W E A : Type 0} (P : W → Type 0) (b : Bool) (e : E) (m : Action W E A) where
  -- A guard that fails without a step.
  pub guarded-Leaves :
      (Q : W → Type 0)
      → ((w : W) → P w → Q w)
      → (b ≡ false → Leaves P m Q)
      → Leaves P (if b then fail e else m) Q
  guarded-Leaves Q s h = elim (Bool-cases b) [
    | inl t ↦ rw t (record { left = s })
    | inr f ↦ rw f (h f)
  ]

module _ {W E A : Type 0} (P : W → Type 0) where
  pub Leaves-Ensures : (Q : W → Type 0) (m : Action W E A) → Leaves P m Q → Ensures P m (λ a. Q)
  Leaves-Ensures Q m h = record { ensured = λ w z a p e. subst Q (ap (λ r. r.1) e) (h.left w p) }

  pub if-Leaves :
      (Q : W → Type 0) (b : Bool) (m n : Action W E A)
      → Leaves P m Q
      → Leaves P n Q
      → Leaves P (if b then m else n) Q
  if-Leaves Q true m n hm hn = hm
  if-Leaves Q false m n hm hn = hn
