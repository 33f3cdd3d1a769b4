-- ===== src/Prelude/Actions/Kept.antt =====
-- Steps that leave a view of the world as it is.
use mathlib.Core.Path.{◌≡◌, refl, sym, ◌∙◌, subst}
use mathlib.Core.Bool.{Bool, true, false}
use local_transfer.Prelude.Tests.{if◌then◌else◌}
use local_transfer.Prelude.Results.{Result, ok, err}
use local_transfer.Prelude.Actions.Steps.{
  Action, continue, handle, done, fail, lift, map_error, ◌>>=◌,
}

-- A step after which a view of the world is the same, whatever its result.
pub record Keeps {W E A V : Type 0} (view : W → V) (m : Action W E A) : Type 0 where
  pub kept : (w : W) → view (m w).1 ≡ view w

module _ {W E F A B V : Type 0} (view : W → V) where
  continue-Keeps :
      (r : Result E A × W) (f : A → Action W F B) (g : E → Action W F B)
      → ((a : A) → Keeps view (f a))
      → ((e : E) → Keeps view (g e))
      → view (continue r f g).1 ≡ view r.1
  continue-Keeps (ok a, w) f g hf hg = (hf a).kept w
  continue-Keeps (err e, w) f g hf hg = (hg e).kept w

  -- Steps that keep the view, one after the other, keep it.
  pub handle-Keeps :
      (m : Action W E A) (f : A → Action W F B) (g : E → Action W F B)
      → Keeps view m
      → ((a : A) → Keeps view (f a))
      → ((e : E) → Keeps view (g e))
      → Keeps view (handle m f g)
  handle-Keeps m f g hm hf hg = record { kept = λ w. continue-Keeps (m w) f g hf hg ∙ hm.kept w }

module _ {W E A V : Type 0} (view : W → V) where
  pub done-Keeps : (a : A) → Keeps view (done {W = W} {E = E} a)
  done-Keeps a = record { kept = λ w. refl }

  pub fail-Keeps : (e : E) → Keeps view (fail {W = W} {A = A} e)
  fail-Keeps e = record { kept = λ w. refl }

  pub lift-Keeps : (r : Result E A) → Keeps view (lift {W = W} r)
  lift-Keeps r = record { kept = λ w. refl }

  pub map_error-Keeps :
      {F : Type 0} (f : E → F) (m : Action W E A) → Keeps view m → Keeps view (map_error f m)
  map_error-Keeps f m h =
      handle-Keeps view m done (λ e. fail (f e)) h (λ a. record { kept = λ w. refl })
        (λ e. record { kept = λ w. refl })

  pub >>=-Keeps :
      {B : Type 0} (m : Action W E A) (f : A → Action W E B)
      → Keeps view m
      → ((a : A) → Keeps view (f a))
      → Keeps view (m >>= f)
  >>=-Keeps m f hm hf = handle-Keeps view m f fail hm hf (λ e. record { kept = λ w. refl })

-- A step that keeps the view when it starts where `P` holds of it.
pub record KeepsFrom {W E A V : Type 0} (P : V → Type 0) (view : W → V) (m : Action W E A)
    : Type 0 where
  pub kept_from : (w : W) → P (view w) → view (m w).1 ≡ view w

module _ {W E A V : Type 0} (P : V → Type 0) (view : W → V) where
  pub Keeps-From : (m : Action W E A) → Keeps view m → KeepsFrom P view m
  Keeps-From m h = record { kept_from = λ w p. h.kept w }

module _ {W E F A B V : Type 0} (P : V → Type 0) (view : W → V) where
  continue-From :
      (r : Result E A × W) (f : A → Action W F B) (g : E → Action W F B)
      → P (view r.1)
      → ((a : A) → KeepsFrom P view (f a))
      → ((e : E) → KeepsFrom P view (g e))
      → view (continue r f g).1 ≡ view r.1
  continue-From (ok a, w) f g p hf hg = (hf a).kept_from w p
  continue-From (err e, w) f g p hf hg = (hg e).kept_from w p

  pub handle-From :
      (m : Action W E A) (f : A → Action W F B) (g : E → Action W F B)
      → KeepsFrom P view m
      → ((a : A) → KeepsFrom P view (f a))
      → ((e : E) → KeepsFrom P view (g e))
      → KeepsFrom P view (handle m f g)
  handle-From m f g hm hf hg = record {
    kept_from = λ w p.
        let same = hm.kept_from w p in continue-From (m w) f g (subst P (sym same) p) hf hg ∙ same;
  }

module _ {W E A B V : Type 0} (P : V → Type 0) (view : W → V) where
  pub >>=-From :
      (m : Action W E A) (f : A → Action W E B)
      → KeepsFrom P view m
      → ((a : A) → KeepsFrom P view (f a))
      → KeepsFrom P view (m >>= f)
  >>=-From m f hm hf =
      handle-From P view m f fail hm hf (λ e. Keeps-From P view _ (fail-Keeps view e))

pub if-Keeps :
    {W E A V : Type 0} (view : W → V) (b : Bool) (m n : Action W E A)
    → Keeps view m
    → Keeps view n
    → Keeps view (if b then m else n)
if-Keeps view true m n hm hn = hm
if-Keeps view false m n hm hn = hn
