-- ===== src/Prelude/Actions/Steps.antt =====
-- Fallible steps on a world that they change: `Result` with the world threaded through.
use mathlib.Core.Logic.{◌≢◌}
use local_transfer.Prelude.Results.{Result, ok, err}

abbrev pub Action : Type 0 → Type 0 → Type 0 → Type 0
Action W E A = W → Result E A × W

module _ {W E A B : Type 0} where
  abbrev pub continue :
      {F : Type 0} → Result E A × W → (A → Action W F B) → (E → Action W F B) → Result F B × W
  continue (ok a, w) f g = f a w
  continue (err e, w) f g = g e w

  -- `match` on the result of a step.
  abbrev pub handle :
      {F : Type 0} → Action W E A → (A → Action W F B) → (E → Action W F B) → Action W F B
  handle m f g w = continue (m w) f g

module _ {W E : Type 0} where
  abbrev pub done : {A : Type 0} → A → Action W E A
  done a w = (ok a, w)

  abbrev pub fail : {A : Type 0} → E → Action W E A
  fail e w = (err e, w)

infixl 5 ◌>>=◌ ◌>>◌
abbrev pub ◌>>=◌ : {W E A B : Type 0} → Action W E A → (A → Action W E B) → Action W E B
m >>= f = handle m f fail

abbrev pub ◌>>◌ : {W E B : Type 0} → Action W E (Unit {0}) → Action W E B → Action W E B
m >> k = m >>= λ u. k

-- `map_err` on a step.
abbrev pub map_error : {W E F A : Type 0} → (E → F) → Action W E A → Action W F A
map_error f m = handle m done (λ e. fail (f e))

-- `?` on a value that is there already.
abbrev pub lift : {W E A : Type 0} → Result E A → Action W E A
lift r w = (r, w)

pub err_ok : {E A : Type 0} (e : E) (a : A) → err e ≢ ok a
err_ok e a h = cc
