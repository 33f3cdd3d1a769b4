-- ===== src/Prelude/Actions/Succeeding.antt =====
-- Steps that succeed where what they need is there.
use mathlib.Core.Path.{◌≡◌, refl, ◌∙◌}
use mathlib.Core.Bool.{Bool, true, false}
use local_transfer.Prelude.Tests.{if◌then◌else◌}
use local_transfer.Prelude.Results.{Result, ok, err}
use local_transfer.Prelude.Actions.Steps.{Action, continue, handle, done, fail, map_error, ◌>>=◌}
use local_transfer.Prelude.Actions.Kept.{Keeps}

-- A result that is no error, with what holds of it.
abbrev pub Brought : {W E A : Type 0} → (A → W → Type 0) → Result E A × W → Type 0
Brought Q (ok a, w) = Q a w
Brought Q (err e, w) = ⊥

-- A step that succeeds when it starts where `P` holds, with `Q` of what it gives.
pub record Brings {W E A : Type 0} (P : W → Type 0) (m : Action W E A) (Q : A → W → Type 0)
    : Type 0 where
  pub brings : (w : W) → P w → Brought Q (m w)

module _ {W E A : Type 0} where
  Brought-continue :
      {F B : Type 0} (R : A → W → Type 0) (Q : B → W → Type 0) (r : Result E A × W)
      (f : A → Action W F B) (g : E → Action W F B)
      → Brought R r
      → ((a : A) → Brings (R a) (f a) Q)
      → Brought Q (continue r f g)
  Brought-continue R Q (ok a, w) f g b h = (h a).brings w b
  Brought-continue R Q (err e, w) f g b h = absurd b

  module _ (P : W → Type 0) where
    pub >>=-Brings :
        {B : Type 0} (R : A → W → Type 0) (Q : B → W → Type 0) (m : Action W E A)
        (f : A → Action W E B)
        → Brings P m R
        → ((a : A) → Brings (R a) (f a) Q)
        → Brings P (m >>= f) Q
    >>=-Brings R Q m f hm hf = record {
      brings = λ w p. Brought-continue R Q (m w) f fail (hm.brings w p) hf;
    }

    pub done-Brings :
        (Q : A → W → Type 0) (a : A) → ((w : W) → P w → Q a w) → Brings P (done {W = W} {E = E} a) Q
    done-Brings Q a h = record { brings = h }

    pub map_error-Brings :
        {F : Type 0} (Q : A → W → Type 0) (f : E → F) (m : Action W E A)
        → Brings P m Q
        → Brings P (map_error f m) Q
    map_error-Brings Q f m h = record {
      brings = λ w p.
          Brought-continue Q Q (m w) done (λ e. fail (f e)) (h.brings w p)
            (λ a. record { brings = λ w q. q });
    }

    pub if-Brings :
        (Q : A → W → Type 0) (b : Bool) (m n : Action W E A)
        → Brings P m Q
        → Brings P n Q
        → Brings P (if b then m else n) Q
    if-Brings Q true m n hm hn = hm
    if-Brings Q false m n hm hn = hn

    -- A look: it succeeds, or fails with an error that is handled.
    pub handle-Brings :
        {F B : Type 0} (R : A → W → Type 0) (S : E → W → Type 0) (Q : B → W → Type 0)
        (m : Action W E A) (f : A → Action W F B) (g : E → Action W F B)
        → ((w v : W) (a : A) → P w → m w ≡ (ok a, v) → R a v)
        → ((w v : W) (e : E) → P w → m w ≡ (err e, v) → S e v)
        → ((a : A) → Brings (R a) (f a) Q)
        → ((e : E) → Brings (S e) (g e) Q)
        → Brings P (handle m f g) Q
    handle-Brings {F} {B} R S Q m f g hr hs hf hg = record {
      brings = λ w p. go (m w) (λ v a e. hr w v a p e) (λ v x e. hs w v x p e);
    }
      where
        go :
            (r : Result E A × W)
            → ((v : W) (a : A) → r ≡ (ok a, v) → R a v)
            → ((v : W) (e : E) → r ≡ (err e, v) → S e v)
            → Brought Q (continue r f g)
        go (ok a, v) h k = (hf a).brings v (h v a refl)
        go (err e, v) h k = (hg e).brings v (k v e refl)

  Brought-weaken :
      (Q Q2 : A → W → Type 0) (r : Result E A × W)
      → ((a : A) (w : W) → Q a w → Q2 a w)
      → Brought Q r
      → Brought Q2 r
  Brought-weaken Q Q2 (ok a, w) h b = h a w b
  Brought-weaken Q Q2 (err e, w) h b = b

  pub weaken-Brings :
      (P : W → Type 0) (Q Q2 : A → W → Type 0) (m : Action W E A)
      → ((a : A) (w : W) → Q a w → Q2 a w)
      → Brings P m Q
      → Brings P m Q2
  weaken-Brings P Q Q2 m h hm = record {
    brings = λ w p. Brought-weaken Q Q2 (m w) h (hm.brings w p);
  }

  Brought-kept :
      {V : Type 0} (view : W → V) (x : V) (Q : A → W → Type 0) (r : Result E A × W)
      → Brought Q r
      → view r.1 ≡ x
      → Brought (λ a w. Q a w × (view w ≡ x)) r
  Brought-kept view x Q (ok a, w) b e = (b, e)
  Brought-kept view x Q (err e, w) b h = b

  -- What a step keeps may be added to what it needs and to what it brings.
  pub kept-Brings :
      {V : Type 0} (view : W → V) (x : V) (P : W → Type 0) (Q : A → W → Type 0) (m : Action W E A)
      → Keeps view m
      → Brings P m Q
      → Brings (λ w. P w × (view w ≡ x)) m (λ a w. Q a w × (view w ≡ x))
  kept-Brings view x P Q m k h = record {
    brings = λ w (p, e). Brought-kept view x Q (m w) (h.brings w p) (k.kept w ∙ e);
  }

  -- What is brought is there.
  pub Brought-result :
      (Q : A → W → Type 0) (r : Result E A × W)
      → Brought Q r
      → (a : A) × (r ≡ (ok a, r.1)) × Q a r.1
  Brought-result Q (ok a, w) b = (a, refl, b)
  Brought-result Q (err e, w) b = absurd b
