-- ===== src/Prelude/Actions/Ensured.antt =====
-- What holds after a step that succeeded.
use mathlib.Core.Path.{◌≡◌, refl, ap, sym, ◌∙◌, subst}
use mathlib.Core.Logic.{◌≢◌, inl, inr}
use mathlib.Core.Bool.{Bool, true, false}
use local_transfer.Prelude.Tests.{if◌then◌else◌, Bool-cases}
use local_transfer.Prelude.Results.{Result, ok, err}
use local_transfer.Prelude.Actions.Steps.{
  Action, continue, handle, done, fail, map_error, ◌>>=◌, err_ok,
}
use local_transfer.Prelude.Actions.Kept.{Keeps}

module _ {W E F A B : Type 0} where
  continue-inv :
      (r : Result E A × W) (f : A → Action W F B) (g : E → Action W F B) (b : B) (w : W)
      → ((e : E) (v : W) → (g e v).0 ≢ ok b)
      → continue r f g ≡ (ok b, w)
      → (a : A) × (v : W) × (r ≡ (ok a, v)) × (f a v ≡ (ok b, w))
  continue-inv (ok a, v) f g b w n h = (a, v, refl, h)
  continue-inv (err e, v) f g b w n h = absurd (n e v (ap (λ p. p.0) h))

  -- What a first step that succeeded left to the second.
  pub handle-ok :
      (m : Action W E A) (f : A → Action W F B) (g : E → Action W F B) (b : B) (w z : W)
      → ((e : E) (v : W) → (g e v).0 ≢ ok b)
      → handle m f g w ≡ (ok b, z)
      → (a : A) × (v : W) × (m w ≡ (ok a, v)) × (f a v ≡ (ok b, z))
  handle-ok m f g b w z n h = continue-inv (m w) f g b z n h

same_ok :
    {W E F A : Type 0} (c a : A) (v z : W)
    → done {W = W} {E = F} c v ≡ (ok a, z)
    → done {W = W} {E = E} c v ≡ (ok a, z)
same_ok c a v z h = cc

module _ {W E A : Type 0} where
  pub >>=-succeeded :
      {B : Type 0} (m : Action W E A) (f : A → Action W E B) (b : B) (w z : W)
      → (m >>= f) w ≡ (ok b, z)
      → (a : A) × (v : W) × (m w ≡ (ok a, v)) × (f a v ≡ (ok b, z))
  >>=-succeeded m f b w z h = handle-ok m f fail b w z (λ e v n. err_ok e b n) h

  pub map_error-succeeded :
      {F : Type 0} (f : E → F) (m : Action W E A) (a : A) (w z : W)
      → map_error f m w ≡ (ok a, z)
      → m w ≡ (ok a, z)
  map_error-succeeded f m a w z h =
      let (c, v, e, d) = handle-ok m done (λ e. fail (f e)) a w z (λ e v n. err_ok (f e) a n) h in
      e ∙ same_ok c a v z d

-- If the step starts where `P` holds and succeeds, `Q` holds of its result.
pub record Ensures {W E A : Type 0} (P : W → Type 0) (m : Action W E A) (Q : A → W → Type 0)
    : Type 0 where
  pub ensured : (w z : W) (a : A) → P w → m w ≡ (ok a, z) → Q a z

ok_pair :
    {W E A : Type 0} (a b : A) (w z : W)
    → done {W = W} {E = E} a w ≡ (ok b, z)
    → ◌≡◌ {A = A × W} (a, w) (b, z)
ok_pair a b w z h = cc

module _ {W E A : Type 0} (P : W → Type 0) where
  pub >>=-Ensures :
      {B : Type 0} (R : A → W → Type 0) (Q : B → W → Type 0) (m : Action W E A)
      (f : A → Action W E B)
      → Ensures P m R
      → ((a : A) → Ensures (R a) (f a) Q)
      → Ensures P (m >>= f) Q
  >>=-Ensures R Q m f hm hf = record {
    ensured = λ w z b p h.
        let (a, v, e, d) = >>=-succeeded m f b w z h in
        (hf a).ensured v z b ((hm.ensured w v a p e)) d;
  }

  pub map_error-Ensures :
      {F : Type 0} (Q : A → W → Type 0) (f : E → F) (m : Action W E A)
      → Ensures P m Q
      → Ensures P (map_error f m) Q
  map_error-Ensures Q f m h = record {
    ensured = λ w z a p e. h.ensured w z a p (map_error-succeeded f m a w z e);
  }

  pub done-Ensures :
      (Q : A → W → Type 0) (a : A) → ((w : W) → P w → Q a w) → Ensures P (done {W = W} {E = E} a) Q
  done-Ensures Q a h = record {
    ensured = λ w z b p e. subst (λ r. Q r.0 r.1) (ok_pair a b w z e) (h w p);
  }

-- What a step keeps, it had before.
pub Keeps-Ensures :
    {W E A V : Type 0} (view : W → V) (x : V) (m : Action W E A)
    → Keeps view m
    → Ensures (λ w. view w ≡ x) m (λ a w. view w ≡ x)
Keeps-Ensures view x m h = record {
  ensured = λ w z a p e. sym (ap (λ r. view r.1) e) ∙ h.kept w ∙ p;
}

module _ {W E A : Type 0} (P : W → Type 0) (b : Bool) (e : E) (m : Action W E A) where
  pub guarded-Ensures :
      (Q : A → W → Type 0) → (b ≡ false → Ensures P m Q) → Ensures P (if b then fail e else m) Q
  guarded-Ensures Q h = elim (Bool-cases b) [
    | inl t ↦ rw t (record { ensured = λ w z a p h. absurd (err_ok e a (ap (λ r. r.0) h)) })
    | inr f ↦ rw f (h f)
  ]

module _ {W E A : Type 0} (P : W → Type 0) where
  pub if-Ensures :
      (Q : A → W → Type 0) (b : Bool) (m n : Action W E A)
      → Ensures P m Q
      → Ensures P n Q
      → Ensures P (if b then m else n) Q
  if-Ensures Q true m n hm hn = hm
  if-Ensures Q false m n hm hn = hn
