-- ===== src/Persistence/Present.antt =====
-- A file that is there is never replaced by `persist_noclobber`.
use local_transfer.Prelude.{◌≡◌, ◌≢◌, refl, Result, ok, err}
use local_transfer.Prelude.Actions.{Action, KeepsFrom}
use local_transfer.Text.{Text}
use local_transfer.FileSystem.{
  FileSystem, Documented, Entry, missing, IoError, not_found, already_exists, would_block, other,
}
use local_transfer.Persistence.{unless_missing, unless_exists}

-- Something stands at the path.
abbrev pub Present : Entry → Type 0
Present e = e ≢ missing

pub unless_missing-From :
    {W E A : Type 0} (view : W → Entry) (m : Action W E A) (f : IoError → Action W E A)
    (e : IoError)
    → KeepsFrom Present view m
    → ((e : IoError) → KeepsFrom Present view (f e))
    → KeepsFrom Present view (unless_missing m f e)
unless_missing-From view m f not_found hm hf = hm
unless_missing-From view m f already_exists hm hf = hf already_exists
unless_missing-From view m f would_block hm hf = hf would_block
unless_missing-From view m f (other n) hm hf = hf (other n)

pub unless_exists-From :
    {W E A : Type 0} (view : W → Entry) (m : Action W E A) (f : IoError → Action W E A)
    (e : IoError)
    → KeepsFrom Present view m
    → ((e : IoError) → KeepsFrom Present view (f e))
    → KeepsFrom Present view (unless_exists m f e)
unless_exists-From view m f not_found hm hf = hf not_found
unless_exists-From view m f already_exists hm hf = hm
unless_exists-From view m f would_block hm hf = hf would_block
unless_exists-From view m f (other n) hm hf = hf (other n)

module _ {W : Type 0} (fs : FileSystem W) (path : Text) (docs : Documented fs path) where
  noclobber_outcome :
      (t : fs.Temporary) (w v : W) (r : Result IoError fs.File)
      → fs.persist_noclobber t path w ≡ (r, v)
      → Present (docs.entry w)
      → docs.entry v ≡ docs.entry w
  noclobber_outcome t w v (ok f) e p = absurd (p (docs.persist_noclobber-ok t f w v e).0)
  noclobber_outcome t w v (err x) e p = docs.persist_noclobber-err t x w v e

  pub persist_noclobber-From :
      (t : fs.Temporary) → KeepsFrom Present docs.entry (fs.persist_noclobber t path)
  persist_noclobber-From t = record { kept_from = λ w p. noclobber_outcome t w _ _ refl p }
