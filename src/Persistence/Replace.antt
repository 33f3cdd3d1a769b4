-- ===== src/Persistence/Replace.antt =====
-- The file at a path is replaced as a whole: a temporary file takes the contents, then the path.
use local_transfer.Prelude.{◌≡◌, ◌⊎◌, inl, inr, refl, ap, ◌∙◌, Bool, Bytes, Result, ok, err}
use local_transfer.Prelude.Actions.{Leaves, Ensures, Keeps-Ensures}
use local_transfer.Text.{Text}
use local_transfer.FileSystem.{FileSystem, Documented, Entry, regular, IoError}
use local_transfer.Persistence.{create_synced_temporary}
use local_transfer.Persistence.Keeps.{
  create_synced_temporary-Keeps, create_synced_temporary-Holds, Holds,
}

module _ {W : Type 0} (fs : FileSystem W) (path : Text) (docs : Documented fs path) (old : Entry)
    (bytes : Bytes) where
  -- The temporary file holds the contents, and the file at the path is the old one.
  abbrev pub Ready : fs.Temporary → W → Type 0
  Ready t w = Holds fs path docs bytes t w × (docs.entry w ≡ old)

  pub create_synced_temporary-Ready :
      (h : Bool) → Ensures (λ w. docs.entry w ≡ old) (create_synced_temporary fs path bytes h) Ready
  create_synced_temporary-Ready h = record {
    ensured = λ w z t p e. (
      (create_synced_temporary-Holds fs path docs bytes h).ensured w z t tt e,
      (Keeps-Ensures docs.entry old _ (create_synced_temporary-Keeps fs path docs bytes h)).ensured
          w z t p e,
    );
  }

  -- The rename puts the temporary file there, all of it.
  pub persist-Ready :
      (t : fs.Temporary)
      → Ensures (Ready t) (fs.persist t path) (λ f w. docs.entry w ≡ regular bytes)
  persist-Ready t = record { ensured = λ w z f p e. docs.persist-ok t f w z e ∙ ap regular p.0 }

  abbrev Whole : W → Type 0
  Whole w = (docs.entry w ≡ old) ⊎ (docs.entry w ≡ regular bytes)

  persist_outcome :
      (t : fs.Temporary) (w v : W) (r : Result IoError fs.File)
      → fs.persist t path w ≡ (r, v)
      → Ready t w
      → Whole v
  persist_outcome t w v (ok f) e p = inr ((persist-Ready t).ensured w v f p e)
  persist_outcome t w v (err x) e p = inl (docs.persist-err t x w v e ∙ p.1)

  pub persist-Whole : (t : fs.Temporary) → Leaves (Ready t) (fs.persist t path) Whole
  persist-Whole t = record { left = λ w p. persist_outcome t w _ _ refl p }
