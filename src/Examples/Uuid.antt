-- ===== src/Examples/Uuid.antt =====
-- An instance of `UuidBytes`: sixteen bytes, with all zeros for what is not sixteen bytes long.
use mathlib.Core.HLevel.{Σ_prop_path}
use native.Mathlib.Nat.{ℕ_set}
use local_transfer.Prelude.{◌≡◌, refl, ap, [], ◌∷◌, Bytes, length, ℕ_discrete}
use local_transfer.Text.{Text-discrete}
use local_transfer.Pairing.Message.{UuidBytes}

abbrev pub Sixteen : Type 0
Sixteen = (b : Bytes) × (length b ≡ 16)

abbrev pub zeros : Sixteen
zeros = (0 ∷ 0 ∷ 0 ∷ 0 ∷ 0 ∷ 0 ∷ 0 ∷ 0 ∷ 0 ∷ 0 ∷ 0 ∷ 0 ∷ 0 ∷ 0 ∷ 0 ∷ 0 ∷ [], refl)

abbrev pub sixteen_of : (b : Bytes) → Dec (length b ≡ 16) → Sixteen
sixteen_of b (yes e) = (b, e)
sixteen_of b (no n) = zeros

pub bytes_path : (a b : Sixteen) → a.0 ≡ b.0 → a ≡ b
bytes_path a b e = Σ_prop_path (λ b. ℕ_set (length b) 16) e

pub sixteen_of-exact :
    (b : Bytes) (d : Dec (length b ≡ 16)) → length b ≡ 16 → (sixteen_of b d).0 ≡ b
sixteen_of-exact b (yes e) h = refl
sixteen_of-exact b (no n) h = absurd (n h)

unfoldable pub Sixteen-discrete : Discrete Sixteen
Sixteen-discrete a b = elim (Text-discrete a.0 b.0) [
  | yes e ↦ yes (bytes_path a b e)
  | no n ↦ no (λ e. n (ap (λ s. s.0) e))
]

instance abbrev pub sixteen_bytes : UuidBytes Sixteen
sixteen_bytes = record {
  from_bytes = λ b. sixteen_of b (ℕ_discrete (length b) 16);
  as_bytes = λ i. i.0;
  eq_id = Sixteen-discrete;
  length-as_bytes = λ i. i.1;
  from_bytes-as_bytes = λ i.
      bytes_path (sixteen_of i.0 (ℕ_discrete (length i.0) 16)) i
        (sixteen_of-exact i.0 (ℕ_discrete (length i.0) 16) i.1);
  as_bytes-from_bytes = λ b h. sixteen_of-exact b (ℕ_discrete (length b) 16) h;
}

-- The attempt of the examples.
abbrev pub attempt : Sixteen
attempt = (1 ∷ 2 ∷ 3 ∷ 4 ∷ 5 ∷ 6 ∷ 7 ∷ 8 ∷ 9 ∷ 10 ∷ 11 ∷ 12 ∷ 13 ∷ 14 ∷ 15 ∷ 16 ∷ [], refl)
