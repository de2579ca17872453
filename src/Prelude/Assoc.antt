-- ===== src/Prelude/Assoc.antt =====
-- Hash maps as association lists. The order of the list stands for the order of iteration, which the
-- program may not rely on.
use aya_e_bpf.Prelude.{
  ℕ, ◌≡◌, ◌↔◌, refl, Bool, true, List, [], ◌∷◌, Option, none, some, arith, ◌==◌, ==_iff,
  if◌then◌else◌,
}
use aya_e_bpf.Prelude.Bytes.{Bytes, same, same_iff}

-- `Eq` of a key type.
pub record Eq {ℓ} (K : Type ℓ) : Type ℓ where
  pub beq : K → K → Bool
  pub beq_iff : (a b : K) → (beq a b ≡ true) ↔ (a ≡ b)

instance abbrev pub nat_eq : Eq ℕ
nat_eq = record { beq = ◌==◌; beq_iff = ==_iff }

instance abbrev pub bytes_eq : Eq Bytes
bytes_eq = record { beq = same; beq_iff = same_iff }

module _ {ℓ κ} {K : Type ℓ} {V : Type κ} ⦃e : Eq K⦄ where
  unfoldable pub lookup : K → List (K × V) → Option V
  lookup key [] = none
  lookup key ((j, v) ∷ m) = if e.beq j key then some v else lookup key m

  -- Replaces the value of a key, or adds the key.
  unfoldable pub insert : K → V → List (K × V) → List (K × V)
  insert key v [] = (key, v) ∷ []
  insert key v ((j, w) ∷ m) = if e.beq j key then (j, v) ∷ m else (j, w) ∷ insert key v m

  pub lookup-insert :
      (key j : K) (v : V) (m : List (K × V))
      → lookup j (insert key v m) ≡ (if e.beq key j then some v else lookup j m)
  unfolding lookup insert
  lookup-insert key j v [] = refl
  lookup-insert key j v ((i, w) ∷ m) =
      ground (arith, e.beq_iff i key, e.beq_iff i j, e.beq_iff key j, lookup-insert key j v m)
