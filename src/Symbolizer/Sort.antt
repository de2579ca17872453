-- ===== src/Symbolizer/Sort.antt =====
-- `sort_by_key`: the stable sort, smallest key first (aya-test/src/symbolizer.rs).
use mathlib.Core.List.{Perm}
use mathlib.Core.List.Perm
use aya_e_bpf.Prelude.{
  ℕ, ◌≤◌, List, [], ◌∷◌, map, arith, All, All-map, ltb, if◌then◌else◌, Bool-cases, inl, inr,
}
use aya_e_bpf.Symbolizer.Search.{IsSorted}

module _ {ℓ} {A : Type ℓ} (key : A → ℕ) where
  -- Puts an entry before the first one whose key is not smaller.
  unfoldable pub insert_asc : A → List A → List A
  insert_asc x [] = x ∷ []
  insert_asc x (y ∷ ys) = if ltb (key y) (key x) then y ∷ insert_asc x ys else x ∷ y ∷ ys

  unfoldable pub sort_asc : List A → List A
  sort_asc [] = []
  sort_asc (x ∷ xs) = insert_asc x (sort_asc xs)

  insert_asc-perm : (x : A) (ys : List A) → Perm (insert_asc x ys) (x ∷ ys)
  unfolding insert_asc
  insert_asc-perm x [] = Perm.refl (x ∷ [])
  insert_asc-perm x (y ∷ ys) = elim (Bool-cases (ltb (key y) (key x))) [
    | inl smaller ↦ rw smaller (Perm.trans (Perm.cons y (insert_asc-perm x ys)) (Perm.swap x y ys))
    | inr larger ↦ rw larger (Perm.refl (x ∷ y ∷ ys))
  ]

  pub sort_asc-perm : (xs : List A) → Perm (sort_asc xs) xs
  unfolding sort_asc
  sort_asc-perm [] = Perm.refl []
  sort_asc-perm (x ∷ xs) =
      Perm.trans (insert_asc-perm x (sort_asc xs)) (Perm.cons x (sort_asc-perm xs))

  insert_asc-All :
      (P : ℕ → Type 0) (x : A) (ys : List A)
      → P (key x)
      → All P (map key ys)
      → All P (map key (insert_asc x ys))
  unfolding insert_asc
  insert_asc-All P x [] hx h = (hx, tt)
  insert_asc-All P x (y ∷ ys) hx (hy, h) = elim (Bool-cases (ltb (key y) (key x))) [
    | inl smaller ↦ rw smaller (hy, insert_asc-All P x ys hx h)
    | inr larger ↦ rw larger (hx, (hy, h))
  ]

  insert_asc-IsSorted :
      (x : A) (ys : List A) → IsSorted (map key ys) → IsSorted (map key (insert_asc x ys))
  unfolding insert_asc
  insert_asc-IsSorted x [] h = (tt, tt)
  insert_asc-IsSorted x (y ∷ ys) (above, h) = elim (Bool-cases (ltb (key y) (key x))) [
    | inl smaller ↦
        rw smaller
          (insert_asc-All (λ a. key y ≤ a) x ys (ground arith) above, insert_asc-IsSorted x ys h)
    | inr larger ↦
        rw larger ((ground arith, All-map (λ a ha. ground arith) (map key ys) above), (above, h))
  ]

  pub sort_asc-IsSorted : (xs : List A) → IsSorted (map key (sort_asc xs))
  unfolding sort_asc
  sort_asc-IsSorted [] = tt
  sort_asc-IsSorted (x ∷ xs) = insert_asc-IsSorted x (sort_asc xs) (sort_asc-IsSorted xs)
