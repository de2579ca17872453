-- ===== src/Stats/Sort.antt =====
-- `sort_by(|a, b| key(b).cmp(&key(a)))`: the stable sort, largest key first
-- (aya-test/src/stats.rs).
use mathlib.Core.List.{Perm}
use mathlib.Core.List.Perm
use aya_e_bpf.Prelude.{
  ℕ, zero, suc, ◌≤◌, take, drop, List, [], ◌∷◌, arith, All, All-map, ltb, if◌then◌else◌, Bool-cases,
  inl, inr,
}

All-drop {ℓ κ} : {A : Type ℓ} (P : A → Type κ) (n : ℕ) (xs : List A) → All P xs → All P (drop n xs)
All-drop P zero xs h = h
All-drop P (suc n) [] h = tt
All-drop P (suc n) (x ∷ xs) (hx, h) = All-drop P n xs h

module _ {ℓ} {A : Type ℓ} (key : A → ℕ) where
  -- Puts an entry before the first one that has a smaller key or the same.
  unfoldable pub insert_desc : A → List A → List A
  insert_desc x [] = x ∷ []
  insert_desc x (y ∷ ys) = if ltb (key x) (key y) then y ∷ insert_desc x ys else x ∷ y ∷ ys

  unfoldable pub sort_desc : List A → List A
  sort_desc [] = []
  sort_desc (x ∷ xs) = insert_desc x (sort_desc xs)

  insert_desc-perm : (x : A) (ys : List A) → Perm (insert_desc x ys) (x ∷ ys)
  unfolding insert_desc
  insert_desc-perm x [] = Perm.refl (x ∷ [])
  insert_desc-perm x (y ∷ ys) = elim (Bool-cases (ltb (key x) (key y))) [
    | inl larger ↦ rw larger (Perm.trans (Perm.cons y (insert_desc-perm x ys)) (Perm.swap x y ys))
    | inr smaller ↦ rw smaller (Perm.refl (x ∷ y ∷ ys))
  ]

  -- Sorting loses and adds nothing.
  pub sort_desc-perm : (xs : List A) → Perm (sort_desc xs) xs
  unfolding sort_desc
  sort_desc-perm [] = Perm.refl []
  sort_desc-perm (x ∷ xs) =
      Perm.trans (insert_desc-perm x (sort_desc xs)) (Perm.cons x (sort_desc-perm xs))

  -- Every entry's key is at least that of each entry behind it.
  abbrev pub IsDescending : List A → Type 0
  IsDescending [] = Unit
  IsDescending (x ∷ xs) = All (λ y. key y ≤ key x) xs × IsDescending xs

  insert_desc-All :
      (P : A → Type 0) (x : A) (ys : List A) → P x → All P ys → All P (insert_desc x ys)
  unfolding insert_desc
  insert_desc-All P x [] px h = (px, tt)
  insert_desc-All P x (y ∷ ys) px (py, h) = ground (arith, insert_desc-All P x ys px h)

  insert_desc-IsDescending :
      (x : A) (ys : List A) → IsDescending ys → IsDescending (insert_desc x ys)
  unfolding insert_desc
  insert_desc-IsDescending x [] h = (tt, tt)
  insert_desc-IsDescending x (y ∷ ys) (below, h) = elim (Bool-cases (ltb (key x) (key y))) [
    | inl larger ↦ rw larger (
      insert_desc-All (λ z. key z ≤ key y) x ys (ground arith) below,
      insert_desc-IsDescending x ys h,
    )
    | inr smaller ↦ rw smaller ((ground arith, All-map (λ z hz. ground arith) ys below), (below, h))
  ]

  pub sort_desc-IsDescending : (xs : List A) → IsDescending (sort_desc xs)
  unfolding sort_desc
  sort_desc-IsDescending [] = tt
  sort_desc-IsDescending (x ∷ xs) =
      insert_desc-IsDescending x (sort_desc xs) (sort_desc-IsDescending xs)

  -- Every entry that is cut off has a key that is at most that of each entry that is kept.
  pub IsDescending-take :
      (n : ℕ) (xs : List A)
      → IsDescending xs
      → All (λ x. All (λ y. key y ≤ key x) (drop n xs)) (take n xs)
  IsDescending-take zero xs h = tt
  IsDescending-take (suc n) [] h = tt
  IsDescending-take (suc n) (x ∷ xs) (below, h) =
      (All-drop (λ y. key y ≤ key x) n xs below, IsDescending-take n xs h)
