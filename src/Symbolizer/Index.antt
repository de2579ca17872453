-- ===== src/Symbolizer/Index.antt =====
-- Where the binary search (aya-test/src/symbolizer.rs) ends in a strict table: at the last key that is
-- not above the one that is sought.
use aya_e_bpf.Prelude.{
  ℕ, zero, suc, ◌+◌, ◌≤◌, ◌<◌, ◌≡◌, refl, ap, ◌∙◌, ◌⊎◌, inl, inr, List, [], ◌∷◌, get_elem?, take,
  drop, length, some, none, arith, All, Option-cases, Bool-cases, ltb, leb,
}
use aya_e_bpf.Symbolizer.Search.{
  Found, ok_at, err_at, IsStrict, BinarySearch, IsStrict-IsSorted, take-get_elem?, drop-get_elem?,
  IsStrict-get_elem?,
}

get_elem?-none :
    (keys : List ℕ) (i j : ℕ) → get_elem? keys i ≡ none → i ≤ j → get_elem? keys j ≡ none
get_elem?-none [] i j e less = refl
get_elem?-none (x ∷ xs) zero j e less = absurd (ground arith)
get_elem?-none (x ∷ xs) (suc i) zero e less = absurd (omega arith)
get_elem?-none (x ∷ xs) (suc i) (suc j) e less = get_elem?-none xs i j e (omega arith)

pub get_elem?-some :
    (keys : List ℕ) (i : ℕ) → i < length keys → (a : ℕ) × (get_elem? keys i ≡ some a)
get_elem?-some [] i less = absurd (omega arith)
get_elem?-some (x ∷ xs) zero less = (x, refl)
get_elem?-some (x ∷ xs) (suc i) less = get_elem?-some xs i (omega arith)

pub Found-cases : (f : Found) → ((i : ℕ) × (f ≡ ok_at i)) ⊎ ((i : ℕ) × (f ≡ err_at i))
Found-cases (ok_at i) = inl (i, refl)
Found-cases (err_at i) = inr (i, refl)

-- The key at `i` is the last one that is at most `x`.
module _ (keys : List ℕ) (x i a : ℕ) (strict : IsStrict keys) (here : get_elem? keys i ≡ some a)
    (from : a ≤ x) (to : (c : ℕ) → get_elem? keys (i + 1) ≡ some c → x < c) where
  later_above : (j c : ℕ) → get_elem? keys j ≡ some c → i < j → x < c
  later_above j c e less = elim (Option-cases (get_elem? keys (i + 1))) [
    | inl last ↦
        let gone = get_elem?-none keys (i + 1) j last (omega arith) in absurd (ground arith)
    | inr (t, found) ↦
        let limit = to t found in
        elim (Bool-cases (ltb (i + 1) j)) [
          | inl behind ↦
              let larger = IsStrict-get_elem? keys (i + 1) j t c strict found e (ground arith) in
              omega arith
          | inr at_next ↦
              let same : j ≡ i + 1 = ground arith in let found' = rw same at e in ground arith
        ]
  ]

  ok_here : (j : ℕ) → get_elem? keys j ≡ some x → j ≡ i
  ok_here j e = elim (Bool-cases (ltb j i)) [
    | inl before ↦
        let smaller = IsStrict-get_elem? keys j i x a strict e here (ground arith) in
        absurd (omega arith)
    | inr not_before ↦ elim (Bool-cases (ltb i j)) [
      | inl behind ↦ let larger = later_above j x e (ground arith) in absurd (omega arith)
      | inr not_behind ↦ ground arith
    ]
  ]

  err_here :
      (j : ℕ)
      → j ≤ length keys
      → All (λ y. y < x) (take j keys)
      → All (λ y. x < y) (drop j keys)
      → j ≡ suc i
  err_here j bound below above = elim (Bool-cases (leb j i)) [
    | inl early ↦
        let over = drop-get_elem? (λ y. x < y) j keys i a above (ground arith) here in
        absurd (omega arith)
    | inr not_early ↦ elim (Bool-cases (ltb (suc i) j)) [
      | inl late ↦
          let (c, there) = get_elem?-some keys (suc i) (ground arith) in
          let under = take-get_elem? (λ y. y < x) j keys (suc i) c below (ground arith) there in
          let over = later_above (suc i) c there (omega arith) in absurd (omega arith)
      | inr not_late ↦ ground arith
    ]
  ]

  -- The search finds the key itself, or the place behind it.
  pub search_index :
      (b : BinarySearch) → (b.search keys x ≡ ok_at i) ⊎ (b.search keys x ≡ err_at (suc i))
  search_index b = elim (Found-cases (b.search keys x)) [
    | inl (j, e) ↦
        inl (e ∙ ap ok_at (ok_here j (b.search_ok keys x j (IsStrict-IsSorted keys strict) e)))
    | inr (j, e) ↦
        let (bound, below, above) = b.search_err keys x j (IsStrict-IsSorted keys strict) e in
        inr (e ∙ ap err_at (err_here j bound below above))
  ]
