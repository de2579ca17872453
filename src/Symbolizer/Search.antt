-- ===== src/Symbolizer/Search.antt =====
-- `slice::binary_search_by_key`, which the symbolizer (aya-test/src/symbolizer.rs) uses, as its
-- documentation states it: among several matches any one may be returned.
use aya_e_bpf.Prelude.{
  ℕ, zero, suc, ◌≤◌, ◌<◌, ◌≡◌, List, [], ◌∷◌, length, get_elem?, take, drop, some, arith, All,
  All-map,
}

-- `Result<usize, usize>`: the index of a match, or where the key could be inserted.
pub data Found : Type 0 where
  ok_at : ℕ → Found
  err_at : ℕ → Found

abbrev pub IsSorted : List ℕ → Type 0
IsSorted [] = Unit
IsSorted (x ∷ xs) = All (λ y. x ≤ y) xs × IsSorted xs

-- Sorted, and no number twice.
abbrev pub IsStrict : List ℕ → Type 0
IsStrict [] = Unit
IsStrict (x ∷ xs) = All (λ y. x < y) xs × IsStrict xs

pub record BinarySearch : Type 0 where
  pub search : List ℕ → ℕ → Found
  pub search_ok :
      (keys : List ℕ) (x i : ℕ)
      → IsSorted keys
      → search keys x ≡ ok_at i
      → get_elem? keys i ≡ some x
  pub search_err :
      (keys : List ℕ) (x i : ℕ)
      → IsSorted keys
      → search keys x ≡ err_at i
      → (i ≤ length keys) × All (λ y. y < x) (take i keys) × All (λ y. x < y) (drop i keys)

pub IsStrict-IsSorted : (keys : List ℕ) → IsStrict keys → IsSorted keys
IsStrict-IsSorted [] h = tt
IsStrict-IsSorted (x ∷ xs) (above, h) =
    (All-map (λ y hy. omega arith) xs above, IsStrict-IsSorted xs h)

pub All-get_elem? :
    (P : ℕ → Type 0) (keys : List ℕ) (i a : ℕ) → All P keys → get_elem? keys i ≡ some a → P a
All-get_elem? P [] i a h e = absurd (ground arith)
All-get_elem? P (x ∷ xs) zero a (hx, h) e = let same : x ≡ a = cc in rw (← same) hx
All-get_elem? P (x ∷ xs) (suc i) a (hx, h) e = All-get_elem? P xs i a h e

-- An element of the part that is kept, and one of the part that is dropped.
pub take-get_elem? :
    (P : ℕ → Type 0) (n : ℕ) (keys : List ℕ) (i a : ℕ)
    → All P (take n keys)
    → i < n
    → get_elem? keys i ≡ some a
    → P a
take-get_elem? P zero keys i a h less e = absurd (omega arith)
take-get_elem? P (suc n) [] i a h less e = absurd (ground arith)
take-get_elem? P (suc n) (x ∷ xs) zero a (hx, h) less e = let same : x ≡ a = cc in rw (← same) hx
take-get_elem? P (suc n) (x ∷ xs) (suc i) a (hx, h) less e =
    take-get_elem? P n xs i a h (omega arith) e

pub drop-get_elem? :
    (P : ℕ → Type 0) (n : ℕ) (keys : List ℕ) (i a : ℕ)
    → All P (drop n keys)
    → n ≤ i
    → get_elem? keys i ≡ some a
    → P a
drop-get_elem? P zero keys i a h less e = All-get_elem? P keys i a h e
drop-get_elem? P (suc n) [] i a h less e = absurd (ground arith)
drop-get_elem? P (suc n) (x ∷ xs) zero a h less e = absurd (omega arith)
drop-get_elem? P (suc n) (x ∷ xs) (suc i) a h less e = drop-get_elem? P n xs i a h (omega arith) e

-- In a strict list a later element is larger.
pub IsStrict-get_elem? :
    (keys : List ℕ) (i j a b : ℕ)
    → IsStrict keys
    → get_elem? keys i ≡ some a
    → get_elem? keys j ≡ some b
    → i < j
    → a < b
IsStrict-get_elem? [] i j a b h e f less = absurd (ground arith)
IsStrict-get_elem? (x ∷ xs) zero zero a b h e f less = absurd (omega arith)
IsStrict-get_elem? (x ∷ xs) zero (suc j) a b (above, h) e f less =
    let same : x ≡ a = cc in rw (← same) (All-get_elem? (λ y. x < y) xs j b above f)
IsStrict-get_elem? (x ∷ xs) (suc i) zero a b h e f less = absurd (omega arith)
IsStrict-get_elem? (x ∷ xs) (suc i) (suc j) a b (above, h) e f less =
    IsStrict-get_elem? xs i j a b h e f (omega arith)
