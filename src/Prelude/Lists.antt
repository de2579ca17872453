-- ===== src/Prelude/Lists.antt =====
-- Slices and vectors: lists measured and indexed by native numbers, under the library's names.
use Prim.Native.Nat.{ℕ, zero, suc, ◌+◌, ◌-◌, ◌≤◌, ◌<◌, min}
use mathlib.Core.Logic.{◌≢◌}
use mathlib.Core.Path.{sym, ◌∙◌, ◌≡◌, refl, ap}
use mathlib.Core.Bool.{Bool, true, cond, ◌&&◌}
use mathlib.Core.List.{List, [], ◌∷◌, ◌++◌}
use mathlib.Core.Option.{Option, none, some}
use native.Mathlib.Omega.{arith}

module _ {ℓ} {A : Type ℓ} where
  abbrev pub length : List A → ℕ
  length [] = 0
  length (x ∷ xs) = suc (length xs)

  abbrev pub get_elem? : List A → ℕ → Option A
  get_elem? [] i = none
  get_elem? (x ∷ xs) zero = some x
  get_elem? (x ∷ xs) (suc i) = get_elem? xs i

  abbrev pub take : ℕ → List A → List A
  take zero xs = []
  take (suc n) [] = []
  take (suc n) (x ∷ xs) = x ∷ take n xs

  abbrev pub drop : ℕ → List A → List A
  drop zero xs = xs
  drop (suc n) [] = []
  drop (suc n) (x ∷ xs) = drop n xs

  abbrev pub replicate : ℕ → A → List A
  replicate zero a = []
  replicate (suc n) a = a ∷ replicate n a

  -- `iter().all`, which the library's cannot be unfolded.
  abbrev pub all : (A → Bool) → List A → Bool
  all p [] = true
  all p (x ∷ xs) = p x && all p xs

  -- `Iterator::filter` by a Boolean test.
  abbrev pub keep : (A → Bool) → List A → List A
  keep p [] = []
  keep p (x ∷ xs) = cond (p x) (x ∷ keep p xs) (keep p xs)

  pub length-append : (xs ys : List A) → length (xs ++ ys) ≡ length xs + length ys
  length-append [] ys = omega arith
  length-append (x ∷ xs) ys = omega (arith, length-append xs ys)

  pub take-length : (xs ys : List A) → take (length xs) (xs ++ ys) ≡ xs
  take-length [] ys = refl
  take-length (x ∷ xs) ys = ap (◌∷◌ x) (take-length xs ys)

  pub take_all : (n : ℕ) (xs : List A) → length xs ≤ n → take n xs ≡ xs
  take_all zero [] h = refl
  take_all zero (x ∷ xs) h = absurd (omega arith)
  take_all (suc n) [] h = refl
  take_all (suc n) (x ∷ xs) h = ap (◌∷◌ x) (take_all n xs (omega arith))

  pub length-take : (n : ℕ) (xs : List A) → length (take n xs) ≡ min n (length xs)
  length-take zero xs = omega arith
  length-take (suc n) [] = omega arith
  length-take (suc n) (x ∷ xs) = omega (arith, length-take n xs)

  pub length-drop : (n : ℕ) (xs : List A) → length (drop n xs) ≡ length xs - n
  length-drop zero xs = omega arith
  length-drop (suc n) [] = omega arith
  length-drop (suc n) (x ∷ xs) = omega (arith, length-drop n xs)

  pub length-replicate : (n : ℕ) (a : A) → length (replicate n a) ≡ n
  length-replicate zero a = refl
  length-replicate (suc n) a = ap suc (length-replicate n a)

  pub take-append-drop : (n : ℕ) (xs : List A) → take n xs ++ drop n xs ≡ xs
  take-append-drop zero xs = refl
  take-append-drop (suc n) [] = refl
  take-append-drop (suc n) (x ∷ xs) = ap (◌∷◌ x) (take-append-drop n xs)

  -- The first `length xs + n` elements of `xs ++ ys`.
  pub take-append : (n : ℕ) (xs ys : List A) → take (length xs + n) (xs ++ ys) ≡ xs ++ take n ys
  take-append n [] ys = let e : 0 + n ≡ n = omega arith in ap (λ k. take k ys) e
  take-append n (x ∷ xs) ys =
      let e : suc (length xs) + n ≡ suc (length xs + n) = omega arith in
      rw e (ap (◌∷◌ x) (take-append n xs ys))

  pub pos-length : (xs : List A) → xs ≢ [] → 0 < length xs
  pos-length [] h = absurd (h refl)
  pos-length (x ∷ xs) h = omega arith

  -- Every element has the property.
  abbrev pub All {κ} : (A → Type κ) → List A → Type κ
  All P [] = Unit
  All P (x ∷ xs) = P x × All P xs

module _ {ℓ κ μ} {A : Type ℓ} {P : A → Type κ} {Q : A → Type μ} where
  pub All-map : ((a : A) → P a → Q a) → (xs : List A) → All P xs → All Q xs
  All-map f [] h = tt
  All-map f (x ∷ xs) (hx, hs) = (f x hx, All-map f xs hs)

module _ {ℓ κ} {A : Type ℓ} (P : A → Type κ) where
  pub All-append : (xs ys : List A) → All P xs → All P ys → All P (xs ++ ys)
  All-append [] ys hx hy = hy
  All-append (x ∷ xs) ys (px, hx) hy = (px, All-append xs ys hx hy)

take_nil {ℓ} : {A : Type ℓ} (n : ℕ) → take {A = A} n [] ≡ []
take_nil zero = refl
take_nil (suc n) = refl

pub take_more {ℓ} :
    {A : Type ℓ} (i n : ℕ) (xs : List A) → take (i + n) xs ≡ take i xs ++ take n (drop i xs)
take_more zero n xs = let e : 0 + n ≡ n = omega arith in ap (λ j. take j xs) e
take_more (suc i) n [] =
    let e : suc i + n ≡ suc (i + n) = omega arith in ap (λ j. take j []) e ∙ sym (take_nil n)
take_more (suc i) n (x ∷ xs) =
    let e : suc i + n ≡ suc (i + n) = omega arith in
    ap (λ j. take j (x ∷ xs)) e ∙ ap (◌∷◌ x) (take_more i n xs)

pub take_within {ℓ} :
    {A : Type ℓ} (i : ℕ) (xs ys : List A) → i ≤ length xs → take i (xs ++ ys) ≡ take i xs
take_within zero xs ys h = refl
take_within (suc i) [] ys h = absurd (omega arith)
take_within (suc i) (x ∷ xs) ys h = ap (◌∷◌ x) (take_within i xs ys (omega arith))

pub All-part {ℓ κ} :
    {A : Type ℓ} (P : A → Type κ) (i n : ℕ) (xs : List A) → All P xs → All P (take n (drop i xs))
All-part P zero zero xs h = tt
All-part P zero (suc n) [] h = tt
All-part P zero (suc n) (x ∷ xs) (hx, h) = (hx, All-part P zero n xs h)
All-part P (suc i) zero [] h = tt
All-part P (suc i) (suc n) [] h = tt
All-part P (suc i) n (x ∷ xs) (hx, h) = All-part P i n xs h
