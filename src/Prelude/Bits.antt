-- ===== src/Prelude/Bits.antt =====
-- Laws of `|` and `&` on unsigned words where one operand is a shifted field or a low mask.
use Prim.Native.Nat.{min, max, bit_and, bit_or, digits, bit_and-bitwise, bit_or-bitwise}
use native.Mathlib.Nat.{pow-suc, one-le-pow}
use aya_e_bpf.Prelude.{ℕ, zero, suc, ◌+◌, ◌-◌, ◌*◌, ◌/◌, ◌%◌, ◌^◌, ◌≤◌, ◌<◌, ◌≡◌, refl, ap, arith}

-- Fuel above the first operand does not change the recursion on binary digits.
more_fuel :
    (z : ℕ → ℕ) (f : ℕ → ℕ → ℕ) (m n a b : ℕ) → a ≤ m → a ≤ n → digits z f m a b ≡ digits z f n a b
more_fuel z f zero zero a b p q = refl
more_fuel z f zero (suc n) zero b p q = refl
more_fuel z f zero (suc n) (suc a) b p q = absurd (omega arith)
more_fuel z f (suc m) zero zero b p q = refl
more_fuel z f (suc m) zero (suc a) b p q = absurd (omega arith)
more_fuel z f (suc m) (suc n) zero b p q = refl
more_fuel z f (suc m) (suc n) (suc a) b p q =
    ap (λ (t : ℕ). t * 2 + f (suc a % 2) (b % 2))
      (more_fuel z f m n (suc a / 2) (b / 2) (omega arith) (omega arith))

last_digit_or : (a b : ℕ) → bit_or a b ≡ bit_or (a / 2) (b / 2) * 2 + max (a % 2) (b % 2)
last_digit_or zero b = omega (arith, bit_or-bitwise 0 b, bit_or-bitwise 0 (b / 2))
last_digit_or (suc a) b =
    let half : ℕ = suc a / 2 in
    omega (
      arith,
      bit_or-bitwise (suc a) b,
      bit_or-bitwise half (b / 2),
      more_fuel (λ y. y) max a half half (b / 2) (omega arith) (omega arith),
    )

last_digit_and : (a b : ℕ) → bit_and a b ≡ bit_and (a / 2) (b / 2) * 2 + min (a % 2) (b % 2)
last_digit_and zero b = omega (arith, bit_and-bitwise 0 b, bit_and-bitwise 0 (b / 2))
last_digit_and (suc a) b =
    let half : ℕ = suc a / 2 in
    omega (
      arith,
      bit_and-bitwise (suc a) b,
      bit_and-bitwise half (b / 2),
      more_fuel (λ y. 0) min a half half (b / 2) (omega arith) (omega arith),
    )

-- The bound `n` makes the recursion on halves structural.
or-zero_below : (n a : ℕ) → a ≤ n → bit_or a 0 ≡ a
or-zero_below n zero h = refl
or-zero_below zero (suc a) h = absurd (omega arith)
or-zero_below (suc n) (suc a) h =
    omega (arith, last_digit_or (suc a) 0, or-zero_below n (suc a / 2) (omega arith))

and-zero_below : (n a : ℕ) → a ≤ n → bit_and a 0 ≡ 0
and-zero_below n zero h = refl
and-zero_below zero (suc a) h = absurd (omega arith)
and-zero_below (suc n) (suc a) h =
    omega (arith, last_digit_and (suc a) 0, and-zero_below n (suc a / 2) (omega arith))

shift_suc : (q k : ℕ) → q * 2 ^ suc k ≡ q * 2 ^ k * 2
shift_suc q k = omega (arith, ap (λ (t : ℕ). q * t) (pow-suc 2 k))

-- `(hi << k) | lo` is `hi * 2 ^ k + lo` when `lo` has at most `k` bits.
pub bit_or_field : (k hi lo : ℕ) → lo < 2 ^ k → bit_or (hi * 2 ^ k) lo ≡ hi * 2 ^ k + lo
bit_or_field zero hi lo h = ground (arith, or-zero_below hi hi)
bit_or_field (suc k) hi lo h = ground (
  arith,
  shift_suc hi k,
  pow-suc 2 k,
  last_digit_or (hi * 2 ^ suc k) lo,
  bit_or_field k hi (lo / 2),
)

-- `x & (2 ^ k - 1)` is the remainder by `2 ^ k`; here for `x` given as field and remainder.
and_field : (k hi lo : ℕ) → lo < 2 ^ k → bit_and (hi * 2 ^ k + lo) (2 ^ k - 1) ≡ lo
and_field zero hi lo h = ground (arith, and-zero_below (hi * 2 ^ 0 + lo) (hi * 2 ^ 0 + lo))
and_field (suc k) hi lo h = ground (
  arith,
  shift_suc hi k,
  pow-suc 2 k,
  one-le-pow k 2,
  last_digit_and (hi * 2 ^ suc k + lo) (2 ^ suc k - 1),
  and_field k hi (lo / 2),
)

pub bit_and_mask : (k x : ℕ) → bit_and x (2 ^ k - 1) ≡ x % 2 ^ k
bit_and_mask k x = ground (arith, one-le-pow k 2, and_field k (x / 2 ^ k) (x % 2 ^ k))
