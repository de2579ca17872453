-- ===== src/Prelude/Int.antt =====
-- Signed machine integers, as integers over the native numbers.
use aya_e_bpf.Prelude.{ℕ, suc, ◌-◌, ◌%◌, ◌^◌, ◌/◌, ◌*◌, Bool, true, false, ltb, if◌then◌else◌}

-- `negsuc n` is -(n + 1).
pub data ℤ : Type 0 where
  pos : ℕ → ℤ
  negsuc : ℕ → ℤ

-- `x < 0`
abbrev pub is_neg : ℤ → Bool
is_neg (pos n) = false
is_neg (negsuc n) = true

-- `x > 0`
abbrev pub is_pos : ℤ → Bool
is_pos (pos n) = ltb 0 n
is_pos (negsuc n) = false

-- The bit pattern of an integer in `w` bits: `x as uW`.
abbrev pub to_bits : ℕ → ℤ → ℕ
to_bits w (pos n) = n % 2 ^ w
to_bits w (negsuc n) = 2 ^ w - 1 - n % 2 ^ w

-- The integer that a pattern of `w` bits stands for: `x as iW`.
abbrev pub of_bits : ℕ → ℕ → ℤ
of_bits w n = if ltb (n * 2) (2 ^ w) then pos n else negsuc (2 ^ w - 1 - n)

-- `x / 8` in Rust rounds towards zero.
abbrev pub div_int : ℤ → ℕ → ℤ
div_int (pos n) d = pos (n / d)
div_int (negsuc n) d = if ltb 0 (suc n / d) then negsuc (suc n / d - 1) else pos 0

-- `x.max(0) as usize`
abbrev pub clamp_nat : ℤ → ℕ
clamp_nat (pos n) = n
clamp_nat (negsuc n) = 0
