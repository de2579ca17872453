-- ===== src/Symbolizer/Hex.antt =====
-- Hexadecimal text as the kernel prints it, and `u64::from_str_radix` of it (aya-test/src/symbolizer.rs).
use aya_e_bpf.Prelude.{
  ℕ, ◌+◌, ◌-◌, ◌*◌, ◌≤◌, ◌<◌, ◌≡◌, ◌≢◌, refl, true, false, List, [], ◌∷◌, map, some, arith, All,
  ltb, leb, ◌==◌, if◌then◌else◌,
}
use aya_e_bpf.Prelude.Bytes.{Bytes, is_digit}
use aya_e_bpf.Prelude.Decimal.{digit_value, read_digits, from_radix}
use aya_e_bpf.Prelude.Text.{is_space}

abbrev pub hex_digit : ℕ → ℕ
hex_digit d = if ltb d 10 then b'0' + d else b'a' + (d - 10)

-- Digits, the most significant first; zeros in front are allowed, as in padded text.
abbrev pub hex_text : List ℕ → Bytes
hex_text ds = map hex_digit ds

-- The value of digits behind a number.
abbrev pub hex_value : ℕ → List ℕ → ℕ
hex_value n [] = n
hex_value n (d ∷ ds) = hex_value (n * 16 + d) ds

-- There are digits, and the number fits `limit`.
pub record IsHex (limit : ℕ) (ds : List ℕ) : Type 0 where
  pub some_digit : ds ≢ []
  pub digits : All (λ d. d < 16) ds
  pub fits : hex_value 0 ds ≤ limit

hex_value-ge : (n : ℕ) (ds : List ℕ) → n ≤ hex_value n ds
hex_value-ge n [] = omega arith
hex_value-ge n (d ∷ ds) = omega (arith, hex_value-ge (n * 16 + d) ds)

digit_value-hex : (d : ℕ) → d < 16 → digit_value 16 (hex_digit d) ≡ some d
unfolding digit_value is_digit
digit_value-hex d h = ground arith

read_digits-hex :
    (limit n : ℕ) (ds : List ℕ)
    → All (λ d. d < 16) ds
    → hex_value n ds ≤ limit
    → read_digits 16 limit (hex_text ds) n ≡ some (hex_value n ds)
unfolding read_digits
read_digits-hex limit n [] h fits = refl
read_digits-hex limit n (d ∷ ds) (hd, h) fits =
    let within : leb (n * 16 + d) limit ≡ true =
      ground (arith, hex_value-ge (n * 16 + d) ds, fits) in
    rw (digit_value-hex d hd, read_digits)
      (rw within (read_digits-hex limit (n * 16 + d) ds h fits))

no_sign : (d : ℕ) → d < 16 → (hex_digit d == b'+') ≡ false
no_sign d h = ground arith

pub from_radix-hex :
    (limit : ℕ) (ds : List ℕ)
    → IsHex limit ds
    → from_radix 16 limit (hex_text ds) ≡ some (hex_value 0 ds)
unfolding from_radix
from_radix-hex limit [] h = absurd (h.some_digit refl)
from_radix-hex limit (d ∷ []) h =
    rw (no_sign d h.digits.0) (read_digits-hex limit 0 (d ∷ []) h.digits h.fits)
from_radix-hex limit (d ∷ e ∷ ds) h =
    rw (no_sign d h.digits.0) (read_digits-hex limit 0 (d ∷ e ∷ ds) h.digits h.fits)

-- A property of all bytes of such text.
pub hex_text-All :
    (P : ℕ → Type 0) (ds : List ℕ)
    → ((d : ℕ) → d < 16 → P (hex_digit d))
    → All (λ d. d < 16) ds
    → All P (hex_text ds)
hex_text-All P [] p h = tt
hex_text-All P (d ∷ ds) p (hd, h) = (p d hd, hex_text-All P ds p h)

pub hex_digit-no_space : (d : ℕ) → d < 16 → is_space (hex_digit d) ≡ false
unfolding is_space
hex_digit-no_space d h = ground arith
