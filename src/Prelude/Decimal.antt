-- ===== src/Prelude/Decimal.antt =====
-- Text of unsigned integers: `Display`, `str::parse` and `from_str_radix`.
use aya_e_bpf.Prelude.{
  ℕ, zero, suc, ◌+◌, ◌-◌, ◌*◌, ◌/◌, ◌%◌, ◌^◌, ◌≤◌, ◌<◌, ◌≡◌, ◌≢◌, refl, ◌∙◌, true, false, ◌&&◌, [],
  ◌∷◌, Option, none, some, arith, length, ltb, leb, ◌==◌, if◌then◌else◌, All,
}
use aya_e_bpf.Prelude.Bytes.{Bytes, codes, is_digit}

-- The decimal digits of `n` before `rest`; the fuel is more than the digits needed.
digits_before : ℕ → ℕ → Bytes → Bytes
digits_before zero n rest = rest
digits_before (suc fuel) n rest =
    let more = digits_before fuel (n / 10) ((b'0' + n % 10) ∷ rest) in
    if ltb n 10 then (b'0' + n) ∷ rest else more

-- `Display` of an unsigned integer.
unfoldable pub display : ℕ → Bytes
unfolding digits_before
display n = digits_before (suc n) n []

-- The value of a digit, as `char::to_digit` reads it up to radix 16.
unfoldable pub digit_value : ℕ → ℕ → Option ℕ
unfolding is_digit
digit_value radix c =
    let v : Option ℕ =
      if is_digit c
      then some (c - b'0')
      else if leb b'a' c && leb c b'f'
      then some (c - b'a' + 10)
      else if leb b'A' c && leb c b'F'
      then some (c - b'A' + 10)
      else none in
    elim v [ none ↦ none | some d ↦ if ltb d radix then some d else none ]

-- The loop of `from_str_radix`, with its checked multiplication and addition.
unfoldable pub read_digits : ℕ → ℕ → Bytes → ℕ → Option ℕ
unfolding digit_value
read_digits radix limit [] n = some n
read_digits radix limit (c ∷ s) n = elim (digit_value radix c) [
  | none ↦ none
  | some d ↦ elim (leb (n * radix + d) limit) [
    | true ↦ read_digits radix limit s (n * radix + d)
    | false ↦ none
  ]
]

-- `from_str_radix`: no digits are refused, and one leading `+` is allowed.
unfoldable pub from_radix : ℕ → ℕ → Bytes → Option ℕ
unfolding read_digits
from_radix radix limit [] = none
from_radix radix limit (c ∷ []) = if c == b'+' then none else read_digits radix limit (c ∷ []) 0
from_radix radix limit (c ∷ d ∷ s) =
    if c == b'+' then read_digits radix limit (d ∷ s) 0 else read_digits radix limit (c ∷ d ∷ s) 0

abbrev pub u64_max : ℕ
u64_max = 2 ^ 64 - 1

abbrev pub u32_max : ℕ
u32_max = 2 ^ 32 - 1

-- `str::parse` of a decimal `u64`, `usize` or `u32` by its limit.
abbrev pub parse : ℕ → Bytes → Option ℕ
parse limit s = from_radix 10 limit s

digit_value_decimal : (d : ℕ) → d < 10 → digit_value 10 (b'0' + d) ≡ some d
unfolding digit_value
digit_value_decimal d h = ground arith

read_digits_cons :
    (limit d n : ℕ) (s : Bytes)
    → d < 10
    → n * 10 + d ≤ limit
    → read_digits 10 limit ((b'0' + d) ∷ s) n ≡ read_digits 10 limit s (n * 10 + d)
unfolding read_digits
read_digits_cons limit d n s h fits = ground (arith, digit_value_decimal d h)

read_digits_before :
    (fuel limit n : ℕ) (rest : Bytes)
    → n < fuel
    → n ≤ limit
    → read_digits 10 limit (digits_before fuel n rest) 0 ≡ read_digits 10 limit rest n
unfolding digits_before
read_digits_before zero limit n rest h fits = absurd (omega arith)
read_digits_before (suc fuel) limit n rest h fits = ground (
  arith,
  read_digits_cons limit n 0 rest,
  read_digits_cons limit (n % 10) (n / 10) rest,
  read_digits_before fuel limit (n / 10) ((b'0' + n % 10) ∷ rest),
)

abbrev pub AreDigits : Bytes → Type 0
AreDigits = All (λ c. is_digit c ≡ true)

digits_before-AreDigits :
    (fuel n : ℕ) (rest : Bytes) → AreDigits rest → AreDigits (digits_before fuel n rest)
unfolding digits_before is_digit
digits_before-AreDigits zero n rest h = h
digits_before-AreDigits (suc fuel) n rest h =
    ground (arith, digits_before-AreDigits fuel (n / 10) ((b'0' + n % 10) ∷ rest))

digits_before-ne-nil : (fuel n : ℕ) (rest : Bytes) → 0 < fuel → digits_before fuel n rest ≢ []
unfolding digits_before
digits_before-ne-nil zero n rest h = absurd (omega arith)
digits_before-ne-nil (suc zero) n rest h = ground arith
digits_before-ne-nil (suc (suc fuel)) n rest h =
    ground (arith, digits_before-ne-nil (suc fuel) (n / 10) ((b'0' + n % 10) ∷ rest))

pub display-AreDigits : (n : ℕ) → AreDigits (display n)
unfolding display
display-AreDigits n = digits_before-AreDigits (suc n) n [] tt

pub display-ne-nil : (n : ℕ) → display n ≢ []
unfolding display
display-ne-nil n = digits_before-ne-nil (suc n) n [] (omega arith)

pub from_radix_of_digits :
    (limit : ℕ) (s : Bytes)
    → s ≢ []
    → AreDigits s
    → from_radix 10 limit s ≡ read_digits 10 limit s 0
unfolding from_radix is_digit
from_radix_of_digits limit [] ne h = absurd (ne refl)
from_radix_of_digits limit (c ∷ []) ne h = ground arith
from_radix_of_digits limit (c ∷ d ∷ s) ne h = ground arith

length-digits_before :
    (fuel k n : ℕ) (rest : Bytes)
    → n < 10 ^ suc k
    → length (digits_before fuel n rest) ≤ length rest + suc k
unfolding digits_before
length-digits_before zero k n rest small = omega arith
length-digits_before (suc fuel) zero n rest small = ground arith
length-digits_before (suc fuel) (suc k) n rest small =
    let power : 10 ^ suc (suc k) ≡ 10 ^ suc k * 10 = ground arith in
    ground (
      arith,
      length-digits_before fuel k (n / 10) ((b'0' + n % 10) ∷ rest) (omega (arith, small, power)),
    )

-- A number below a power of 10 has at most so many digits.
pub length-display : (k n : ℕ) → n < 10 ^ suc k → length (display n) ≤ suc k
unfolding display
length-display k n small = omega (arith, length-digits_before (suc n) k n [] small)

-- Every number within the limit is read back from its text.
pub parse-display : (limit n : ℕ) → n ≤ limit → parse limit (display n) ≡ some n
unfolding display read_digits
parse-display limit n fits =
    from_radix_of_digits limit (display n) (display-ne-nil n) (display-AreDigits n)
    ∙ read_digits_before (suc n) limit n [] (omega arith) fits

display_runs : display 1203 ≡ codes "1203"
unfolding display
display_runs = refl

hex_runs : from_radix 16 u64_max (codes "7fFf") ≡ some 32767
unfolding from_radix
hex_runs = refl
