-- ===== src/Prelude/Bytes.antt =====
-- Byte strings: `[u8]`, and `str` where it is ASCII.
use Prim.Native.Char.{code}
use Prim.Native.String.{String}
use aya_e_bpf.Prelude.{
  ℕ, ◌-◌, ◌≡◌, refl, ◌↔◌, Bool, true, false, ◌&&◌, ◌||◌, List, [], ◌∷◌, map, arith, leb, ◌==◌,
  if◌then◌else◌,
}

abbrev pub Bytes : Type 0
Bytes = List ℕ

-- The bytes of an ASCII literal.
abbrev pub codes : String → Bytes
codes String.[] = []
codes (String.◌∷◌ c s) = code c ∷ codes s

-- Equality of slices.
unfoldable pub same : Bytes → Bytes → Bool
same [] [] = true
same [] (y ∷ ys) = false
same (x ∷ xs) [] = false
same (x ∷ xs) (y ∷ ys) = x == y && same xs ys

pub same→eq : (xs ys : Bytes) → same xs ys ≡ true → xs ≡ ys
unfolding same
same→eq [] [] h = refl
same→eq [] (y ∷ ys) h = cc
same→eq (x ∷ xs) [] h = cc
same→eq (x ∷ xs) (y ∷ ys) h = ground (arith, same→eq xs ys)

pub same_refl : (xs : Bytes) → same xs xs ≡ true
unfolding same
same_refl [] = refl
same_refl (x ∷ xs) = ground (arith, same_refl xs)

pub same_iff : (xs ys : Bytes) → (same xs ys ≡ true) ↔ (xs ≡ ys)
same_iff xs ys = (same→eq xs ys, λ e. rw e (same_refl ys))

-- `u8::is_ascii_digit`, `is_ascii_alphabetic` and `to_ascii_uppercase`.
unfoldable pub is_digit : ℕ → Bool
is_digit c = leb b'0' c && leb c b'9'

unfoldable pub is_alphabetic : ℕ → Bool
is_alphabetic c = (leb b'a' c && leb c b'z') || (leb b'A' c && leb c b'Z')

unfoldable pub is_upper : ℕ → Bool
is_upper c = leb b'A' c && leb c b'Z'

unfoldable pub to_upper : ℕ → ℕ
to_upper c = if leb b'a' c && leb c b'z' then c - 32 else c

-- `make_ascii_uppercase`
abbrev pub upper : Bytes → Bytes
upper = map to_upper

pub is_upper-to_upper : (c : ℕ) → is_alphabetic c ≡ true → is_upper (to_upper c) ≡ true
unfolding is_upper is_alphabetic to_upper
is_upper-to_upper c h = ground arith

pub to_upper_of_upper : (c : ℕ) → is_upper c ≡ true → to_upper c ≡ c
unfolding is_upper to_upper
to_upper_of_upper c h = ground arith
