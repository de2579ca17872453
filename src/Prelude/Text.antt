-- ===== src/Prelude/Text.antt =====
-- `str::trim` and `str::lines` on ASCII text.
use aya_e_bpf.Prelude.{
  ℕ, ◌≡◌, ◌≢◌, refl, Bool, true, false, ◌&&◌, ◌||◌, List, [], ◌∷◌, ◌++◌, leb, ◌==◌, if◌then◌else◌,
  All,
}
use aya_e_bpf.Prelude.Bytes.{Bytes}

unfoldable pub is_space : ℕ → Bool
is_space c = c == b' ' || (leb 9 c && leb c 13)

unfoldable pub trim_start : Bytes → Bytes
trim_start [] = []
trim_start (c ∷ s) = elim (is_space c) [ true ↦ trim_start s | false ↦ c ∷ s ]

unfoldable pub trim_end : Bytes → Bytes
trim_end [] = []
trim_end (c ∷ s) = elim (trim_end s) [ [] ↦ if is_space c then [] else c ∷ [] | d ∷ t ↦ c ∷ d ∷ t ]

unfoldable pub trim : Bytes → Bytes
trim s = trim_end (trim_start s)

-- Drops the carriage return at the end of a line.
unfoldable pub chomp : Bytes → Bytes
chomp [] = []
chomp (c ∷ []) = if c == b'\r' then [] else c ∷ []
chomp (c ∷ d ∷ s) = c ∷ chomp (d ∷ s)

-- The line that is open, and the lines behind it.
unfoldable pub split_lines : Bytes → Bytes × List Bytes
split_lines [] = ([], [])
split_lines (c ∷ s) =
    let (line, rest) = split_lines s in if c == b'\n' then ([], line ∷ rest) else (c ∷ line, rest)

-- The lines of a text; what stands behind the last line end is a line only if it is not empty.
unfoldable pub ended : Bytes → List Bytes → List Bytes
ended [] [] = []
ended (c ∷ line) [] = (c ∷ line) ∷ []
ended line (next ∷ rest) = chomp line ∷ ended next rest

unfoldable pub lines : Bytes → List Bytes
lines s = let (line, rest) = split_lines s in ended line rest

spaces_trimmed : (s : Bytes) → All (λ c. is_space c ≡ true) s → trim_end s ≡ []
unfolding trim_end
spaces_trimmed [] h = refl
spaces_trimmed (c ∷ s) (hc, h) = rw (spaces_trimmed s h) (rw hc)

trim_end_word :
    (c : ℕ) (s spaces : Bytes)
    → All (λ c. is_space c ≡ false) (c ∷ s)
    → All (λ c. is_space c ≡ true) spaces
    → trim_end (c ∷ (s ++ spaces)) ≡ c ∷ s
unfolding trim_end
trim_end_word c [] spaces (hc, h) hs = rw (spaces_trimmed spaces hs, trim_end) (rw hc)
trim_end_word c (d ∷ s) spaces (hc, h) hs = rw (trim_end_word d s spaces h hs)

-- A word with spaces before and behind it is the word.
pub trim_word :
    (before s behind : Bytes)
    → All (λ c. is_space c ≡ true) before
    → s ≢ []
    → All (λ c. is_space c ≡ false) s
    → All (λ c. is_space c ≡ true) behind
    → trim (before ++ (s ++ behind)) ≡ s
unfolding trim trim_start
trim_word [] [] behind hb some_byte h hs = absurd (some_byte refl)
trim_word [] (c ∷ s) behind hb some_byte (hc, h) hs =
    rw (hc, trim, trim_start) (trim_end_word c s behind (hc, h) hs)
trim_word (b ∷ before) s behind (hb, h') some_byte h hs =
    rw (hb, trim, trim_start) (trim_word before s behind h' some_byte h hs)
