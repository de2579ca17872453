-- ===== src/Symbolizer/Lines.antt =====
-- The lines of a text that was written line by line: `str::lines` in aya-test/src/symbolizer.rs.
use aya_e_bpf.Prelude.{◌≡◌, ◌≢◌, refl, ap, ◌∙◌, false, List, [], ◌∷◌, ◌++◌, arith, All, ◌==◌}
use aya_e_bpf.Prelude.Bytes.{Bytes}
use aya_e_bpf.Prelude.Text.{lines, split_lines, ended, chomp}

-- Neither of the bytes that end a line.
abbrev pub IsLine : Bytes → Type 0
IsLine l = All (λ c. (c ≢ b'\n') × (c ≢ b'\r')) l

-- Each line with a line end behind it.
unfoldable pub text_of : List Bytes → Bytes
text_of [] = []
text_of (l ∷ ls) = l ++ b'\n' ∷ text_of ls

split_lines-append :
    (l s : Bytes)
    → IsLine l
    → split_lines (l ++ b'\n' ∷ s) ≡ (l, (split_lines s).0 ∷ (split_lines s).1)
unfolding split_lines
split_lines-append [] s h = refl
split_lines-append (c ∷ l) s (hc, h) =
    let inside : (c == b'\n') ≡ false = ground (arith, hc.0) in
    rw (split_lines-append l s h) (rw inside refl)

chomp_line : (l : Bytes) → IsLine l → chomp l ≡ l
unfolding chomp
chomp_line [] h = refl
chomp_line (c ∷ []) (hc, h) = ground (arith, hc.1)
chomp_line (c ∷ d ∷ l) (hc, h) = ap (◌∷◌ c) (chomp_line (d ∷ l) h)

ended_more :
    (line next : Bytes) (rest : List Bytes)
    → ended line (next ∷ rest) ≡ chomp line ∷ ended next rest
unfolding ended
ended_more [] next rest = refl
ended_more (c ∷ line) next rest = refl

lines-cons : (l s : Bytes) → IsLine l → lines (l ++ b'\n' ∷ s) ≡ l ∷ lines s
unfolding lines
lines-cons l s h = rw (split_lines-append l s h) (
    ended_more l (split_lines s).0 (split_lines s).1
    ∙ ap (λ line. line ∷ ended (split_lines s).0 (split_lines s).1) (chomp_line l h))

-- A text of lines is cut into these lines.
pub lines-text_of : (ls : List Bytes) → All IsLine ls → lines (text_of ls) ≡ ls
unfolding text_of lines split_lines ended
lines-text_of [] h = refl
lines-text_of (l ∷ ls) (hl, h) = lines-cons l (text_of ls) hl ∙ ap (◌∷◌ l) (lines-text_of ls h)
