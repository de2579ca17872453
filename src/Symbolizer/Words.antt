-- ===== src/Symbolizer/Words.antt =====
-- Words with spaces between them, cut again (aya-test/src/symbolizer.rs and monitor.rs).
use aya_e_bpf.Prelude.{ℕ, ◌≡◌, ◌≢◌, refl, ap, ◌∙◌, true, false, List, [], ◌∷◌, ◌++◌, All}
use aya_e_bpf.Prelude.Bytes.{Bytes}
use aya_e_bpf.Prelude.Text.{is_space}
use aya_e_bpf.Symbolizer.Text.{pieces, non_empty, words}

-- A text without spaces and line ends that is not empty.
abbrev pub IsWord : Bytes → Type 0
IsWord w = (w ≢ []) × All (λ c. is_space c ≡ false) w

-- Words with a space between two of them, and a line end behind the last.
unfoldable pub spaced : List Bytes → Bytes
spaced [] = []
spaced (w ∷ []) = w ++ b'\n' ∷ []
spaced (w ∷ v ∷ ws) = w ++ b' ' ∷ spaced (v ∷ ws)

pieces-append :
    (w : Bytes) (c : ℕ) (s : Bytes)
    → All (λ d. is_space d ≡ false) w
    → is_space c ≡ true
    → pieces is_space (w ++ (c ∷ s)) ≡ (w, (pieces is_space s).0 ∷ (pieces is_space s).1)
unfolding pieces
pieces-append [] c s h hc = rw hc refl
pieces-append (d ∷ w) c s (hd, h) hc = rw (pieces-append w c s h hc, hd) refl

pub words-cons :
    (w : Bytes) (c : ℕ) (s : Bytes)
    → IsWord w
    → is_space c ≡ true
    → words (w ++ (c ∷ s)) ≡ w ∷ words s
unfolding words non_empty
words-cons [] c s (some_byte, h) hc = absurd (some_byte refl)
words-cons (d ∷ w) c s (some_byte, h) hc = rw (pieces-append (d ∷ w) c s h hc) refl

pub words-spaced : (fields : List Bytes) → All IsWord fields → words (spaced fields) ≡ fields
unfolding spaced is_space words pieces non_empty
words-spaced [] h = refl
words-spaced (w ∷ []) (hw, h) = words-cons w b'\n' [] hw refl
words-spaced (w ∷ v ∷ ws) (hw, h) =
    words-cons w b' ' (spaced (v ∷ ws)) hw refl ∙ ap (◌∷◌ w) (words-spaced (v ∷ ws) h)
