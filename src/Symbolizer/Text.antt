-- ===== src/Symbolizer/Text.antt =====
-- The pieces of a line (aya-test/src/symbolizer.rs): `split` and `split_whitespace` on ASCII text.
use aya_e_bpf.Prelude.{ℕ, Bool, List, [], ◌∷◌, if◌then◌else◌}
use aya_e_bpf.Prelude.Bytes.{Bytes}
use aya_e_bpf.Prelude.Text.{is_space}

-- The text up to the first separator, and the pieces behind it.
unfoldable pub pieces : (ℕ → Bool) → Bytes → Bytes × List Bytes
pieces separates [] = ([], [])
pieces separates (c ∷ s) =
    let (first, rest) = pieces separates s in
    if separates c then ([], first ∷ rest) else (c ∷ first, rest)

unfoldable pub non_empty : List Bytes → List Bytes
non_empty [] = []
non_empty ([] ∷ ps) = non_empty ps
non_empty ((c ∷ p) ∷ ps) = (c ∷ p) ∷ non_empty ps

unfoldable pub words : Bytes → List Bytes
words s = let (first, rest) = pieces is_space s in non_empty (first ∷ rest)
