-- ===== src/Symbolizer/Printed.antt =====
-- The text of /proc/<pid>/maps and of /proc/kallsyms as the kernel prints it, read back
-- (aya-test/src/symbolizer.rs).
use aya_e_bpf.Prelude.{
  ℕ, zero, suc, ◌≡◌, ◌≢◌, refl, ap, ◌∙◌, false, List, [], ◌∷◌, ◌++◌, map, replicate, arith, All,
  All-append, All-map, some,
}
use aya_e_bpf.Prelude.Bytes.{Bytes}
use aya_e_bpf.Prelude.Decimal.{u64_max}
use aya_e_bpf.Prelude.Text.{is_space, lines}
use aya_e_bpf.Symbolizer.Hex.{hex_text, hex_value, IsHex, from_radix-hex}
use aya_e_bpf.Symbolizer.Kallsyms.{parse_symbol, parse_symbols, load_kallsyms, parse_symbol_lem}
use aya_e_bpf.Symbolizer.Lines.{IsLine, text_of, lines-text_of}
use aya_e_bpf.Symbolizer.MapLine.{
  MapLine, map_line, mapping_of_line, IsMapLine, hex-IsWord, range_text, range-IsWord,
  parse_mappings-printed,
}
use aya_e_bpf.Symbolizer.Maps.{parse_maps}
use aya_e_bpf.Symbolizer.Sort.{sort_asc}
use aya_e_bpf.Symbolizer.Words.{IsWord}

-- A byte that is no white space ends no line.
no_space-no_end : (c : ℕ) → is_space c ≡ false → (c ≢ b'\n') × (c ≢ b'\r')
unfolding is_space
no_space-no_end c h = ((λ e. absurd (ground (arith, h, e))), (λ e. absurd (ground (arith, h, e))))

word-IsLine : (w : Bytes) → All (λ c. is_space c ≡ false) w → IsLine w
word-IsLine w h = All-map no_space-no_end w h

spaced-IsLine : (w rest : Bytes) → IsWord w → IsLine rest → IsLine (w ++ b' ' ∷ rest)
spaced-IsLine w rest h h' =
    All-append (λ c. (c ≢ b'\n') × (c ≢ b'\r')) w (b' ' ∷ rest) (word-IsLine w h.1)
      (((λ e. cc), (λ e. cc)), h')

padding-IsLine : (n : ℕ) (w : Bytes) → IsLine w → IsLine (replicate n b' ' ++ w)
padding-IsLine zero w h = h
padding-IsLine (suc n) w h = (((λ e. cc), (λ e. cc)), padding-IsLine n w h)

map_line-IsLine : (l : MapLine) → IsMapLine l → IsLine (map_line l)
map_line-IsLine l h = spaced-IsLine (range_text l) _ (range-IsWord l h) (
    spaced-IsLine l.perms _ h.perms_word (
      spaced-IsLine (hex_text l.offset) _ (hex-IsWord l.offset h.offset_hex) (
        spaced-IsLine l.dev _ h.dev_word (
          spaced-IsLine l.inode _ h.inode_word
            (padding-IsLine l.padding l.path (word-IsLine l.path h.path_word.1))))))

map_lines-IsLine : (ls : List MapLine) → All IsMapLine ls → All IsLine (map map_line ls)
map_lines-IsLine [] h = tt
map_lines-IsLine (l ∷ ls) (hl, h) = (map_line-IsLine l hl, map_lines-IsLine ls h)

-- The text of maps that the kernel prints for mappings of files, at an address other than 0 and with a
-- path without white space and without a bracket in front, is read as these mappings, by rising start.
pub parse_maps-printed :
    (ls : List MapLine)
    → All IsMapLine ls
    → parse_maps (lines (text_of (map map_line ls)))
      ≡ sort_asc (λ m. m.start) (map mapping_of_line ls)
unfolding parse_maps
parse_maps-printed ls h =
    ap parse_maps (lines-text_of (map map_line ls) (map_lines-IsLine ls h))
    ∙ ap (sort_asc (λ m. m.start)) (parse_mappings-printed ls h)

-- A line of kallsyms: the digits of the address, the letter of the kind, and the name.
pub record SymbolLine : Type 0 where
  pub addr : List ℕ
  pub kind : Bytes
  pub name : Bytes

abbrev pub symbol_line : SymbolLine → Bytes
symbol_line l = hex_text l.addr ++ b' ' ∷ (l.kind ++ b' ' ∷ l.name)

abbrev pub symbol_of_line : SymbolLine → ℕ × Bytes
symbol_of_line l = (hex_value 0 l.addr, l.name)

pub record IsSymbolLine (l : SymbolLine) : Type 0 where
  pub addr_hex : IsHex u64_max l.addr
  pub kind_word : IsWord l.kind
  pub name_word : IsWord l.name

no_space-no_blank : (c : ℕ) → is_space c ≡ false → c ≢ b' '
unfolding is_space
no_space-no_blank c h e = absurd (ground (arith, h, e))

parse_symbol-symbol_line :
    (addr : List ℕ) (kind name : Bytes)
    → IsHex u64_max addr
    → IsWord kind
    → IsWord name
    → parse_symbol (hex_text addr ++ b' ' ∷ (kind ++ b' ' ∷ name)) ≡ some (hex_value 0 addr, name)
parse_symbol-symbol_line addr kind [] ha hk hn = absurd (hn.0 refl)
parse_symbol-symbol_line addr kind (c ∷ name) ha hk hn =
    parse_symbol_lem (hex_text addr) kind c name (hex_value 0 addr)
      (All-map no_space-no_blank (hex_text addr) (hex-IsWord addr ha).1)
      (All-map no_space-no_blank kind hk.1) (All-map no_space-no_blank (c ∷ name) hn.1)
      (from_radix-hex u64_max addr ha)

parse_symbols-printed :
    (ls : List SymbolLine)
    → All IsSymbolLine ls
    → parse_symbols (map symbol_line ls) ≡ map symbol_of_line ls
unfolding parse_symbols
parse_symbols-printed [] h = refl
parse_symbols-printed (l ∷ ls) (hl, h) =
    rw
      (
        parse_symbol-symbol_line l.addr l.kind l.name hl.addr_hex hl.kind_word hl.name_word,
        parse_symbols,
      )
      (ap (λ ss. symbol_of_line l ∷ ss) (parse_symbols-printed ls h))

symbol_lines-IsLine : (ls : List SymbolLine) → All IsSymbolLine ls → All IsLine (map symbol_line ls)
symbol_lines-IsLine [] h = tt
symbol_lines-IsLine (l ∷ ls) (hl, h) = (
  spaced-IsLine (hex_text l.addr) _ (hex-IsWord l.addr hl.addr_hex)
      (spaced-IsLine l.kind _ hl.kind_word (word-IsLine l.name hl.name_word.1)),
  symbol_lines-IsLine ls h,
)

-- The text of kallsyms that the kernel prints for its symbols is read as these symbols, by rising
-- address, if the names have no white space.
pub load_kallsyms-printed :
    (ls : List SymbolLine)
    → All IsSymbolLine ls
    → load_kallsyms (lines (text_of (map symbol_line ls)))
      ≡ sort_asc (λ s. s.0) (map symbol_of_line ls)
unfolding load_kallsyms
load_kallsyms-printed ls h =
    ap load_kallsyms (lines-text_of (map symbol_line ls) (symbol_lines-IsLine ls h))
    ∙ ap (sort_asc (λ s. s.0)) (parse_symbols-printed ls h)
