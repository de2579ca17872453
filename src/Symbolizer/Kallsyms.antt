-- ===== src/Symbolizer/Kallsyms.antt =====
-- `load_kallsyms` (aya-test/src/symbolizer.rs): the kernel's symbols from the text of /proc/kallsyms.
use mathlib.Core.List.{Perm}
use aya_e_bpf.Prelude.{
  ℕ, ◌≡◌, List, [], ◌∷◌, ◌++◌, Option, none, some, arith, All, ◌≢◌, refl, ◌==◌, if◌then◌else◌,
}
use aya_e_bpf.Prelude.Bytes.{Bytes}
use aya_e_bpf.Prelude.Decimal.{u64_max, from_radix}
use aya_e_bpf.Symbolizer.{Symbols, addresses}
use aya_e_bpf.Symbolizer.Search.{IsSorted}
use aya_e_bpf.Symbolizer.Sort.{sort_asc, sort_asc-perm, sort_asc-IsSorted}

-- `splitn(n, ' ')` one part at a time: the text up to the first space, and the text behind it.
unfoldable pub cut : Bytes → Bytes × Option Bytes
cut [] = ([], none)
cut (c ∷ s) = let (part, rest) = cut s in if c == b' ' then ([], some s) else (c ∷ part, rest)

-- Address, type and name; what follows a third space is left out.
unfoldable pub parse_symbol : Bytes → Option (ℕ × Bytes)
parse_symbol line =
    let (addr_str, after) = cut line in
    elim after [
      | none ↦ none
      | some behind ↦ elim (cut behind).1 [
        | none ↦ none
        | some third ↦ elim (cut third).0 [
          | [] ↦ none
          | c ∷ name ↦ elim (from_radix 16 u64_max addr_str) [
            | none ↦ none
            | some addr ↦ some (addr, c ∷ name)
          ]
        ]
      ]
    ]

-- `filter_map` over the lines.
unfoldable pub parse_symbols : List Bytes → Symbols
parse_symbols [] = []
parse_symbols (line ∷ lines) = elim (parse_symbol line) [
  | none ↦ parse_symbols lines
  | some s ↦ s ∷ parse_symbols lines
]

-- The lines of the file; none when it cannot be read.
unfoldable pub load_kallsyms : List Bytes → Symbols
load_kallsyms lines = sort_asc (λ s. s.0) (parse_symbols lines)

-- The table of kernel symbols holds the symbols of the lines, each once, by rising address: what the
-- binary search asks for.
pub load_kallsyms-IsSorted :
    (lines : List Bytes)
    → Perm (load_kallsyms lines) (parse_symbols lines) × IsSorted (addresses (load_kallsyms lines))
unfolding load_kallsyms
load_kallsyms-IsSorted lines = (
  sort_asc-perm (λ s. s.0) (parse_symbols lines),
  sort_asc-IsSorted (λ s. s.0) (parse_symbols lines),
)

cut-append :
    (part rest : Bytes) → All (λ c. c ≢ b' ') part → cut (part ++ b' ' ∷ rest) ≡ (part, some rest)
unfolding cut
cut-append [] rest h = refl
cut-append (c ∷ part) rest (hc, h) = ground (arith, cut-append part rest h)

cut_whole : (part : Bytes) → All (λ c. c ≢ b' ') part → cut part ≡ (part, none)
unfolding cut
cut_whole [] h = refl
cut_whole (c ∷ part) (hc, h) = ground (arith, cut_whole part h)

-- A line of an address, a type and a name, with a space between them and none inside, is read as that
-- address and that name, if the address is hexadecimal and the name not empty.
pub parse_symbol_lem :
    (addr kind : Bytes) (c : ℕ) (name : Bytes) (a : ℕ)
    → All (λ x. x ≢ b' ') addr
    → All (λ x. x ≢ b' ') kind
    → All (λ x. x ≢ b' ') (c ∷ name)
    → from_radix 16 u64_max addr ≡ some a
    → parse_symbol (addr ++ b' ' ∷ (kind ++ b' ' ∷ (c ∷ name))) ≡ some (a, c ∷ name)
unfolding parse_symbol
parse_symbol_lem addr kind c name a ha hk hn value =
    let first = cut-append addr (kind ++ b' ' ∷ (c ∷ name)) ha in
    let second = cut-append kind (c ∷ name) hk in
    let third = cut_whole (c ∷ name) hn in
    rw (first, parse_symbol) (rw second (rw third (rw first (rw value refl))))
