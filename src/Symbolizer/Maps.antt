-- ===== src/Symbolizer/Maps.antt =====
-- `parse_maps` (aya-test/src/symbolizer.rs): the mapped files of a process, from its `maps` file.
use mathlib.Core.List.{Perm}
use aya_e_bpf.Prelude.{
  ℕ, zero, suc, ◌+◌, ◌≤◌, ◌<◌, ◌≡◌, Bool, ◌||◌, false, List, [], ◌∷◌, map, length, get_elem?,
  Option, none, some, arith, ltb, ◌==◌, if◌then◌else◌, inl, inr,
}
use aya_e_bpf.Prelude.Bytes.{Bytes}
use aya_e_bpf.Prelude.Decimal.{u64_max, from_radix}
use aya_e_bpf.Symbolizer.Index.{search_index}
use aya_e_bpf.Symbolizer.Kallsyms.{load_kallsyms}
use aya_e_bpf.Symbolizer.Search.{IsSorted, IsStrict, BinarySearch}
use aya_e_bpf.Symbolizer.Sort.{sort_asc, sort_asc-perm, sort_asc-IsSorted}
use aya_e_bpf.Symbolizer.Text.{pieces, words}
use aya_e_bpf.Symbolizer.User.{MemMapping, Symbolizer, covering, mapping_of}

abbrev hex_u64 : Bytes → Option ℕ
hex_u64 = from_radix 16 u64_max

-- `parts[i]`; the caller has tested that `i` is in bounds.
unfoldable pub word_at : List Bytes → ℕ → Bytes
word_at ps i = elim (get_elem? ps i) [ none ↦ [] | some w ↦ w ]

-- `path_name.starts_with('[')`
unfoldable pub is_special : Bytes → Bool
is_special [] = false
is_special (c ∷ s) = c == b'['

-- The mapping of the fields, if the numbers are hexadecimal and it is of a file.
unfoldable pub mapping_from : Bytes → Bytes → Bytes → Bytes → Option MemMapping
mapping_from first second third path_name = elim (hex_u64 first) [
  | none ↦ none
  | some start ↦ elim (hex_u64 second) [
    | none ↦ none
    | some end ↦ elim (hex_u64 third) [
      | none ↦ none
      | some offset ↦
          if start == 0 || is_special path_name
          then none
          else some (record { start = start; end = end; offset = offset; path = path_name })
    ]
  ]
]

-- A line: the addresses, the permissions, the offset, two more fields and the path.
unfoldable pub parse_mapping : Bytes → Option MemMapping
parse_mapping line =
    let ps : List Bytes = words line in
    if ltb (length ps) 6 then none else elim (pieces (λ c. c == b'-') (word_at ps 0)).1 [
      | [] ↦ none
      | second ∷ [] ↦
          mapping_from (pieces (λ c. c == b'-') (word_at ps 0)).0 second (word_at ps 2)
            (word_at ps 5)
      | second ∷ more ∷ rest ↦ none
    ]

-- `filter_map` over the lines.
unfoldable pub parse_mappings : List Bytes → List MemMapping
parse_mappings [] = []
parse_mappings (line ∷ lines) = elim (parse_mapping line) [
  | none ↦ parse_mappings lines
  | some m ↦ m ∷ parse_mappings lines
]

-- The lines of the file; none when it cannot be read.
unfoldable pub parse_maps : List Bytes → List MemMapping
parse_maps lines = sort_asc (λ m. m.start) (parse_mappings lines)

-- `Symbolizer::new`, given the lines of both files.
unfoldable pub new_symbolizer : List Bytes → List Bytes → Symbolizer
new_symbolizer maps kallsyms = record {
  mappings = parse_maps maps;
  symbol_cache = [];
  ksyms = load_kallsyms kallsyms;
}

-- The mappings are those of the lines, each once, by rising start.
pub parse_maps-IsSorted :
    (lines : List Bytes)
    → Perm (parse_maps lines) (parse_mappings lines)
      × IsSorted (map (λ m. m.start) (parse_maps lines))
unfolding parse_maps
parse_maps-IsSorted lines = (
  sort_asc-perm (λ m. m.start) (parse_mappings lines),
  sort_asc-IsSorted (λ m. m.start) (parse_mappings lines),
)

get_elem?-starts :
    (ms : List MemMapping) (i : ℕ) (m : MemMapping)
    → get_elem? ms i ≡ some m
    → get_elem? (map (λ m. m.start) ms) i ≡ some m.start
get_elem?-starts [] i m e = absurd (ground arith)
get_elem?-starts (x ∷ xs) zero m e = ground arith
get_elem?-starts (x ∷ xs) (suc i) m e = get_elem?-starts xs i m e

-- With the mappings in strict order, an address inside a mapping, and below the start of the next one,
-- is found in that mapping.
pub mapping_of-covering :
    (b : BinarySearch) (ms : List MemMapping) (ip i : ℕ) (m : MemMapping)
    → IsStrict (map (λ m. m.start) ms)
    → get_elem? ms i ≡ some m
    → m.start ≤ ip
    → ip < m.end
    → ((c : ℕ) → get_elem? (map (λ m. m.start) ms) (i + 1) ≡ some c → ip < c)
    → mapping_of b ms ip ≡ some m
unfolding mapping_of covering
mapping_of-covering b ms ip i m strict here from inside to =
    elim (search_index (map (λ m. m.start) ms) ip i m.start strict (get_elem?-starts ms i m here)
      from to b) [ inl e ↦ rw (e, mapping_of) here | inr e ↦ rw (e, mapping_of) (ground arith) ]
