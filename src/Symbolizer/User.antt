-- ===== src/Symbolizer/User.antt =====
-- The names of user-space addresses (aya-test/src/symbolizer.rs): `load_syms` and `resolve`.
use aya_e_bpf.Prelude.{
  ℕ, zero, suc, ◌+◌, ◌-◌, ◌%◌, ◌^◌, ◌&&◌, ◌||◌, List, [], ◌∷◌, ◌++◌, map, get_elem?, Option, none,
  some, ltb, leb, ◌==◌, if◌then◌else◌,
}
use aya_e_bpf.Prelude.Assoc.{bytes_eq, lookup, insert}
use aya_e_bpf.Prelude.Bytes.{Bytes, codes, same}
use aya_e_bpf.Symbolizer.{Symbols, addresses, next_addr, hex}
use aya_e_bpf.Symbolizer.Sort.{sort_asc}
use aya_e_bpf.Symbolizer.Text.{pieces}
use aya_e_bpf.Symbolizer.Search.{ok_at, err_at, BinarySearch}

pub record MemMapping : Type 0 where
  pub start : ℕ  -- u64
  pub end : ℕ  -- u64
  pub offset : ℕ  -- u64
  pub path : Bytes

-- What the program reads of an ELF file that the crate `goblin` has parsed.
pub record Sym : Type 0 where
  pub st_name : ℕ
  pub st_value : ℕ
  pub st_shndx : ℕ

pub record Elf : Type 0 where
  pub syms : List Sym
  pub dynsyms : List Sym
  pub strtab : ℕ → Option Bytes
  pub dynstrtab : ℕ → Option Bytes

-- The file system and `goblin`.
pub record Binaries : Type 0 where
  pub read : Bytes → Option Bytes
  pub parse : Bytes → Option Elf

pub record Symbolizer : Type 0 where
  pub mappings : List MemMapping
  pub symbol_cache : List (Bytes × Symbols)
  pub ksyms : Symbols

-- The defined symbols that have a name: `filter` and `filter_map`.
unfoldable pub named_syms : (ℕ → Option Bytes) → List Sym → Symbols
named_syms get_at [] = []
named_syms get_at (sym ∷ rest) =
    let later : Symbols = named_syms get_at rest in
    if sym.st_value == 0 || sym.st_shndx == 0 then later else elim (get_at sym.st_name) [
      | none ↦ later
      | some [] ↦ later
      | some (c ∷ name) ↦ (sym.st_value, c ∷ name) ∷ later
    ]

-- `.symtab`, or `.dynsym` when that is empty.
unfoldable pub elf_syms : Elf → Symbols
elf_syms elf = elim elf.syms [
  | [] ↦ named_syms elf.dynstrtab elf.dynsyms
  | sym ∷ rest ↦ named_syms elf.strtab (sym ∷ rest)
]

-- The sorted symbols of a file; none when it cannot be read or parsed.
unfoldable pub read_syms : Binaries → Bytes → Symbols
read_syms bins path =
    sort_asc (λ s. s.0)
      (elim (bins.read path) [
        | none ↦ []
        | some image ↦ elim (bins.parse image) [ none ↦ [] | some elf ↦ elf_syms elf ]
      ])

unfoldable pub load_syms : Binaries → Symbolizer → Bytes → Symbolizer × Symbols
load_syms bins s path = elim (lookup path s.symbol_cache) [
  | some syms ↦ (s, syms)
  | none ↦ (
    record s { symbol_cache = insert path (read_syms bins path) s.symbol_cache },
    read_syms bins path,
  )
]

-- The last of the parts of a path that are neither empty nor `.`.
unfoldable pub last_part : List Bytes → Option Bytes → Option Bytes
last_part [] found = found
last_part (p ∷ ps) found = last_part ps (if same p [] || same p (codes ".") then found else some p)

-- `Path::file_name`, and the empty text when there is none.
unfoldable pub file_name : Bytes → Bytes
file_name path =
    let (first, rest) = pieces (λ c. c == b'/') path in
    elim (last_part (first ∷ rest) none) [
      | none ↦ []
      | some p ↦ if same p (codes "..") then [] else p
    ]

-- `format!("{}!+0x{:x}", fname, file_off)`
unfoldable pub offset_name : Bytes → ℕ → Bytes
offset_name path file_off = file_name path ++ (codes "!+0x" ++ hex file_off)

-- The name of the symbol at `idx`, if it covers the offset.
unfoldable pub symbol_name : Symbols → Bytes → ℕ → ℕ → Bytes
symbol_name syms path file_off idx = elim (get_elem? syms idx) [
  | none ↦ offset_name path file_off
  | some s ↦
      if leb s.0 file_off && ltb file_off (next_addr syms idx)
      then s.1
      else offset_name path file_off
]

unfoldable pub user_name : BinarySearch → Symbols → Bytes → ℕ → Bytes
user_name b syms path file_off = elim (b.search (addresses syms) file_off) [
  | ok_at i ↦ symbol_name syms path file_off i
  | err_at zero ↦ offset_name path file_off
  | err_at (suc i) ↦ symbol_name syms path file_off i
]

-- The mapping at `idx`, if it covers the address.
unfoldable pub covering : List MemMapping → ℕ → ℕ → Option MemMapping
covering mappings ip idx = elim (get_elem? mappings idx) [
  | none ↦ none
  | some m ↦ if leb m.start ip && ltb ip m.end then some m else none
]

unfoldable pub mapping_of : BinarySearch → List MemMapping → ℕ → Option MemMapping
mapping_of b mappings ip = elim (b.search (map (λ m. m.start) mappings) ip) [
  | ok_at i ↦ get_elem? mappings i
  | err_at zero ↦ none
  | err_at (suc i) ↦ covering mappings ip i
]

-- `ip - mapping.start + mapping.offset` in `u64`.
unfoldable pub file_offset : MemMapping → ℕ → ℕ
file_offset m ip = (ip - m.start + m.offset) % 2 ^ 64

unfoldable pub resolve : BinarySearch → Binaries → Symbolizer → ℕ → Symbolizer × Bytes
resolve b bins s ip = elim (mapping_of b s.mappings ip) [
  | none ↦ (s, codes "0x" ++ hex ip)
  | some m ↦
      let (t, syms) = load_syms bins s m.path in (t, user_name b syms m.path (file_offset m ip))
]
