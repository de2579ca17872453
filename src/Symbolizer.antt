-- ===== src/Symbolizer.antt =====
-- aya-test/src/symbolizer.rs: the names of instruction pointers, by the kernel's symbols and by
-- those of the mapped files (child `User`).
pub mod Search
pub mod Index
pub mod Sort
pub mod Text
pub mod Words
pub mod Hex
pub mod Lines
pub mod Kallsyms
pub mod Nearest
pub mod User
pub mod Maps
pub mod MapLine
pub mod Printed
pub mod Cached
use aya_e_bpf.Prelude.{
  ℕ, zero, suc, ◌+◌, ◌/◌, ◌%◌, Bool, ◌&&◌, List, [], ◌∷◌, ◌++◌, map, get_elem?, Option, none, some,
  ltb, leb, if◌then◌else◌,
}
use aya_e_bpf.Prelude.Bytes.{Bytes, codes}
use aya_e_bpf.Prelude.Decimal.{u64_max}
use aya_e_bpf.Symbolizer.Search.{Found, ok_at, err_at, BinarySearch}

-- The lower-case hexadecimal digits of `n` before `rest`; the fuel is more than the digits needed.
abbrev hex_digit : ℕ → ℕ
hex_digit d = if ltb d 10 then b'0' + d else b'W' + d

hex_before : ℕ → ℕ → Bytes → Bytes
hex_before zero n rest = rest
hex_before (suc fuel) n rest =
    let more = hex_before fuel (n / 16) (hex_digit (n % 16) ∷ rest) in
    if ltb n 16 then hex_digit n ∷ rest else more

-- `format!("{:x}", n)`
unfoldable pub hex : ℕ → Bytes
unfolding hex_before
hex n = hex_before (suc n) n []

-- `Vec<(u64, String)>`
abbrev pub Symbols : Type 0
Symbols = List (ℕ × Bytes)

-- `|(a, _)| *a`
abbrev pub addresses : Symbols → List ℕ
addresses = map (λ s. s.0)

-- The address of the symbol after the one at `idx`.
unfoldable pub next_addr : Symbols → ℕ → ℕ
next_addr syms idx = elim (get_elem? syms (idx + 1)) [ none ↦ u64_max | some s ↦ s.0 ]

-- `format!("[k] 0x{:x}", ip)`
unfoldable pub unknown_kernel : ℕ → Bytes
unknown_kernel ip = codes "[k] 0x" ++ hex ip

-- The name of the symbol at `idx`, if it covers the address.
unfoldable pub kernel_name : Symbols → ℕ → ℕ → Bytes
kernel_name ksyms ip idx = elim (get_elem? ksyms idx) [
  | none ↦ unknown_kernel ip
  | some s ↦
      if leb s.0 ip && ltb ip (next_addr ksyms idx) then codes "[k] " ++ s.1 else unknown_kernel ip
]

unfoldable pub resolve_kernel : BinarySearch → Symbols → ℕ → Bytes
resolve_kernel b ksyms ip = elim (b.search (addresses ksyms) ip) [
  | ok_at i ↦ kernel_name ksyms ip i
  | err_at zero ↦ unknown_kernel ip
  | err_at (suc i) ↦ kernel_name ksyms ip i
]
