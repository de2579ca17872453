-- ===== src/Stats/Format.antt =====
-- The formatting helpers (aya-test/src/stats.rs).
use aya_e_bpf.Prelude.{
  ℕ, Bool, true, ◌||◌, Option, none, some, get_elem?, ◌-◌, ◌/◌, ◌%◌, ◌^◌, ◌∷◌, ◌++◌, length, take,
  replicate, ltb, leb, if◌then◌else◌,
}
use aya_e_bpf.Prelude.Bytes.{Bytes, codes}
use aya_e_bpf.Prelude.Decimal.{display}
use aya_e_bpf.Stats.Metrics.{Metrics}

-- `format!("{:>w}", s)`
unfoldable pub pad_left : ℕ → Bytes → Bytes
pad_left w s = replicate (w - length s) b' ' ++ s

-- `str::is_char_boundary` inside the text: the byte at the index does not continue a character of UTF-8.
unfoldable pub is_char_boundary : Bytes → ℕ → Bool
is_char_boundary name i = elim (get_elem? name i) [
  | none ↦ true
  | some c ↦ ltb c 0x80 || leb 0xC0 c
]

-- `&name[..max]` when the name is longer; `none` when the slice panics, inside a character.
unfoldable pub truncate_cmd : Bytes → ℕ → Option Bytes
truncate_cmd name max =
    if leb (length name) max
    then some name
    else if is_char_boundary name max
    then some (take max name)
    else none

-- The four bytes of the address, highest first: `(ip >> k) & 0xFF`.
unfoldable pub ipv4_str : ℕ → Bytes
ipv4_str ip =
    display (ip / 2 ^ 24 % 2 ^ 8)
    ++ (b'.'
        ∷ (display (ip / 2 ^ 16 % 2 ^ 8)
            ++ (b'.' ∷ (display (ip / 2 ^ 8 % 2 ^ 8) ++ (b'.' ∷ display (ip % 2 ^ 8))))))

module _ (m : Metrics) where
  open m use {Float, lit, of_u64, div, lt, fmt}

  unfoldable pub fmt_latency : Float → Bytes
  fmt_latency us =
      if lt us (lit 10_000 0)
      then fmt 11 2 us ++ codes " us"
      else if lt us (lit 10_000_000 0)
      then fmt 11 2 (div us (lit 1000 0)) ++ codes " ms"
      else fmt 11 2 (div us (lit 1_000_000 0)) ++ codes " s "

  unfoldable pub fmt_throughput : Float → Bytes
  fmt_throughput rps =
      if lt rps (lit 1000 0)
      then fmt 11 2 rps ++ codes " /s"
      else if lt rps (lit 1_000_000 0)
      then fmt 11 2 (div rps (lit 1000 0)) ++ codes " K/s"
      else fmt 11 2 (div rps (lit 1_000_000 0)) ++ codes " M/s"

  unfoldable pub fmt_bytes_per_sec : Float → Bytes
  fmt_bytes_per_sec bps =
      if lt bps (lit 1024 0)
      then fmt 11 2 bps ++ codes " B/s"
      else if lt bps (lit 1_048_576 0)
      then fmt 11 2 (div bps (lit 1024 0)) ++ codes " KB/s"
      else fmt 11 2 (div bps (lit 1_048_576 0)) ++ codes " MB/s"

  unfoldable pub fmt_bytes_cell : ℕ → Bytes
  fmt_bytes_cell bytes =
      if ltb bytes 1024
      then pad_left 12 (display bytes) ++ codes " B"
      else if ltb bytes 1_048_576
      then fmt 11 1 (div (of_u64 bytes) (lit 1024 0)) ++ codes " KB"
      else if ltb bytes 1_073_741_824
      then fmt 11 1 (div (of_u64 bytes) (lit 1_048_576 0)) ++ codes " MB"
      else fmt 11 2 (div (of_u64 bytes) (lit 1_073_741_824 0)) ++ codes " GB"
