-- ===== src/Resp.antt =====
-- aya-test/src/resp.rs: the command name in the 32 request bytes that the probe captured.
pub mod Static
pub mod Slices
pub mod Exact
pub mod Request
pub mod Capture
pub mod RoundTrip
pub mod Misread
pub mod Sound
use aya_e_bpf.Prelude.{
  ℕ, zero, suc, ◌+◌, ◌-◌, ◌%◌, ◌^◌, min, Bool, true, false, ◌&&◌, not, List, [], ◌∷◌, take, drop,
  length, all, Option, none, some, ltb, ◌==◌, if◌then◌else◌,
}
use aya_e_bpf.Prelude.Bytes.{Bytes, codes, same, is_digit, is_alphabetic, upper}
use aya_e_bpf.Prelude.Decimal.{parse, u64_max}

-- `Cow<'static, str>`: a name of the program's own, or one that was allocated.
pub data Cow : Type 0 where
  borrowed : Bytes → Cow
  owned : Bytes → Cow

abbrev pub as_ref : Cow → Bytes
as_ref (borrowed s) = s
as_ref (owned s) = s

-- The arms of the match in `try_static`.
abbrev pub static_arms : List (Bytes × Bytes)
static_arms =
    (codes "GET", codes "GET")
    ∷ (codes "SET", codes "SET")
    ∷ (codes "DEL", codes "DEL")
    ∷ (codes "INCR", codes "INCR")
    ∷ (codes "DECR", codes "DECR")
    ∷ (codes "HGET", codes "HGET")
    ∷ (codes "HSET", codes "HSET")
    ∷ (codes "PING", codes "PING")
    ∷ (codes "INFO", codes "INFO")
    ∷ (codes "MGET", codes "MGET")
    ∷ (codes "MSET", codes "MSET")
    ∷ (codes "KEYS", codes "KEYS")
    ∷ (codes "TYPE", codes "TYPE")
    ∷ (codes "SCAN", codes "SCAN")
    ∷ (codes "QUIT", codes "QUIT")
    ∷ (codes "AUTH", codes "AUTH")
    ∷ (codes "ECHO", codes "ECHO")
    ∷ (codes "EXEC", codes "EXEC")
    ∷ (codes "MULT", codes "MULT")
    ∷ (codes "LPOP", codes "LPOP")
    ∷ (codes "RPOP", codes "RPOP")
    ∷ (codes "LLEN", codes "LLEN")
    ∷ (codes "XADD", codes "XADD")
    ∷ (codes "ZADD", codes "ZADD")
    ∷ (codes "HDEL", codes "HDEL")
    ∷ (codes "HLEN", codes "HLEN")
    ∷ (codes "SADD", codes "SADD")
    ∷ (codes "SPOP", codes "SPOP")
    ∷ (codes "LPUSH", codes "LPUSH")
    ∷ (codes "RPUSH", codes "RPUSH")
    ∷ (codes "SETNX", codes "SETNX")
    ∷ (codes "SETEX", codes "SETEX")
    ∷ (codes "WATCH", codes "WATCH")
    ∷ (codes "XREAD", codes "XREAD")
    ∷ (codes "PUBLISH", codes "PUBLISH")
    ∷ (codes "SELECT", codes "SELECT")
    ∷ (codes "RENAME", codes "RENAME")
    ∷ (codes "EXPIRE", codes "EXPIRE")
    ∷ (codes "APPEND", codes "APPEND")
    ∷ (codes "STRLEN", codes "STRLEN")
    ∷ (codes "UNLINK", codes "UNLINK")
    ∷ (codes "GETSET", codes "GETSET")
    ∷ (codes "GETRANGE", codes "GETRANGE")
    ∷ []

unfoldable pub find_arm : Bytes → List (Bytes × Bytes) → Option Bytes
find_arm bytes [] = none
find_arm bytes ((literal, text) ∷ arms) =
    if same bytes literal then some text else find_arm bytes arms

-- The first arm whose literal is the slice.
unfoldable pub try_static : Bytes → Option Bytes
try_static bytes = find_arm bytes static_arms

-- `iter().position(|b| !b.is_ascii_digit())`, or the length when all are digits.
unfoldable pub digit_run : Bytes → ℕ
digit_run [] = 0
digit_run (c ∷ s) = if is_digit c then suc (digit_run s) else 0

-- `data[i]`; the caller has tested that `i` is in bounds.
unfoldable pub byte_at : Bytes → ℕ → ℕ
byte_at [] i = 0
byte_at (c ∷ s) zero = c
byte_at (c ∷ s) (suc i) = byte_at s i

-- `&data[from..to]` for `from <= to <= len`.
abbrev pub slice : Bytes → ℕ → ℕ → Bytes
slice s from to = take (to - from) (drop from s)

-- One round of the loop in `scan_resp_command`: it returns, or goes on to the next `$`.
pub data Round : Type 0 where
  return : Option Cow → Round
  next : Round

-- The name of a command slice: a static text, or its upper-case copy.
unfoldable pub command_name : Bytes → Cow
command_name bytes = elim (try_static bytes) [ some s ↦ borrowed s | none ↦ owned (upper bytes) ]

-- The command bytes from `cmd_start` on, where `len` were announced. The sum is in `usize`, of 64
-- bits, which wraps in a release build.
unfoldable pub read_command : Bytes → ℕ → ℕ → Round
read_command payload cmd_start len =
    let cmd_end : ℕ = min ((cmd_start + len) % 2 ^ 64) (length payload) in
    let bytes : Bytes = slice payload cmd_start cmd_end in
    if ltb cmd_start cmd_end
    then if all is_alphabetic bytes then return (some (command_name bytes)) else next
    else next

-- The body of the loop for the `$` at `i`.
unfoldable pub round_at : Bytes → ℕ → Round
round_at payload i =
    let start : ℕ = i + 1 in
    let digit_end : ℕ = start + digit_run (drop start payload) in
    if ltb start digit_end
      && (ltb (digit_end + 1) (length payload)
          && (byte_at payload digit_end == b'\r' && byte_at payload (digit_end + 1) == b'\n'))
    then elim (parse u64_max (slice payload start digit_end)) [
      | none ↦ return none
      | some len ↦ read_command payload (digit_end + 2) len
    ]
    else next

-- The loop over the positions of `$`; the second argument is what is left of the payload from `i` on.
unfoldable pub scan_from : Bytes → Bytes → ℕ → Option Cow
scan_from payload [] i = none
scan_from payload (b ∷ rest) i =
    let later : Option Cow = scan_from payload rest (i + 1) in
    if b == b'$' then elim (round_at payload i) [ return r ↦ r | next ↦ later ] else later

unfoldable pub scan_resp_command : Bytes → Option Cow
scan_resp_command payload = scan_from payload payload 0

-- `position(|&b| b == 0).unwrap_or(32)` and the slice up to it.
unfoldable pub before_zero : Bytes → Bytes
before_zero [] = []
before_zero (c ∷ s) = if c == 0 then [] else c ∷ before_zero s

-- What the program calls of the crate `resp` in its fallback, and `str::to_uppercase`, which goes by
-- the Unicode tables: a decoded value, the items of an array, the text of a bulk string.
pub record Decoder : Type 1 where
  pub Value : Type 0
  pub decode : Bytes → Option Value
  pub as_array : Value → Option (List Value)
  pub as_bulk : Value → Option Bytes
  pub to_uppercase : Bytes → Bytes

abbrev pub other : Cow
other = borrowed (codes "OTHER")

unfoldable pub first_bulk : (d : Decoder) → List d.Value → Option Bytes
first_bulk d [] = none
first_bulk d (v ∷ vs) = d.as_bulk v

-- The fallback: the first item of a decoded array, if it is a bulk string.
unfoldable pub decode_command : Decoder → Bytes → Cow
decode_command d payload = elim (d.decode payload) [
  | none ↦ other
  | some v ↦ elim (d.as_array v) [
    | none ↦ other
    | some items ↦ elim (first_bulk d items) [
      | none ↦ other
      | some cmd ↦ owned (d.to_uppercase cmd)
    ]
  ]
]

unfoldable pub classify_command : Decoder → Bytes → Cow
classify_command d req_data =
    let payload : Bytes = before_zero req_data in
    if ltb (length payload) 4
    then other
    else elim (scan_resp_command payload) [ some cmd ↦ cmd | none ↦ decode_command d payload ]
