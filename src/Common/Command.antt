-- ===== src/Common/Command.antt =====
-- `RedisCommand`, its names and `RedisCommand::detect` (aya-test-common/src/lib.rs).
pub mod Detect
use aya_e_bpf.Prelude.{
  ℕ, zero, suc, Bool, true, false, ◌||◌, not, List, [], ◌∷◌, take, length, Option, none, some, ltb,
  leb, ◌==◌, if◌then◌else◌,
}
use aya_e_bpf.Prelude.Bytes.{Bytes, codes, same}

pub data RedisCommand : Type 0 where
  unknown get set del incr hget hset lpush publish ping info mget mset : RedisCommand

unfoldable pub name : RedisCommand → Bytes
name unknown = codes "UNKNOWN"
name get = codes "GET"
name set = codes "SET"
name del = codes "DEL"
name incr = codes "INCR"
name hget = codes "HGET"
name hset = codes "HSET"
name lpush = codes "LPUSH"
name publish = codes "PUBLISH"
name ping = codes "PING"
name info = codes "INFO"
name mget = codes "MGET"
name mset = codes "MSET"

-- `slice::windows`: the runs of `n` neighbours, in order.
unfoldable pub windows : ℕ → Bytes → List Bytes
windows n [] = []
windows n (x ∷ xs) = if leb n (length (x ∷ xs)) then take n (x ∷ xs) ∷ windows n xs else []

-- `Iterator::any` for equality with the keyword.
unfoldable pub any_same : Bytes → List Bytes → Bool
any_same keyword [] = false
any_same keyword (w ∷ ws) = same w keyword || any_same keyword ws

unfoldable pub has_keyword : Bytes → Bytes → Bool
unfolding windows any_same
has_keyword payload keyword = any_same keyword (windows (length keyword) payload)

abbrev pub table : List (Bytes × RedisCommand)
table =
    (codes "GET", get)
    ∷ (codes "SET", set)
    ∷ (codes "DEL", del)
    ∷ (codes "INCR", incr)
    ∷ (codes "HGET", hget)
    ∷ (codes "HSET", hset)
    ∷ (codes "LPUSH", lpush)
    ∷ (codes "PUBLISH", publish)
    ∷ (codes "PING", ping)
    ∷ (codes "INFO", info)
    ∷ (codes "MGET", mget)
    ∷ (codes "MSET", mset)
    ∷ []

-- `find`, `map` and `unwrap_or(Unknown)`.
unfoldable pub find_command : Bytes → List (Bytes × RedisCommand) → RedisCommand
find_command payload [] = unknown
find_command payload ((keyword, cmd) ∷ rest) =
    if has_keyword payload keyword then cmd else find_command payload rest

-- `data.first() != Some(&b'*')`
unfoldable pub not_array : Bytes → Bool
not_array [] = true
not_array (b ∷ rest) = not (b == b'*')

unfoldable pub detect : Bytes → RedisCommand
unfolding find_command not_array
detect payload =
    if ltb (length payload) 3 || not_array payload then unknown else find_command payload table
