-- ===== src/Startup/Resolve.antt =====
-- aya-test/src/main.rs: `resolve_redis_pid`.
use aya_e_bpf.Prelude.{ℕ, Bool, ◌&&◌, ◌||◌, List, [], ◌∷◌, Option, none, some, ltb, if◌then◌else◌}
use aya_e_bpf.Prelude.Bytes.{Bytes, codes, same}
use aya_e_bpf.Prelude.Decimal.{parse, u32_max}
use aya_e_bpf.Prelude.Text.{trim}
use aya_e_bpf.Startup.{World}

-- The name of the process, trimmed.
unfoldable pub is_server : Bytes → Bool
is_server comm = same comm (codes "valkey-server") || same comm (codes "redis-server")

-- A number from the name of an entry that is above 1.
unfoldable pub pid_of_entry : Bytes → Option ℕ
pid_of_entry name = elim (parse u32_max name) [
  | none ↦ none
  | some pid ↦ if ltb 1 pid then some pid else none
]

-- The first entry of `/proc` that is a server, else 0.
unfoldable pub scan_proc : List (Bytes × Option Bytes) → ℕ
scan_proc [] = 0
scan_proc ((name, none) ∷ entries) = scan_proc entries
scan_proc ((name, some comm) ∷ entries) =
    let rest = scan_proc entries in
    if is_server (trim comm)
    then (elim (pid_of_entry name) [ none ↦ rest | some pid ↦ pid ])
    else rest

module _ (w : World) where
  -- The number in the file, if there is such a process.
  unfoldable pub pid_of_file : Bytes → Option ℕ
  pid_of_file pid_file = elim (w.read_to_string pid_file) [
    | none ↦ none
    | some text ↦ elim (parse u32_max (trim text)) [
      | none ↦ none
      | some pid ↦ if ltb 1 pid && w.exists pid then some pid else none
    ]
  ]

  unfoldable pub resolve_redis_pid : Bytes → ℕ
  resolve_redis_pid pid_file = elim (pid_of_file pid_file) [
    | some pid ↦ pid
    | none ↦ elim w.read_proc [ none ↦ 0 | some entries ↦ scan_proc entries ]
  ]
