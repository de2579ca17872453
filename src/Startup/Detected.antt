-- ===== src/Startup/Detected.antt =====
-- The process that the sampler gets (aya-test/src/main.rs, `resolve_redis_pid`).
use aya_e_bpf.Prelude.{
  ℕ, ◌≡◌, ◌<◌, ◌⊎◌, refl, true, false, ◌&&◌, sym, ap, ◌∙◌, Bool, arith, List, [], ◌∷◌, Option, none,
  some, ltb, if◌then◌else◌, All, Bool-cases, Option-cases, inl, inr,
}
use aya_e_bpf.Prelude.Bytes.{Bytes, codes, same, same→eq}
use aya_e_bpf.Prelude.Decimal.{parse, u32_max}
use aya_e_bpf.Prelude.Text.{trim}
use aya_e_bpf.Startup.{World}
use aya_e_bpf.Startup.Resolve.{is_server, pid_of_entry, scan_proc, pid_of_file, resolve_redis_pid}

-- The file can be read and holds the number, which is above 1 and that of a process.
pub record IsNamed (w : World) (pid_file : Bytes) (pid : ℕ) : Type 0 where
  pub text : Bytes
  pub read : w.read_to_string pid_file ≡ some text
  pub number : parse u32_max (trim text) ≡ some pid
  pub above_one : 1 < pid
  pub runs : w.exists pid ≡ true

-- The entry has a number above 1 as its name, and the process has the name of a server.
pub record IsServer (entry : Bytes × Option Bytes) (pid : ℕ) : Type 0 where
  pub comm : Bytes
  pub read : entry.1 ≡ some comm
  pub server : (trim comm ≡ codes "redis-server") ⊎ (trim comm ≡ codes "valkey-server")
  pub number : parse u32_max entry.0 ≡ some pid
  pub above_one : 1 < pid

-- An entry that holds a server, with none before it.
pub data IsFirst : List (Bytes × Option Bytes) → ℕ → Type 0 where
  found :
      {e : Bytes × Option Bytes} {es : List (Bytes × Option Bytes)} {pid : ℕ}
      → IsServer e pid
      → IsFirst (e ∷ es) pid
  later :
      {e : Bytes × Option Bytes} {es : List (Bytes × Option Bytes)} {pid : ℕ}
      → ((other : ℕ) → ¬ IsServer e other)
      → IsFirst es pid
      → IsFirst (e ∷ es) pid

abbrev pub NoServer : List (Bytes × Option Bytes) → Type 0
NoServer = All (λ e. (pid : ℕ) → ¬ IsServer e pid)

-- Where the number comes from.
pub data IsTarget (w : World) (pid_file : Bytes) (pid : ℕ) : Type 0 where
  named : IsNamed w pid_file pid → IsTarget w pid_file pid
  detected :
      (entries : List (Bytes × Option Bytes))
      → ((other : ℕ) → ¬ IsNamed w pid_file other)
      → w.read_proc ≡ some entries
      → IsFirst entries pid
      → IsTarget w pid_file pid
  unlisted :
      ((other : ℕ) → ¬ IsNamed w pid_file other)
      → w.read_proc ≡ none
      → pid ≡ 0
      → IsTarget w pid_file pid
  missing :
      (entries : List (Bytes × Option Bytes))
      → ((other : ℕ) → ¬ IsNamed w pid_file other)
      → w.read_proc ≡ some entries
      → NoServer entries
      → pid ≡ 0
      → IsTarget w pid_file pid

above_one_inv :
    (test : Bool) (n pid : ℕ)
    → (if ltb 1 n && test then some n else none) ≡ some pid
    → (n ≡ pid) × (1 < n) × (test ≡ true)
above_one_inv true n pid h = (ground (arith, h), ground (arith, h), refl)
above_one_inv false n pid h = absurd (ground (arith, h))

pid_of_file-IsNamed :
    (w : World) (pid_file : Bytes) (pid : ℕ)
    → pid_of_file w pid_file ≡ some pid
    → IsNamed w pid_file pid
unfolding pid_of_file
pid_of_file-IsNamed w pid_file pid h = elim (Option-cases (w.read_to_string pid_file)) [
  | inl unread ↦ absurd (ground (arith, h, unread))
  | inr (text, read) ↦ elim (Option-cases (parse u32_max (trim text))) [
    | inl no_number ↦ absurd (ground (arith, h, read, no_number))
    | inr (n, number) ↦
        let chosen : (if ltb 1 n && w.exists n then some n else none) ≡ some pid =
          sym (rw (read, number, pid_of_file) refl) ∙ h in
        let (same_pid, above, alive) = above_one_inv (w.exists n) n pid chosen in
        record {
          text = text;
          read = read;
          number = number ∙ ap some same_pid;
          above_one = omega (arith, same_pid, above);
          runs = sym (ap w.exists same_pid) ∙ alive;
        }
  ]
]

named-pid_of_file :
    (w : World) (pid_file : Bytes) (pid : ℕ)
    → IsNamed w pid_file pid
    → pid_of_file w pid_file ≡ some pid
unfolding pid_of_file
named-pid_of_file w pid_file pid h =
    rw (h.read, h.number, h.runs, pid_of_file) (ground (arith, h.above_one))

-- The number of an entry that is a server.
unfoldable pub server_pid : Bytes × Option Bytes → Option ℕ
server_pid (name, none) = none
server_pid (name, some comm) = if is_server (trim comm) then pid_of_entry name else none

is_server_cases :
    (comm : Bytes)
    → is_server comm ≡ true
    → (comm ≡ codes "redis-server") ⊎ (comm ≡ codes "valkey-server")
unfolding is_server
is_server_cases comm h = elim (Bool-cases (same comm (codes "valkey-server"))) [
  | inl t ↦ inr (same→eq comm (codes "valkey-server") t)
  | inr t ↦ inl (same→eq comm (codes "redis-server") (ground (arith, h, t)))
]

server-is_server :
    (comm : Bytes)
    → (comm ≡ codes "redis-server") ⊎ (comm ≡ codes "valkey-server")
    → is_server comm ≡ true
unfolding is_server same
server-is_server comm (inl e) = rw e refl
server-is_server comm (inr e) = rw e refl

server_pid-IsServer :
    (e : Bytes × Option Bytes) (pid : ℕ) → server_pid e ≡ some pid → IsServer e pid
unfolding server_pid pid_of_entry
server_pid-IsServer (name, none) pid h = absurd (ground (arith, h))
server_pid-IsServer (name, some comm) pid h = elim (Bool-cases (is_server (trim comm))) [
  | inr other ↦ absurd (ground (arith, h, other))
  | inl server ↦ elim (Option-cases (parse u32_max name)) [
    | inl no_number ↦ absurd (ground (arith, h, server, no_number))
    | inr (n, number) ↦
        let chosen : (if ltb 1 n && true then some n else none) ≡ some pid =
          ground (arith, h, server, number) in
        let (same_pid, above, _) = above_one_inv true n pid chosen in
        record {
          comm = comm;
          read = refl;
          server = is_server_cases (trim comm) server;
          number = number ∙ ap some same_pid;
          above_one = omega (arith, same_pid, above);
        }
  ]
]

IsServer-server_pid :
    (e : Bytes × Option Bytes) (pid : ℕ) → IsServer e pid → server_pid e ≡ some pid
unfolding server_pid pid_of_entry
IsServer-server_pid (name, read) pid h =
    rw (h.read, server-is_server (trim h.comm) h.server, h.number, server_pid, pid_of_entry)
      (ground (arith, h.above_one))

no-IsServer : (e : Bytes × Option Bytes) → server_pid e ≡ none → (pid : ℕ) → ¬ IsServer e pid
no-IsServer e t pid h = absurd (ground (arith, sym t ∙ IsServer-server_pid e pid h))

not-IsNamed :
    (w : World) (pid_file : Bytes)
    → pid_of_file w pid_file ≡ none
    → (pid : ℕ) → ¬ IsNamed w pid_file pid
not-IsNamed w pid_file t pid h = absurd (ground (arith, sym t ∙ named-pid_of_file w pid_file pid h))

scan_proc-cons :
    (e : Bytes × Option Bytes) (es : List (Bytes × Option Bytes))
    → scan_proc (e ∷ es) ≡ elim (server_pid e) [ none ↦ scan_proc es | some pid ↦ pid ]
unfolding scan_proc server_pid
scan_proc-cons (name, none) es = refl
scan_proc-cons (name, some comm) es = elim (Bool-cases (is_server (trim comm))) [
  | inl t ↦ rw t refl
  | inr t ↦ rw t refl
]

scan_proc_cases :
    (es : List (Bytes × Option Bytes))
    → IsFirst es (scan_proc es) ⊎ (NoServer es × (scan_proc es ≡ 0))
unfolding scan_proc
scan_proc_cases [] = inr (tt, refl)
scan_proc_cases (e ∷ es) = elim (Option-cases (server_pid e)) [
  | inl t ↦
      rw (scan_proc-cons e es, t)
        (elim (scan_proc_cases es) [
          | inl first ↦ inl (later (no-IsServer e t) first)
          | inr (none_there, zero_pid) ↦ inr ((no-IsServer e t, none_there), zero_pid)
        ])
  | inr (pid, t) ↦ rw (scan_proc-cons e es, t) (inl (found (server_pid-IsServer e pid t)))
]

resolve_redis_pid-unlisted :
    (w : World) (pid_file : Bytes)
    → pid_of_file w pid_file ≡ none
    → w.read_proc ≡ none
    → resolve_redis_pid w pid_file ≡ 0
unfolding resolve_redis_pid
resolve_redis_pid-unlisted w pid_file t unread = rw (t, resolve_redis_pid) (rw unread refl)

resolve_redis_pid-scan_proc :
    (w : World) (pid_file : Bytes) (entries : List (Bytes × Option Bytes))
    → pid_of_file w pid_file ≡ none
    → w.read_proc ≡ some entries
    → resolve_redis_pid w pid_file ≡ scan_proc entries
unfolding resolve_redis_pid
resolve_redis_pid-scan_proc w pid_file entries t listing =
    rw (t, resolve_redis_pid) (rw listing refl)

-- The sampler gets the number in the pid file, if it is above 1 and there is such a process; else that of
-- the first entry of `/proc` whose trimmed name is that of a server and whose number is above 1; and
-- when there is none, 0.
pub resolve_redis_pid-IsTarget :
    (w : World) (pid_file : Bytes) → IsTarget w pid_file (resolve_redis_pid w pid_file)
unfolding resolve_redis_pid
resolve_redis_pid-IsTarget w pid_file = elim (Option-cases (pid_of_file w pid_file)) [
  | inr (pid, t) ↦ rw (t, resolve_redis_pid) (named (pid_of_file-IsNamed w pid_file pid t))
  | inl t ↦
      let unnamed = not-IsNamed w pid_file t in
      elim (Option-cases w.read_proc) [
        | inl unread ↦
            rw (resolve_redis_pid-unlisted w pid_file t unread) (unlisted unnamed unread refl)
        | inr (entries, listing) ↦
            rw (resolve_redis_pid-scan_proc w pid_file entries t listing)
              (elim (scan_proc_cases entries) [
                | inl first ↦ detected entries unnamed listing first
                | inr (none_there, zero_pid) ↦
                    rw zero_pid (missing entries unnamed listing none_there refl)
              ])
      ]
]
