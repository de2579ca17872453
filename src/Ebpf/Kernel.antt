-- ===== src/Ebpf/Kernel.antt =====
-- What the probes (aya-test-ebpf/src/main.rs) use of the kernel and of aya-ebpf, as an interface: a
-- hash map, ring buffers, and the helpers that read memory and walk stacks.
use aya_e_bpf.Prelude.{
  ℕ, ◌*◌, ◌^◌, ◌<◌, ◌≡◌, Bool, true, false, List, [], ◌∷◌, ◌++◌, Option, none, some, length, ◌==◌,
  if◌then◌else◌,
}
use aya_e_bpf.Prelude.Bytes.{Bytes}
use aya_e_bpf.Prelude.Int.{ℤ}
use aya_e_bpf.Common.Event.{LatencyEvent, StackEvent}

-- The context of a request between its receive and its send.
pub record ReqCtx : Type 0 where
  pub start_ns : ℕ  -- u64
  pub iov_base : ℕ  -- u64
  pub client_packed : ℕ  -- u64
  pub req_data : Bytes  -- [u8; 32]

-- A BPF hash map with `u32` keys. `insert` may be refused, as when the map is full; `write` stores
-- through the pointer that `get_ptr_mut` gave for a key that is present.
pub record Table (V : Type 0) : Type 1 where
  pub Map : Type 0
  pub get : Map → ℕ → Option V
  pub insert : Map → ℕ → V → Map
  pub accepts : Map → ℕ → Bool
  pub remove : Map → ℕ → Map
  pub write : Map → ℕ → V → Map
  pub get-insert :
      (m : Map) (key j : ℕ) (v : V)
      → accepts m key ≡ true
      → get (insert m key v) j ≡ (if key == j then some v else get m j)
  pub get-insert_refused :
      (m : Map) (key j : ℕ) (v : V) → accepts m key ≡ false → get (insert m key v) j ≡ get m j
  pub get-remove :
      (m : Map) (key j : ℕ) → get (remove m key) j ≡ (if key == j then none else get m j)
  pub get-write :
      (m : Map) (key j : ℕ) (v old : V)
      → get m key ≡ some old
      → get (write m key v) j ≡ (if key == j then some v else get m j)

-- A BPF ring buffer: the records that were written, oldest first, each with its wake-up flag. A record
-- that does not fit is dropped.
pub record Ring (A : Type 0) : Type 1 where
  pub Buffer : Type 0
  pub records : Buffer → List (A × ℕ)
  pub output : Buffer → A → ℕ → Buffer
  pub fits : Buffer → Bool
  pub records-output :
      (b : Buffer) (a : A) (flags : ℕ)
      → fits b ≡ true
      → records (output b a flags) ≡ records b ++ (a, flags) ∷ []
  pub records-output_full :
      (b : Buffer) (a : A) (flags : ℕ) → fits b ≡ false → records (output b a flags) ≡ records b

-- One call of a probe: the current task, the CPU, the clock, and the arguments of the hooked function
-- or its return value. `pid` is `ctx.pid()`, the id of the thread, and `tgid` is `ctx.tgid()`, the id
-- of its process.
pub record Call : Type 0 where
  pub pid : ℕ  -- u32
  pub tgid : ℕ  -- u32
  pub cpu : ℕ  -- u32
  pub now_ns : ℕ  -- u64
  pub sk : ℕ  -- u64, the first argument
  pub msg : ℕ  -- u64, the second argument
  pub retval : Option ℤ  -- i64

-- The kernel, as the probes see it; what memory and stacks hold depends on the call. `read_kernel c n addr old` reads a word of `n` bytes over `old` and
-- gives the new word and the return code; `read_user c addr old` reads 32 bytes over `old`;
-- `get_stack c user old` fills 20 instruction pointers over `old` and gives the number of bytes, or an
-- error.
pub record Kernel : Type 1 where
  pub requests : Table ReqCtx
  pub latencies : Ring LatencyEvent
  pub stacks : Ring StackEvent
  pub read_kernel : Call → ℕ → ℕ → ℕ → ℕ × ℤ
  pub read_user : Call → ℕ → Bytes → Bytes
  pub get_stack : Call → Bool → List ℕ → List ℕ × ℤ
  pub read_kernel_width :
      (c : Call) (n addr old : ℕ) → old < 2 ^ (8 * n) → (read_kernel c n addr old).0 < 2 ^ (8 * n)
  pub read_user_length :
      (c : Call) (addr : ℕ) (old : Bytes) → length (read_user c addr old) ≡ length old

-- `Result<u32, i64>`, which every handler returns.
pub data Ret : Type 0 where
  ok : ℕ → Ret
  err : ℤ → Ret

-- The `match` of the entry points.
abbrev pub exit_code : Ret → ℕ
exit_code (ok ret) = ret
exit_code (err e) = 0

-- The maps of the program. `batch_cnt` is per CPU; `none` stands for a failed lookup.
pub record State (k : Kernel) : Type 0 where
  pub req_ctx : k.requests.Map
  pub latency_ringbuf : k.latencies.Buffer
  pub stack_ringbuf : k.stacks.Buffer
  pub target_pid : Option ℕ
  pub flamegraph_on : Option ℕ
  pub batch_cnt : ℕ → Option ℕ
