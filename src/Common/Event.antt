-- ===== src/Common/Event.antt =====
-- The records that cross the kernel boundary (aya-test-common/src/lib.rs). An unsigned field is the
-- number that it holds; its width stands beside it.
use aya_e_bpf.Prelude.{ℕ, ◌-◌, ◌^◌, List}
use aya_e_bpf.Prelude.Int.{ℤ}
use aya_e_bpf.Prelude.Bytes.{Bytes}

-- One request and its response, as the probe reports it.
pub record LatencyEvent : Type 0 where
  pub pid : ℕ  -- u32
  pub tid : ℕ  -- u32
  pub latency_ns : ℕ  -- u64
  pub bytes : ℕ  -- u32
  pub client_ip : ℕ  -- u32
  pub client_port : ℕ  -- u16
  pub command : ℕ  -- u8
  pub is_error : ℕ  -- u8
  pub req_data : Bytes  -- [u8; 32]

abbrev pub max_stack_frames : ℕ
max_stack_frames = 20

-- One stack sample.
pub record StackEvent : Type 0 where
  pub pid : ℕ  -- u32
  pub cpu : ℕ  -- u32
  pub kstack_len : ℤ  -- i32
  pub ustack_len : ℤ  -- i32
  pub timestamp_ns : ℕ  -- u64
  pub kstack_ips : List ℕ  -- [u64; 20]
  pub ustack_ips : List ℕ  -- [u64; 20]

-- A connection that is opened or closed. Nothing makes or reads one.
pub record ConnEvent : Type 0 where
  pub pid : ℕ  -- u32
  pub saddr : ℕ  -- u32
  pub daddr : ℕ  -- u32
  pub sport : ℕ  -- u16
  pub dport : ℕ  -- u16
  pub event_type : ℕ  -- u8
  pub padding : Bytes  -- [u8; 3]
  pub timestamp_ns : ℕ  -- u64

-- The counters of a CPU. Nothing counts them.
pub record PerCpuCounters : Type 0 where
  pub read_bytes : ℕ  -- u64
  pub write_bytes : ℕ  -- u64
  pub read_ops : ℕ  -- u64
  pub write_ops : ℕ  -- u64
  pub connect_ops : ℕ  -- u64
  pub close_ops : ℕ  -- u64
  pub error_ops : ℕ  -- u64

-- A system call. Nothing makes or reads one.
pub record SyscallEvent : Type 0 where
  pub pid : ℕ  -- u32
  pub syscall_id : ℕ  -- u32
  pub latency_ns : ℕ  -- u64
  pub retval : ℤ  -- i64

-- A command to the probes. Nothing sends one.
pub data EbpfCommand : Type 0 where
  enable_latency_tracing enable_flame_graph enable_protocol_parsing enable_all : EbpfCommand

unfoldable pub command_code : EbpfCommand → ℕ
command_code enable_latency_tracing = 1
command_code enable_flame_graph = 2
command_code enable_protocol_parsing = 3
command_code enable_all = 2 ^ 32 - 1
