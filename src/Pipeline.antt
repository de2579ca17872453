-- ===== src/Pipeline.antt =====
-- The program as a whole: the probes (aya-test-ebpf/src/main.rs) write events to the ring buffer, and
-- the collector (aya-test/src/reader.rs) reads their memory images.
pub mod Images
pub mod Counted
pub mod Tasks
pub mod Locks
use aya_e_bpf.Prelude.{ℕ, ◌<◌, ◌^◌, List, [], ◌∷◌, map, length, drop, take}
use aya_e_bpf.Prelude.Bytes.{Bytes}
use aya_e_bpf.Common.Event.{LatencyEvent}
use aya_e_bpf.Common.Layout.{encode_latency}
use aya_e_bpf.Ebpf.Kernel.{Kernel, Call, State}

-- The ids of a call fit `u32`.
pub record IsCall (c : Call) : Type 0 where
  pub pid_fits : c.pid < 2 ^ 32
  pub tgid_fits : c.tgid < 2 ^ 32

-- The events in the buffer, oldest first.
abbrev pub events_of : (k : Kernel) → State k → List LatencyEvent
events_of k s = map (λ r. r.0) (k.latencies.records s.latency_ringbuf)

-- Their images, each with the same four bytes of padding.
abbrev pub images_of : Bytes → List LatencyEvent → List Bytes
images_of padding events = map (λ e. encode_latency e padding) events
