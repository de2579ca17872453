-- ===== src/Ebpf/Sample.antt =====
-- The CPU stack sampler, a perf_event program (aya-test-ebpf/src/main.rs).
use aya_e_bpf.Prelude.{
  ℕ, Bool, true, false, ◌||◌, not, replicate, Option, none, some, ◌==◌, if◌then◌else◌,
}
use aya_e_bpf.Prelude.Int.{ℤ, negsuc, is_neg, is_pos, to_bits, of_bits, div_int}
use aya_e_bpf.Common.Event.{StackEvent, max_stack_frames}
use aya_e_bpf.Ebpf.Kernel.{Kernel, Call, State, Ret, ok}
use aya_e_bpf.Ebpf.Probe.{is_target_pid}

-- `FLAMEGRAPH_ON.get(&0).map(|&v| v != 0).unwrap_or(false)`
unfoldable pub flamegraph_enabled : Option ℕ → Bool
flamegraph_enabled none = false
flamegraph_enabled (some v) = not (v == 0)

-- `if ret >= 0 { (ret as i32) / 8 } else { -1 }`
unfoldable pub frames_of : ℤ → ℤ
frames_of ret = if is_neg ret then negsuc 0 else div_int (of_bits 32 (to_bits 32 ret)) 8

module _ (k : Kernel) where
  -- The event, with both stacks walked.
  unfoldable pub stack_event : Call → StackEvent
  stack_event c =
      let (kstack, kret) = k.get_stack c false (replicate max_stack_frames 0) in
      let (ustack, uret) = k.get_stack c true (replicate max_stack_frames 0) in
      record {
        pid = c.pid;
        cpu = c.cpu;
        kstack_len = frames_of kret;
        ustack_len = frames_of uret;
        timestamp_ns = c.now_ns;
        kstack_ips = kstack;
        ustack_ips = ustack;
      }

  unfoldable pub push_sample : State k → StackEvent → State k
  push_sample s event =
      if is_pos event.kstack_len || is_pos event.ustack_len
      then record s { stack_ringbuf = k.stacks.output s.stack_ringbuf event 0 }
      else s

  unfoldable pub try_cpu_sample : Call → State k → State k × Ret
  try_cpu_sample c s =
      if not (is_target_pid s.target_pid c.tgid) || not (flamegraph_enabled s.flamegraph_on)
      then (s, ok 0)
      else (push_sample s (stack_event c), ok 0)
