-- ===== src/Ebpf/Step.antt =====
-- The program as a state machine: the kernel calls its probes in some order, on any tasks and CPUs
-- (aya-test-ebpf/src/main.rs). A call of a probe is one step.
use aya_e_bpf.Prelude.{ℕ, List, [], ◌∷◌}
use aya_e_bpf.Ebpf.Kernel.{Kernel, Call, State, Ret, exit_code}
use aya_e_bpf.Ebpf.Probe.{try_on_recvmsg, try_on_recvmsg_ret, try_on_sendmsg, try_on_connect}
use aya_e_bpf.Ebpf.Sample.{try_cpu_sample}

-- The programs of the object file.
pub data Program : Type 0 where
  on_tcp_recvmsg on_tcp_recvmsg_ret on_tcp_sendmsg on_tcp_connect on_cpu_sample : Program

module _ (k : Kernel) where
  unfoldable pub handler : Program → Call → State k → State k × Ret
  handler on_tcp_recvmsg = try_on_recvmsg k
  handler on_tcp_recvmsg_ret = try_on_recvmsg_ret k
  handler on_tcp_sendmsg = try_on_sendmsg k
  handler on_tcp_connect = try_on_connect k
  handler on_cpu_sample = try_cpu_sample k

  -- An entry point: the maps after the call, and the code that it returns to the kernel.
  unfoldable pub enter : Program → Call → State k → State k × ℕ
  enter p c s = let (t, ret) = handler p c s in (t, exit_code ret)

  unfoldable pub run : List (Program × Call) → State k → State k
  run [] s = s
  run ((p, c) ∷ calls) s = run calls (enter p c s).0
