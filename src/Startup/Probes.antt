-- ===== src/Startup/Probes.antt =====
-- aya-test/src/probes.rs: loading and attaching the programs.
use aya_e_bpf.Prelude.{ℕ}
use aya_e_bpf.Ebpf.Step.{on_tcp_recvmsg, on_tcp_recvmsg_ret, on_tcp_sendmsg, on_cpu_sample}
use aya_e_bpf.Startup.{
  tcp_recvmsg, tcp_sendmsg, flamegraph_on, read_btf, as_program, load_program, attach, load_sampler,
  attach_sampler, open_map, set_flamegraph_on, World, Action, ◌>>◌, attempt, attempt_or_ignore,
}

module _ (w : World) where
  unfoldable pub attach_probes : Action (Unit {0})
  attach_probes = do
    attempt w read_btf
    attempt w (as_program on_tcp_recvmsg)
    attempt w (load_program on_tcp_recvmsg tcp_recvmsg)
    attempt w (attach on_tcp_recvmsg)
    attempt w (as_program on_tcp_recvmsg_ret)
    attempt w (load_program on_tcp_recvmsg_ret tcp_recvmsg)
    attempt w (attach on_tcp_recvmsg_ret)
    attempt w (as_program on_tcp_sendmsg)
    attempt w (load_program on_tcp_sendmsg tcp_sendmsg)
    attempt w (attach on_tcp_sendmsg)

  unfoldable pub attach_perf_event : ℕ → ℕ → Action (Unit {0})
  attach_perf_event pid frequency_hz = do
    attempt w (as_program on_cpu_sample)
    attempt w load_sampler
    attempt w (attach_sampler pid frequency_hz)

  unfoldable pub enable_flamegraph : Action (Unit {0})
  enable_flamegraph = do attempt w (open_map flamegraph_on); attempt_or_ignore w set_flamegraph_on
