-- ===== src/Tests/Probes.antt =====
-- The probes (aya-test-ebpf/src/main.rs) on a simple kernel: a request of the process 7, with a call of
-- the process 8 between its receive and its answer.
use aya_e_bpf.Prelude.{ℕ, ◌≡◌, refl, List, [], ◌∷◌, Option, none, some, arith}
use aya_e_bpf.Prelude.Assoc.{lookup, insert}
use aya_e_bpf.Prelude.Int.{ℤ, pos}
use aya_e_bpf.Ebpf.Kernel.{Call, State}
use aya_e_bpf.Ebpf.Probe.{
  is_target_pid, read_iov_base, try_on_recvmsg, wrapping_sub, read_client, zeros,
}
use aya_e_bpf.Ebpf.Phase.{quiet, phase_of}
use aya_e_bpf.Ebpf.Phases.{Moves, run-Moves}
use aya_e_bpf.Ebpf.Replies.{event_of, enter-reply}
use aya_e_bpf.Ebpf.Records.{Inv}
use aya_e_bpf.Ebpf.Step.{Program, on_tcp_recvmsg, on_tcp_sendmsg, handler, enter, run}
use aya_e_bpf.Ebpf.Wakeup.{Balanced, run-Balanced}
use aya_e_bpf.Tests.Instances.{kernel}

abbrev pub idle : State kernel
idle = record {
  req_ctx = [];
  latency_ringbuf = [];
  stack_ringbuf = [];
  target_pid = some 0;
  flamegraph_on = some 1;
  batch_cnt = λ cpu. some 0;
}

abbrev pub call_of : ℕ → ℕ → ℕ → Option ℤ → Call
call_of pid tgid now result = record {
  pid = pid;
  tgid = tgid;
  cpu = 0;
  now_ns = now;
  sk = 100;
  msg = 200;
  retval = result;
}

abbrev pub recv : Call
recv = call_of 7 7 1000 none

abbrev pub ret : Call
ret = call_of 7 7 1500 (some (pos 14))

abbrev pub send : Call
send = call_of 7 7 3000 (some (pos 7))

abbrev others : List (Program × Call)
others = (on_tcp_recvmsg, call_of 8 8 2000 none) ∷ []

pub idle-Inv : Inv kernel idle
unfolding lookup
idle-Inv = record { full_bytes = λ key ctx found. absurd (ground arith); reports = tt }

run-Balanced_example :
    Balanced kernel 0 idle 0
      (run kernel ((on_tcp_recvmsg, recv) ∷ (on_tcp_sendmsg, send) ∷ []) idle)
run-Balanced_example =
    run-Balanced kernel ((on_tcp_recvmsg, recv) ∷ (on_tcp_sendmsg, send) ∷ []) idle 0 0 (λ b. refl)
      (refl, (refl, tt)) refl (ground arith)

run-Moves_example :
    Moves kernel
      (some 0)
      7
      quiet
      ((on_tcp_recvmsg, recv) ∷ others)
      (phase_of (kernel.requests.get (run kernel ((on_tcp_recvmsg, recv) ∷ others) idle).req_ctx 7))
unfolding lookup
run-Moves_example = run-Moves kernel ((on_tcp_recvmsg, recv) ∷ others) idle 7

-- A send of a process whose request has no bytes yet.
enter-reply_example :
    kernel.latencies.records
      (enter kernel on_tcp_sendmsg send (enter kernel on_tcp_recvmsg recv idle).0).0.latency_ringbuf
    ≡ (
      event_of send
          (record { start_ns = 1000; client_packed = read_client kernel recv; req_data = zeros }),
      1,
    )
      ∷ []
unfolding enter handler try_on_recvmsg is_target_pid wrapping_sub read_iov_base lookup insert
enter-reply_example =
    enter-reply kernel on_tcp_sendmsg send (enter kernel on_tcp_recvmsg recv idle).0
