-- ===== src/Ebpf/Shared.antt =====
-- The key of the context map is `ctx.tgid()`, the id of the process: two threads of one process share
-- one context (aya-test-ebpf/src/main.rs).
use aya_e_bpf.Prelude.{◌≡◌, ◌≢◌, ◌∙◌, ap, true, some}
use aya_e_bpf.Ebpf.Kernel.{Kernel, Call, State}
use aya_e_bpf.Ebpf.Probe.{is_target_pid, new_ctx}
use aya_e_bpf.Ebpf.Isolation.{enter_switches}
use aya_e_bpf.Ebpf.Request.{recv_stores}
use aya_e_bpf.Ebpf.Step.{on_tcp_recvmsg, enter}

module _ (k : Kernel) where
  -- When a second thread of a process receives right after a first one, and the filter accepts
  -- both and the map the second, the context of the first is gone: the one that is left is the
  -- second's.
  pub threads_share_context :
      (first second : Call) (s : State k)
      → first.pid ≢ second.pid
      → first.tgid ≡ second.tgid
      → is_target_pid s.target_pid first.pid ≡ true
      → is_target_pid s.target_pid second.pid ≡ true
      → k.requests.accepts (enter k on_tcp_recvmsg first s).0.req_ctx second.tgid ≡ true
      → k.requests.get
          (enter k on_tcp_recvmsg second (enter k on_tcp_recvmsg first s).0).0.req_ctx
          first.tgid
        ≡ some (new_ctx k second)
  threads_share_context first second s apart same target target' room =
      let t : State k = (enter k on_tcp_recvmsg first s).0 in
      let kept = (enter_switches k on_tcp_recvmsg first s).0 in
      ap (λ key. k.requests.get (enter k on_tcp_recvmsg second t).0.req_ctx key) same
      ∙ recv_stores k second t (rw kept target') room
