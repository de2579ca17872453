-- ===== src/Ebpf/Alone.antt =====
-- A call that nothing interrupts is the handler (aya-test-ebpf/src/main.rs).
use aya_e_bpf.Prelude.{
  ◌≡◌, refl, ◌+◌, ◌%◌, ◌^◌, leb, ltb, ◌==◌, ◌||◌, Bool-cases, Option-cases, inl, inr,
}
use aya_e_bpf.Prelude.Int.{is_pos}
use aya_e_bpf.Ebpf.Access.{
  starting, done, tested_id, admitted, taken, removed, counted, sampled, looked, store_bytes,
  access, alone,
}
use aya_e_bpf.Ebpf.Kernel.{Kernel, Call, State}
use aya_e_bpf.Ebpf.Probe.{
  is_target_pid, batch_size, max_latency, wrapping_sub, try_on_recvmsg, try_on_recvmsg_ret,
  store_request, try_on_sendmsg, report_request, push_event, try_on_connect,
}
use aya_e_bpf.Ebpf.Sample.{flamegraph_enabled, stack_event, push_sample, try_cpu_sample}
use aya_e_bpf.Ebpf.Step.{
  Program, on_tcp_recvmsg, on_tcp_recvmsg_ret, on_tcp_sendmsg, on_tcp_connect, on_cpu_sample,
  handler,
}

module _ (k : Kernel) where
  -- A call that nothing interrupts returns within six accesses, and leaves the maps and gives the result
  -- of its handler.
  pub alone-handler :
      (p : Program) (c : Call) (s : State k)
      → alone k 6 (starting p c) s ≡ ((handler k p c s).0, done (handler k p c s).1)
  unfolding alone access tested_id admitted taken removed counted sampled looked store_bytes handler
      try_on_recvmsg try_on_recvmsg_ret store_request try_on_sendmsg report_request push_event
      try_on_connect try_cpu_sample push_sample
  alone-handler on_tcp_recvmsg c s = elim (Bool-cases (is_target_pid s.target_pid c.pid)) [
    | inl target ↦ rw target refl
    | inr refused ↦ rw refused refl
  ]
  alone-handler on_tcp_recvmsg_ret c s = elim (Bool-cases (is_target_pid s.target_pid c.pid)) [
    | inr refused ↦ rw refused refl
    | inl target ↦ elim (Option-cases (k.requests.get s.req_ctx c.tgid)) [
      | inl missing ↦ rw (target, missing) refl
      | inr (ctx, found) ↦ elim (Bool-cases (ctx.iov_base == 0)) [
        | inl no_buffer ↦ rw (target, found, no_buffer) refl
        | inr buffer ↦ rw (target, found, buffer) refl
      ]
    ]
  ]
  alone-handler on_tcp_sendmsg c s = elim (Bool-cases (is_target_pid s.target_pid c.pid)) [
    | inr refused ↦ rw refused refl
    | inl target ↦ elim (Option-cases (k.requests.get s.req_ctx c.tgid)) [
      | inl missing ↦ rw (target, missing) refl
      | inr (ctx, found) ↦
          elim (Bool-cases (ltb max_latency (wrapping_sub c.now_ns ctx.start_ns))) [
            | inl late ↦ rw (target, found, late) refl
            | inr soon ↦ elim (Option-cases (s.batch_cnt c.cpu)) [
              | inl no_counter ↦ rw (target, found, soon, no_counter) refl
              | inr (cur, counter) ↦ elim (Bool-cases (leb batch_size ((cur + 1) % 2 ^ 32))) [
                | inl full ↦ rw (target, found, soon, counter, full) refl
                | inr more ↦ rw (target, found, soon, counter, more) refl
              ]
            ]
          ]
    ]
  ]
  alone-handler on_tcp_connect c s = elim (Bool-cases (is_target_pid s.target_pid c.pid)) [
    | inl target ↦ rw target refl
    | inr refused ↦ rw refused refl
  ]
  alone-handler on_cpu_sample c s = elim (Bool-cases (is_target_pid s.target_pid c.tgid)) [
    | inr refused ↦ rw refused refl
    | inl target ↦ elim (Bool-cases (flamegraph_enabled s.flamegraph_on)) [
      | inr off ↦ rw (target, off) refl
      | inl on ↦
          elim (Bool-cases
            (is_pos (stack_event k c).kstack_len || is_pos (stack_event k c).ustack_len)) [
              | inl frames ↦ rw (target, on, frames) refl
              | inr empty ↦ rw (target, on, empty) refl
            ]
    ]
  ]
