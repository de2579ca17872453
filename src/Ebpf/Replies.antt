-- ===== src/Ebpf/Replies.antt =====
-- What a call writes to the buffer of requests, on every branch (aya-test-ebpf/src/main.rs).
use aya_e_bpf.Prelude.{
  ℕ, ◌+◌, ◌%◌, ◌^◌, ◌≡◌, ◌≢◌, refl, sym, ap, ◌∙◌, List, [], ◌∷◌, ◌++◌, append-nil, none, some, ◌==◌,
  ltb, leb, if◌then◌else◌, Bool-cases, Option-cases, inl, inr,
}
use aya_e_bpf.Prelude.Int.{is_pos, is_neg, to_bits}
use aya_e_bpf.Common.Event.{LatencyEvent}
use aya_e_bpf.Ebpf.Isolation
use aya_e_bpf.Ebpf.Kernel.{ReqCtx, Kernel, Call, State}
use aya_e_bpf.Ebpf.Phase.{Served, Phase, quiet, receiving, received, phase_of}
use aya_e_bpf.Ebpf.Probe.{
  is_target_pid, batch_size, no_wakeup, force_wakeup, max_latency, wrapping_sub, retval_of,
  latency_event, try_on_recvmsg, try_on_recvmsg_ret, store_request, try_on_sendmsg, try_on_connect,
  report_request, push_event,
}
use aya_e_bpf.Ebpf.Sample.{try_cpu_sample, push_sample}
use aya_e_bpf.Ebpf.Step.{
  Program, on_tcp_recvmsg, on_tcp_recvmsg_ret, on_tcp_sendmsg, on_tcp_connect, on_cpu_sample,
  handler, enter,
}
use aya_e_bpf.Ebpf.Word.{client_ip_of, client_port_of}

-- The record of a request that a send answers.
abbrev pub event_of : Call → Served → LatencyEvent
event_of c r = record {
  pid = c.pid;
  tid = c.tgid;
  latency_ns = wrapping_sub c.now_ns r.start_ns;
  bytes = if is_pos (retval_of c) then to_bits 32 (retval_of c) else 0;
  client_ip = client_ip_of r.client_packed;
  client_port = client_port_of r.client_packed;
  command = 0;
  is_error = if is_neg (retval_of c) then 1 else 0;
  req_data = r.req_data;
}

module _ (k : Kernel) where
  -- A record is written if the CPU has its counter and the buffer room; the 16th wakes the collector.
  abbrev pub record_of : State k → Call → LatencyEvent → List (LatencyEvent × ℕ)
  record_of s c event = elim (s.batch_cnt c.cpu) [
    | none ↦ []
    | some cur ↦
        if k.latencies.fits s.latency_ringbuf
        then (event, if leb batch_size ((cur + 1) % 2 ^ 32) then force_wakeup else no_wakeup) ∷ []
        else []
  ]

  -- A request that took more than 10 s is not recorded.
  abbrev pub reply_to : State k → Call → Served → List (LatencyEvent × ℕ)
  reply_to s c r =
      if ltb max_latency (wrapping_sub c.now_ns r.start_ns)
      then []
      else record_of s c (event_of c r)

  -- Only a send has an answer, to the request that its process serves.
  abbrev pub reply : State k → Program → Call → Phase → List (LatencyEvent × ℕ)
  reply s on_tcp_sendmsg c quiet = []
  reply s on_tcp_sendmsg c (receiving r base) = reply_to s c r
  reply s on_tcp_sendmsg c (received r) = reply_to s c r
  reply s on_tcp_recvmsg c ph = []
  reply s on_tcp_recvmsg_ret c ph = []
  reply s on_tcp_connect c ph = []
  reply s on_cpu_sample c ph = []

  push_event-record_of :
      (s : State k) (c : Call) (event : LatencyEvent)
      → k.latencies.records (push_event k c s event).latency_ringbuf
        ≡ k.latencies.records s.latency_ringbuf ++ record_of s c event
  unfolding push_event
  push_event-record_of s c event = elim (Option-cases (s.batch_cnt c.cpu)) [
    | inl missing ↦
        rw (missing, push_event)
          (rw (missing, record_of) (sym (append-nil (k.latencies.records s.latency_ringbuf))))
    | inr (cur, found) ↦ elim (Bool-cases (k.latencies.fits s.latency_ringbuf)) [
      | inl room ↦ elim (Bool-cases (leb batch_size ((cur + 1) % 2 ^ 32))) [
        | inl full ↦
            rw (found, push_event)
              (rw (found, record_of)
                (rw (full, room)
                  (k.latencies.records-output s.latency_ringbuf event force_wakeup room)))
        | inr counted ↦
            rw (found, push_event)
              (rw (found, record_of)
                (rw (counted, room)
                  (k.latencies.records-output s.latency_ringbuf event no_wakeup room)))
      ]
      | inr no_room ↦ elim (Bool-cases (leb batch_size ((cur + 1) % 2 ^ 32))) [
        | inl full ↦
            rw (found, push_event)
              (rw (found, record_of)
                (rw (full, no_room)
                  (k.latencies.records-output_full s.latency_ringbuf event force_wakeup no_room
                    ∙ sym (append-nil (k.latencies.records s.latency_ringbuf)))))
        | inr counted ↦
            rw (found, push_event)
              (rw (found, record_of)
                (rw (counted, no_room)
                  (k.latencies.records-output_full s.latency_ringbuf event no_wakeup no_room
                    ∙ sym (append-nil (k.latencies.records s.latency_ringbuf)))))
      ]
    ]
  ]

  abbrev served_of : ReqCtx → Served
  served_of ctx = record {
    start_ns = ctx.start_ns;
    client_packed = ctx.client_packed;
    req_data = ctx.req_data;
  }

  report_request-reply_to :
      (s : State k) (c : Call) (ctx : ReqCtx)
      → k.latencies.records (report_request k c s ctx).latency_ringbuf
        ≡ k.latencies.records s.latency_ringbuf ++ reply_to s c (served_of ctx)
  unfolding report_request latency_event
  report_request-reply_to s c ctx =
      elim (Bool-cases (ltb max_latency (wrapping_sub c.now_ns ctx.start_ns))) [
        | inl late ↦
            rw (late, report_request) (sym (append-nil (k.latencies.records s.latency_ringbuf)))
        | inr in_time ↦
            rw (in_time, report_request) (push_event-record_of s c (latency_event c ctx))
      ]

  reply-served :
      (s : State k) (c : Call) (ctx : ReqCtx)
      → reply s on_tcp_sendmsg c (phase_of (some ctx)) ≡ reply_to s c (served_of ctx)
  reply-served s c ctx = elim (Bool-cases (ctx.iov_base == 0)) [
    | inl no_buffer ↦ rw no_buffer refl
    | inr buffer ↦ rw buffer refl
  ]

  silent :
      (p : Program) (c : Call) (s : State k)
      → p ≢ on_tcp_sendmsg
      → k.latencies.records (enter k p c s).0.latency_ringbuf
        ≡ k.latencies.records s.latency_ringbuf
          ++ (if is_target_pid s.target_pid c.pid then [] else [])
  silent p c s other =
      ap k.latencies.records (Isolation.quiet k p c s other).0
      ∙ elim (Bool-cases (is_target_pid s.target_pid c.pid)) [
        | inl target ↦ rw target (sym (append-nil (k.latencies.records s.latency_ringbuf)))
        | inr refused ↦ rw refused (sym (append-nil (k.latencies.records s.latency_ringbuf)))
      ]

  -- A call writes exactly what its process's phase asks for: a send that the filter accepts writes one record
  -- of the request that the process serves, with its time, client, bytes and result, unless the process
  -- serves none, the request took more than 10 s, the CPU has no counter or the buffer no room; nothing
  -- else writes.
  pub enter-reply :
      (p : Program) (c : Call) (s : State k)
      → k.latencies.records (enter k p c s).0.latency_ringbuf
        ≡ k.latencies.records s.latency_ringbuf
          ++ (if is_target_pid s.target_pid c.pid
              then reply s p c (phase_of (k.requests.get s.req_ctx c.tgid))
              else [])
  unfolding enter handler try_on_recvmsg try_on_recvmsg_ret store_request try_on_sendmsg
      try_on_connect try_cpu_sample push_sample
  enter-reply on_tcp_sendmsg c s = elim (Bool-cases (is_target_pid s.target_pid c.pid)) [
    | inr refused ↦ rw refused (sym (append-nil (k.latencies.records s.latency_ringbuf)))
    | inl target ↦ elim (Option-cases (k.requests.get s.req_ctx c.tgid)) [
      | inl missing ↦
          rw (target, missing) (sym (append-nil (k.latencies.records s.latency_ringbuf)))
      | inr (ctx, found) ↦
          rw (target, found)
            (report_request-reply_to (record s { req_ctx = k.requests.remove s.req_ctx c.tgid }) c
                ctx
              ∙ ap (λ l. k.latencies.records s.latency_ringbuf ++ l) (sym (reply-served s c ctx)))
    ]
  ]
  enter-reply on_tcp_recvmsg c s = silent on_tcp_recvmsg c s (λ e. cc)
  enter-reply on_tcp_recvmsg_ret c s = silent on_tcp_recvmsg_ret c s (λ e. cc)
  enter-reply on_tcp_connect c s = silent on_tcp_connect c s (λ e. cc)
  enter-reply on_cpu_sample c s = silent on_cpu_sample c s (λ e. cc)
