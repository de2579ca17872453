-- ===== src/Ebpf/Written.antt =====
-- What the probes write to the latency ring buffer (aya-test-ebpf/src/main.rs): records are added at its
-- end, and each is the event of a call.
use aya_e_bpf.Prelude.{
  ℕ, ◌+◌, ◌%◌, ◌^◌, ◌≡◌, refl, sym, ap, ◌∙◌, List, [], ◌∷◌, ◌++◌, append-nil, All, All-append, ltb,
  leb, Bool-cases, Option-cases, inl, inr,
}
use aya_e_bpf.Common.Event.{LatencyEvent}
use aya_e_bpf.Ebpf.Isolation.{quiet}
use aya_e_bpf.Ebpf.Kernel.{ReqCtx, Kernel, Call, State}
use aya_e_bpf.Ebpf.Probe.{
  is_target_pid, batch_size, max_latency, force_wakeup, no_wakeup, wrapping_sub, latency_event,
  try_on_sendmsg, report_request, push_event,
}
use aya_e_bpf.Ebpf.Step.{Program, on_tcp_sendmsg, handler, enter, run}

module _ (k : Kernel) (P : LatencyEvent → Type 0) where
  pub output-All :
      (b : k.latencies.Buffer) (e : LatencyEvent) (flags : ℕ)
      → All (λ r. P r.0) (k.latencies.records b)
      → P e
      → All (λ r. P r.0) (k.latencies.records (k.latencies.output b e flags))
  output-All b e flags old fresh = elim (Bool-cases (k.latencies.fits b)) [
    | inl room ↦
        rw (k.latencies.records-output b e flags room)
          (All-append (λ r. P r.0) (k.latencies.records b) ((e, flags) ∷ []) old (fresh, tt))
    | inr full ↦ rw (k.latencies.records-output_full b e flags full) old
  ]

  pub push-All :
      (c : Call) (s : State k) (e : LatencyEvent)
      → All (λ r. P r.0) (k.latencies.records s.latency_ringbuf)
      → P e
      → All (λ r. P r.0) (k.latencies.records (push_event k c s e).latency_ringbuf)
  unfolding push_event
  push-All c s e old fresh = elim (Option-cases (s.batch_cnt c.cpu)) [
    | inl missing ↦ rw (missing, push_event) old
    | inr (cur, counter) ↦
        rw (counter, push_event)
          (elim (Bool-cases (leb batch_size ((cur + 1) % 2 ^ 32))) [
            | inl last ↦ rw last (output-All s.latency_ringbuf e force_wakeup old fresh)
            | inr more ↦ rw more (output-All s.latency_ringbuf e no_wakeup old fresh)
          ])
  ]

  -- Every call adds only events with the property, if it makes none but such.
  pub enter-All :
      (p : Program) (c : Call) (s : State k)
      → ((ctx : ReqCtx) → P (latency_event c ctx))
      → All (λ r. P r.0) (k.latencies.records s.latency_ringbuf)
      → All (λ r. P r.0) (k.latencies.records (enter k p c s).0.latency_ringbuf)
  unfolding enter handler try_on_sendmsg report_request
  enter-All on_tcp_sendmsg c s fresh old = elim (Bool-cases (is_target_pid s.target_pid c.pid)) [
    | inr other ↦ rw (other, try_on_sendmsg) old
    | inl accepted ↦ elim (Option-cases (k.requests.get s.req_ctx c.tgid)) [
      | inl missing ↦ rw (accepted, missing, try_on_sendmsg) old
      | inr (ctx, found) ↦
          let taken : State k = record s { req_ctx = k.requests.remove s.req_ctx c.tgid } in
          rw (accepted, found, try_on_sendmsg)
            (elim (Bool-cases (ltb max_latency (wrapping_sub c.now_ns ctx.start_ns))) [
              | inl late ↦ rw (late, report_request) old
              | inr soon ↦
                  rw (soon, report_request) (push-All c taken (latency_event c ctx) old (fresh ctx))
            ])
    ]
  ]
  enter-All p c s fresh old = rw ((quiet k p c s (λ e. cc)).0) old

  pub run-All :
      (calls : List (Program × Call)) (s : State k)
      → All (λ call. (ctx : ReqCtx) → P (latency_event call.1 ctx)) calls
      → All (λ r. P r.0) (k.latencies.records s.latency_ringbuf)
      → All (λ r. P r.0) (k.latencies.records (run k calls s).latency_ringbuf)
  unfolding run
  run-All [] s fresh old = old
  run-All ((p, c) ∷ calls) s (now, later) old =
      run-All calls (enter k p c s).0 later (enter-All p c s now old)

module _ (k : Kernel) where
  -- A buffer that holds more, at its end.
  abbrev pub Extends : State k → State k → Type 0
  Extends s t =
      (rs : List (LatencyEvent × ℕ)) × (k.latencies.records t.latency_ringbuf
        ≡ k.latencies.records s.latency_ringbuf ++ rs)

  same-Extends : (s t : State k) → t.latency_ringbuf ≡ s.latency_ringbuf → Extends s t
  same-Extends s t e = ([], ap k.latencies.records e ∙ sym (append-nil _))

  output-Extends :
      (s t : State k) (e : LatencyEvent) (flags : ℕ)
      → t.latency_ringbuf ≡ k.latencies.output s.latency_ringbuf e flags
      → Extends s t
  output-Extends s t e flags h = elim (Bool-cases (k.latencies.fits s.latency_ringbuf)) [
    | inl room ↦ (
      (e, flags) ∷ [],
      ap k.latencies.records h ∙ k.latencies.records-output s.latency_ringbuf e flags room,
    )
    | inr full ↦ (
      [],
      ap k.latencies.records h
          ∙ k.latencies.records-output_full s.latency_ringbuf e flags full
          ∙ sym (append-nil _),
    )
  ]

  push-Extends : (c : Call) (s : State k) (e : LatencyEvent) → Extends s (push_event k c s e)
  unfolding push_event
  push-Extends c s e = elim (Option-cases (s.batch_cnt c.cpu)) [
    | inl missing ↦ same-Extends s (push_event k c s e) (rw (missing, push_event) refl)
    | inr (cur, counter) ↦ elim (Bool-cases (leb batch_size ((cur + 1) % 2 ^ 32))) [
      | inl last ↦
          output-Extends s (push_event k c s e) e force_wakeup (rw (counter, last, push_event) refl)
      | inr more ↦
          output-Extends s (push_event k c s e) e no_wakeup (rw (counter, more, push_event) refl)
    ]
  ]

  -- No call takes a record out of the buffer or changes one.
  pub enter-Extends : (p : Program) (c : Call) (s : State k) → Extends s (enter k p c s).0
  unfolding enter handler try_on_sendmsg report_request
  enter-Extends on_tcp_sendmsg c s = elim (Bool-cases (is_target_pid s.target_pid c.pid)) [
    | inr other ↦ same-Extends s (try_on_sendmsg k c s).0 (rw (other, try_on_sendmsg) refl)
    | inl accepted ↦ elim (Option-cases (k.requests.get s.req_ctx c.tgid)) [
      | inl missing ↦
          same-Extends s (try_on_sendmsg k c s).0 (rw (accepted, missing, try_on_sendmsg) refl)
      | inr (ctx, found) ↦
          let taken : State k = record s { req_ctx = k.requests.remove s.req_ctx c.tgid } in
          rw (accepted, found, try_on_sendmsg)
            (elim (Bool-cases (ltb max_latency (wrapping_sub c.now_ns ctx.start_ns))) [
              | inl late ↦ rw (late, report_request) (same-Extends s taken refl)
              | inr soon ↦
                  rw (soon, report_request)
                    (let (rs, e) = push-Extends c taken (latency_event c ctx) in (rs, e))
            ])
    ]
  ]
  enter-Extends p c s = same-Extends s (enter k p c s).0 ((quiet k p c s (λ e. cc)).0)
