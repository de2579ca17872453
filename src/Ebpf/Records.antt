-- ===== src/Ebpf/Records.antt =====
-- What every record in the latency ring buffer satisfies (aya-test-ebpf/src/main.rs).
use aya_e_bpf.Prelude.{
  ℕ, ◌≡◌, refl, true, List, [], ◌∷◌, length, some, arith, All, if◌then◌else◌, ltb, ◌==◌, Bool-cases,
  Option-cases, inl, inr,
}
use aya_e_bpf.Common.Event.{LatencyEvent}
use aya_e_bpf.Ebpf.Kernel.{ReqCtx, Kernel, Call, State}
use aya_e_bpf.Ebpf.Probe.{
  is_target_pid, new_ctx, zeros, max_latency, wrapping_sub, latency_event, try_on_recvmsg,
  try_on_recvmsg_ret, store_request, try_on_sendmsg, report_request, push_event, try_on_connect,
}
use aya_e_bpf.Ebpf.Sample.{try_cpu_sample}
use aya_e_bpf.Ebpf.Isolation.{report-req_ctx, sample_frame}
use aya_e_bpf.Ebpf.Step.{
  Program, on_tcp_recvmsg, on_tcp_recvmsg_ret, on_tcp_sendmsg, on_tcp_connect, on_cpu_sample,
  handler, enter, run,
}
use aya_e_bpf.Ebpf.Written.{push-All}
use aya_e_bpf.Ebpf.Report.{IsReport, latency_event-IsReport}

module _ (k : Kernel) where
  abbrev pub FullBytes : State k → Type 0
  FullBytes s =
      (key : ℕ) (ctx : ReqCtx) → k.requests.get s.req_ctx key ≡ some ctx → length ctx.req_data ≡ 32

  abbrev pub Reports : State k → Type 0
  Reports s = All (λ r. IsReport s.target_pid r.0) (k.latencies.records s.latency_ringbuf)

  -- The invariant of the maps: every context has 32 request bytes, and every record is a report.
  pub record Inv (s : State k) : Type 0 where
    pub full_bytes : FullBytes s
    pub reports : Reports s

  push-target_pid :
      (c : Call) (s : State k) (e : LatencyEvent) → (push_event k c s e).target_pid ≡ s.target_pid
  unfolding push_event
  push-target_pid c s e = ground arith

  push-Reports :
      (c : Call) (s : State k) (e : LatencyEvent)
      → Reports s
      → IsReport s.target_pid e
      → Reports (push_event k c s e)
  push-Reports c s e old fresh =
      rw (push-target_pid c s e) (push-All k (IsReport s.target_pid) c s e old fresh)

  report-Reports :
      (c : Call) (s : State k) (ctx : ReqCtx)
      → Reports s
      → length ctx.req_data ≡ 32
      → is_target_pid s.target_pid c.pid ≡ true
      → Reports (report_request k c s ctx)
  unfolding report_request
  report-Reports c s ctx old full accepted =
      elim (Bool-cases (ltb max_latency (wrapping_sub c.now_ns ctx.start_ns))) [
        | inl late ↦ rw (late, report_request) old
        | inr soon ↦
            rw (soon, report_request)
              (push-Reports c s (latency_event c ctx) old
                (latency_event-IsReport c ctx s.target_pid (ground arith) full accepted))
      ]

  -- A map in which one context was changed.
  pub changed_full :
      (m m' : k.requests.Map) (key : ℕ) (v : ReqCtx)
      → ((j : ℕ) → k.requests.get m' j ≡ (if key == j then some v else k.requests.get m j))
      → length v.req_data ≡ 32
      → ((j : ℕ) (ctx : ReqCtx) → k.requests.get m j ≡ some ctx → length ctx.req_data ≡ 32)
      → (j : ℕ) (ctx : ReqCtx) → k.requests.get m' j ≡ some ctx
      → length ctx.req_data ≡ 32
  changed_full m m' key v law full old j ctx found = ground (arith, law j, old j ctx)

  pub insert_full :
      (m : k.requests.Map) (key : ℕ) (v : ReqCtx)
      → length v.req_data ≡ 32
      → ((j : ℕ) (ctx : ReqCtx) → k.requests.get m j ≡ some ctx → length ctx.req_data ≡ 32)
      → (j : ℕ) (ctx : ReqCtx) → k.requests.get (k.requests.insert m key v) j ≡ some ctx
      → length ctx.req_data ≡ 32
  insert_full m key v full old j ctx found = elim (Bool-cases (k.requests.accepts m key)) [
    | inl room ↦ ground (arith, k.requests.get-insert m key j v room, old j ctx)
    | inr refused ↦ ground (arith, k.requests.get-insert_refused m key j v refused, old j ctx)
  ]

  pub removed_full :
      (m : k.requests.Map) (key : ℕ)
      → ((j : ℕ) (ctx : ReqCtx) → k.requests.get m j ≡ some ctx → length ctx.req_data ≡ 32)
      → (j : ℕ) (ctx : ReqCtx) → k.requests.get (k.requests.remove m key) j ≡ some ctx
      → length ctx.req_data ≡ 32
  removed_full m key old j ctx found = ground (arith, k.requests.get-remove m key j, old j ctx)

  store-Inv : (c : Call) (s : State k) (ctx : ReqCtx) → Inv s → Inv (store_request k c s ctx)
  unfolding store_request
  store-Inv c s ctx inv = elim (Option-cases (k.requests.get s.req_ctx c.tgid)) [
    | inl missing ↦ rw (missing, store_request) inv
    | inr (old, found) ↦
        rw (found, store_request)
          (record {
            full_bytes =
                changed_full s.req_ctx _ c.tgid _
                  (λ j. k.requests.get-write s.req_ctx c.tgid j _ old found)
                  (k.read_user_length c ctx.iov_base zeros) inv.full_bytes;
            reports = inv.reports;
          })
  ]

  send-Inv : (c : Call) (s : State k) → Inv s → Inv (try_on_sendmsg k c s).0
  unfolding try_on_sendmsg
  send-Inv c s inv = elim (Bool-cases (is_target_pid s.target_pid c.pid)) [
    | inr other ↦ rw other inv
    | inl accepted ↦ elim (Option-cases (k.requests.get s.req_ctx c.tgid)) [
      | inl missing ↦ rw (accepted, missing) inv
      | inr (ctx, found) ↦
          let taken : State k = record s { req_ctx = k.requests.remove s.req_ctx c.tgid } in
          rw (accepted, found)
            (record {
              full_bytes =
                  rw (report-req_ctx k c taken ctx).0
                    (removed_full s.req_ctx c.tgid inv.full_bytes);
              reports =
                  report-Reports c taken ctx inv.reports (inv.full_bytes c.tgid ctx found) accepted;
            })
    ]
  ]

  sample-Inv : (c : Call) (s : State k) → Inv s → Inv (try_cpu_sample k c s).0
  sample-Inv c s inv =
      let (contexts, ring, target, _) = sample_frame k c s in
      record { full_bytes = rw contexts inv.full_bytes; reports = rw (ring, target) inv.reports }

  -- Every call of every probe keeps the invariant.
  pub enter-Inv : (p : Program) (c : Call) (s : State k) → Inv s → Inv (enter k p c s).0
  unfolding enter handler try_on_recvmsg try_on_recvmsg_ret try_on_connect
  enter-Inv on_tcp_recvmsg c s inv = elim (Bool-cases (is_target_pid s.target_pid c.pid)) [
    | inr other ↦ rw (other, try_on_recvmsg) inv
    | inl accepted ↦
        rw (accepted, try_on_recvmsg)
          (record {
            full_bytes = insert_full s.req_ctx c.tgid (new_ctx k c) refl inv.full_bytes;
            reports = inv.reports;
          })
  ]
  enter-Inv on_tcp_recvmsg_ret c s inv = elim (Bool-cases (is_target_pid s.target_pid c.pid)) [
    | inr other ↦ rw (other, try_on_recvmsg_ret) inv
    | inl accepted ↦ elim (Option-cases (k.requests.get s.req_ctx c.tgid)) [
      | inl missing ↦ rw (accepted, missing, try_on_recvmsg_ret) inv
      | inr (ctx, found) ↦ elim (Bool-cases (ctx.iov_base == 0)) [
        | inl no_buffer ↦ rw (accepted, found, no_buffer, try_on_recvmsg_ret) inv
        | inr buffer ↦ rw (accepted, found, buffer, try_on_recvmsg_ret) (store-Inv c s ctx inv)
      ]
    ]
  ]
  enter-Inv on_tcp_sendmsg c s inv = send-Inv c s inv
  enter-Inv on_tcp_connect c s inv = elim (Bool-cases (is_target_pid s.target_pid c.pid)) [
    | inr other ↦ rw (other, try_on_connect) inv
    | inl accepted ↦ rw (accepted, try_on_connect) inv
  ]
  enter-Inv on_cpu_sample c s inv = sample-Inv c s inv

  -- If every context has 32 request bytes and every record in the buffer is a report within the
  -- limits, then so it is after any calls of the probes, in any order.
  pub run-Inv : (calls : List (Program × Call)) (s : State k) → Inv s → Inv (run k calls s)
  unfolding run
  run-Inv [] s inv = inv
  run-Inv ((p, c) ∷ calls) s inv = run-Inv calls (enter k p c s).0 (enter-Inv p c s inv)
