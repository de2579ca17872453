-- ===== src/Ebpf/Wakeup.antt =====
-- The batched wake-ups of the collector (aya-test-ebpf/src/main.rs).
use aya_e_bpf.Prelude.{
  ℕ, ◌+◌, ◌*◌, ◌≤◌, ◌<◌, ◌≡◌, refl, ◌∙◌, ap, true, List, [], ◌∷◌, ◌++◌, length, length-append, some,
  arith, All, if◌then◌else◌, ltb, ◌==◌, Bool-cases, Option-cases, inl, inr, ==_refl,
}
use mathlib.Core.Path.{subst}
use aya_e_bpf.Common.Event.{LatencyEvent}
use aya_e_bpf.Ebpf.Kernel.{Kernel, Call, State}
use aya_e_bpf.Ebpf.Probe.{
  batch_size, force_wakeup, max_latency, is_target_pid, latency_event, wrapping_sub, try_on_sendmsg,
  report_request, push_event,
}
use aya_e_bpf.Ebpf.Isolation.{quiet}
use aya_e_bpf.Ebpf.Request.{wakeup_flag, next_count, push_event_lem}
use aya_e_bpf.Ebpf.Step.{Program, on_tcp_sendmsg, handler, enter, run}

-- The number of records that wake the collector.
abbrev pub forced : List (LatencyEvent × ℕ) → ℕ
forced [] = 0
forced ((e, flags) ∷ rs) = (if flags == force_wakeup then 1 else 0) + forced rs

forced-append : (rs ts : List (LatencyEvent × ℕ)) → forced (rs ++ ts) ≡ forced rs + forced ts
forced-append [] ts = omega arith
forced-append ((e, flags) ∷ rs) ts = omega (arith, forced-append rs ts)

module _ (k : Kernel) where
  -- What the wake-ups of one CPU have used up, and what its counter still holds.
  abbrev pub records_of : State k → List (LatencyEvent × ℕ)
  records_of s = k.latencies.records s.latency_ringbuf

  -- From `s` to `t`, each 16 records of this CPU brought one wake-up, and the counter has the rest.
  abbrev pub Balanced : ℕ → State k → ℕ → State k → Type 0
  Balanced cpu s cur t =
      (count : ℕ) × (t.batch_cnt cpu ≡ some count)
      × (count < batch_size)
      × (length (records_of s) ≤ length (records_of t))
      × (batch_size * forced (records_of t) + count + length (records_of s)
          ≡ length (records_of t) + batch_size * forced (records_of s) + cur)

  unmoved :
      (cpu : ℕ) (s t : State k) (cur : ℕ)
      → t.latency_ringbuf ≡ s.latency_ringbuf
      → t.batch_cnt ≡ s.batch_cnt
      → s.batch_cnt cpu ≡ some cur
      → cur < batch_size
      → Balanced cpu s cur t
  unmoved cpu s t cur ring counters counter bound =
      (cur, rw counters counter, bound, rw ring (omega arith), rw ring (omega arith))

  pushed :
      (c : Call) (s : State k) (e : LatencyEvent) (cur : ℕ)
      → ((b : k.latencies.Buffer) → k.latencies.fits b ≡ true)
      → s.batch_cnt c.cpu ≡ some cur
      → cur < batch_size
      → Balanced c.cpu s cur (push_event k c s e)
  pushed c s e cur room counter bound =
      let flags : ℕ = wakeup_flag cur in
      let written = k.latencies.records-output s.latency_ringbuf e flags (room s.latency_ringbuf) in
      let old : List (LatencyEvent × ℕ) = records_of s in
      let longer = length-append old ((e, flags) ∷ []) in
      let wakes = forced-append old ((e, flags) ∷ []) in
      rw (push_event_lem k c s e cur counter bound) (
        next_count cur,
        ground (arith, ==_refl c.cpu),
        ground arith,
        rw written (omega (arith, longer)),
        rw written (ground (arith, longer, wakes)),
      )

  sent :
      (c : Call) (s : State k) (cur : ℕ)
      → ((b : k.latencies.Buffer) → k.latencies.fits b ≡ true)
      → s.batch_cnt c.cpu ≡ some cur
      → cur < batch_size
      → Balanced c.cpu s cur (try_on_sendmsg k c s).0
  unfolding try_on_sendmsg report_request
  sent c s cur room counter bound = elim (Bool-cases (is_target_pid s.target_pid c.pid)) [
    | inr other ↦ rw (other, try_on_sendmsg) (unmoved c.cpu s s cur refl refl counter bound)
    | inl accepted ↦ elim (Option-cases (k.requests.get s.req_ctx c.tgid)) [
      | inl missing ↦
          rw (accepted, missing, try_on_sendmsg) (unmoved c.cpu s s cur refl refl counter bound)
      | inr (ctx, found) ↦
          let taken : State k = record s { req_ctx = k.requests.remove s.req_ctx c.tgid } in
          rw (accepted, found, try_on_sendmsg)
            (elim (Bool-cases (ltb max_latency (wrapping_sub c.now_ns ctx.start_ns))) [
              | inl late ↦
                  rw (late, report_request) (unmoved c.cpu s taken cur refl refl counter bound)
              | inr soon ↦
                  rw (soon, report_request)
                    (pushed c taken (latency_event c ctx) cur room counter bound)
            ])
    ]
  ]

  enter-Balanced :
      (p : Program) (c : Call) (s : State k) (cur : ℕ)
      → ((b : k.latencies.Buffer) → k.latencies.fits b ≡ true)
      → s.batch_cnt c.cpu ≡ some cur
      → cur < batch_size
      → Balanced c.cpu s cur (enter k p c s).0
  enter-Balanced on_tcp_sendmsg c s cur room counter bound =
      unfold enter handler in sent c s cur room counter bound
  enter-Balanced p c s cur room counter bound =
      let (ring, counters) = quiet k p c s (λ e. cc) in
      unmoved c.cpu s (enter k p c s).0 cur ring counters counter bound

  -- As long as the buffer has room, the wake-ups of a CPU and its records keep in step: over any
  -- calls on that CPU, from a counter below 16, 16 times the wake-ups and what the counter holds
  -- at the end are together the records written and what the counter held at the start. The
  -- counter stays below 16.
  pub run-Balanced :
      (calls : List (Program × Call)) (s : State k) (cpu cur : ℕ)
      → ((b : k.latencies.Buffer) → k.latencies.fits b ≡ true)
      → All (λ call. call.1.cpu ≡ cpu) calls
      → s.batch_cnt cpu ≡ some cur
      → cur < batch_size
      → Balanced cpu s cur (run k calls s)
  unfolding run
  run-Balanced [] s cpu cur room here counter bound = unmoved cpu s s cur refl refl counter bound
  run-Balanced ((p, c) ∷ calls) s cpu cur room (same, here) counter bound =
      let t : State k = (enter k p c s).0 in
      let (count, held, below, grew, paid) =
        subst (λ x. Balanced x s cur t) same
          (enter-Balanced p c s cur room (ap s.batch_cnt same ∙ counter) bound) in
      let (count', held', below', grew', paid') =
        run-Balanced calls t cpu count room here held below in
      (count', held', below', omega arith, omega arith)
