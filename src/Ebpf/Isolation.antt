-- ===== src/Ebpf/Isolation.antt =====
-- What a probe call leaves alone (aya-test-ebpf/src/main.rs).
use aya_e_bpf.Prelude.{
  ℕ, ◌≡◌, ◌≢◌, refl, ◌∙◌, List, [], ◌∷◌, some, arith, All, Bool-cases, Option-cases, inl, inr,
}
use aya_e_bpf.Ebpf.Kernel.{ReqCtx, Kernel, Table, Call, State}
use aya_e_bpf.Ebpf.Probe.{
  is_target_pid, new_ctx, zeros, try_on_recvmsg, try_on_recvmsg_ret, store_request, try_on_sendmsg,
  report_request, push_event, try_on_connect,
}
use aya_e_bpf.Ebpf.Sample.{try_cpu_sample, push_sample}
use aya_e_bpf.Ebpf.Step.{
  Program, on_tcp_recvmsg, on_tcp_recvmsg_ret, on_tcp_sendmsg, on_tcp_connect, on_cpu_sample,
  handler, enter, run,
}

pub get-insert_ne :
    {V : Type 0} (t : Table V) (m : t.Map) (key j : ℕ) (v : V)
    → key ≢ j
    → t.get (t.insert m key v) j ≡ t.get m j
get-insert_ne t m key j v ne = elim (Bool-cases (t.accepts m key)) [
  | inl yes_fits ↦ t.get-insert m key j v yes_fits ∙ ground arith
  | inr refused ↦ t.get-insert_refused m key j v refused
]

module _ (k : Kernel) where
  -- A report touches neither the requests nor the switches.
  pub report-req_ctx :
      (c : Call) (s : State k) (ctx : ReqCtx)
      → ((report_request k c s ctx).req_ctx ≡ s.req_ctx)
        × ((report_request k c s ctx).target_pid ≡ s.target_pid)
        × ((report_request k c s ctx).flamegraph_on ≡ s.flamegraph_on)
  unfolding report_request push_event
  report-req_ctx c s ctx = ground arith

  -- The sampler writes its own buffer only.
  pub sample_frame :
      (c : Call) (s : State k)
      → ((try_cpu_sample k c s).0.req_ctx ≡ s.req_ctx)
        × ((try_cpu_sample k c s).0.latency_ringbuf ≡ s.latency_ringbuf)
        × ((try_cpu_sample k c s).0.target_pid ≡ s.target_pid)
        × ((try_cpu_sample k c s).0.batch_cnt ≡ s.batch_cnt)
  unfolding try_cpu_sample push_sample
  sample_frame c s = ground arith

  -- The other probes write neither the buffer nor the counter.
  pub quiet :
      (p : Program) (c : Call) (s : State k)
      → p ≢ on_tcp_sendmsg
      → ((enter k p c s).0.latency_ringbuf ≡ s.latency_ringbuf)
        × ((enter k p c s).0.batch_cnt ≡ s.batch_cnt)
  unfolding enter handler try_on_recvmsg try_on_recvmsg_ret store_request try_on_connect
  quiet on_cpu_sample c s other = let (_, ring, _, counters) = sample_frame c s in (ring, counters)
  quiet p c s other = ground arith

  -- No probe writes the switches.
  pub enter_switches :
      (p : Program) (c : Call) (s : State k)
      → ((enter k p c s).0.target_pid ≡ s.target_pid)
        × ((enter k p c s).0.flamegraph_on ≡ s.flamegraph_on)
  unfolding enter handler try_on_recvmsg try_on_recvmsg_ret store_request try_on_sendmsg
      try_on_connect try_cpu_sample push_sample
  enter_switches on_tcp_sendmsg c s = elim (Option-cases (k.requests.get s.req_ctx c.tgid)) [
    | inl missing ↦ ground arith
    | inr (ctx, found) ↦
        ground
          (arith, report-req_ctx c (record s { req_ctx = k.requests.remove s.req_ctx c.tgid }) ctx)
  ]
  enter_switches p c s = ground arith

  -- A call in one process leaves the contexts of the other processes alone.
  pub enter_other :
      (p : Program) (c : Call) (s : State k) (tgid : ℕ)
      → c.tgid ≢ tgid
      → k.requests.get (enter k p c s).0.req_ctx tgid ≡ k.requests.get s.req_ctx tgid
  unfolding enter handler try_on_recvmsg try_on_recvmsg_ret store_request try_on_sendmsg
      try_on_connect try_cpu_sample push_sample
  enter_other on_tcp_recvmsg c s tgid ne =
      ground (arith, get-insert_ne k.requests s.req_ctx c.tgid tgid (new_ctx k c) ne)
  enter_other on_tcp_recvmsg_ret c s tgid ne =
      elim (Option-cases (k.requests.get s.req_ctx c.tgid)) [
        | inl missing ↦ ground arith
        | inr (ctx, found) ↦ ground (
          arith,
          k.requests.get-write s.req_ctx c.tgid tgid
              (record ctx { req_data = k.read_user c ctx.iov_base zeros; iov_base = 0 }) ctx found,
        )
      ]
  enter_other on_tcp_sendmsg c s tgid ne = elim (Option-cases (k.requests.get s.req_ctx c.tgid)) [
    | inl missing ↦ ground arith
    | inr (ctx, found) ↦ ground (
      arith,
      k.requests.get-remove s.req_ctx c.tgid tgid,
      report-req_ctx c (record s { req_ctx = k.requests.remove s.req_ctx c.tgid }) ctx,
    )
  ]
  enter_other on_tcp_connect c s tgid ne = ground arith
  enter_other on_cpu_sample c s tgid ne = ground arith

  -- With a target other than 0 set, the TCP probes do nothing on a thread whose id is not the
  -- target, and return 0.
  pub enter_filtered :
      (p : Program) (c : Call) (s : State k) (target : ℕ)
      → s.target_pid ≡ some target
      → target ≢ 0
      → p ≢ on_cpu_sample
      → c.pid ≢ target
      → (enter k p c s) ≡ (s, 0)
  unfolding enter handler try_on_recvmsg try_on_recvmsg_ret store_request try_on_sendmsg
      try_on_connect is_target_pid
  enter_filtered p c s target set nonzero tcp other = ground arith

  -- Any number of calls in other processes leave a process's context alone, and no calls write the
  -- switches.
  pub run_others :
      (calls : List (Program × Call)) (s : State k) (tgid : ℕ)
      → All (λ call. call.1.tgid ≢ tgid) calls
      → (k.requests.get (run k calls s).req_ctx tgid ≡ k.requests.get s.req_ctx tgid)
        × ((run k calls s).target_pid ≡ s.target_pid)
        × ((run k calls s).flamegraph_on ≡ s.flamegraph_on)
  unfolding run
  run_others [] s tgid h = (refl, refl, refl)
  run_others ((p, c) ∷ calls) s tgid (ne, h) =
      let next : State k = (enter k p c s).0 in
      let (same_ctx, target, on) = run_others calls next tgid h in
      let (target', on') = enter_switches p c s in
      (same_ctx ∙ enter_other p c s tgid ne, target ∙ target', on ∙ on')
