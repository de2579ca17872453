-- ===== src/Ebpf/Request.antt =====
-- One request through the three probes, with any calls of other processes between them
-- (aya-test-ebpf/src/main.rs).
use aya_e_bpf.Prelude.{
  ℕ, ◌+◌, ◌%◌, ◌^◌, ◌≤◌, ◌<◌, ◌≡◌, ◌≢◌, refl, ◌∙◌, sym, ap, Bool, true, false, List, [], ◌∷◌, ◌++◌,
  some, none, arith, All, if◌then◌else◌, leb, ==_refl, Option-cases, inl, inr,
}
use aya_e_bpf.Common.Event.{LatencyEvent}
use aya_e_bpf.Ebpf.Kernel.{ReqCtx, Kernel, Call, State}
use aya_e_bpf.Ebpf.Probe.{
  is_target_pid, read_client, read_iov_base, new_ctx, zeros, set_counter, batch_size, no_wakeup,
  force_wakeup, max_latency, wrapping_sub, latency_event, try_on_recvmsg, try_on_recvmsg_ret,
  store_request, try_on_sendmsg, report_request, push_event,
}
use aya_e_bpf.Ebpf.Step.{
  Program, on_tcp_recvmsg, on_tcp_recvmsg_ret, on_tcp_sendmsg, handler, enter, run,
}
use aya_e_bpf.Ebpf.Isolation.{run_others, report-req_ctx, enter_switches}

-- The flag of the record that a CPU writes with its counter at `cur`.
abbrev pub wakeup_flag : ℕ → ℕ
wakeup_flag cur = if leb batch_size (cur + 1) then force_wakeup else no_wakeup

-- The counter that it leaves.
abbrev pub next_count : ℕ → ℕ
next_count cur = if leb batch_size (cur + 1) then 0 else cur + 1

module _ (k : Kernel) where
  -- An accepted receive stores a fresh context.
  pub recv_stores :
      (c : Call) (s : State k)
      → is_target_pid s.target_pid c.pid ≡ true
      → k.requests.accepts s.req_ctx c.tgid ≡ true
      → k.requests.get (enter k on_tcp_recvmsg c s).0.req_ctx c.tgid ≡ some (new_ctx k c)
  unfolding enter handler try_on_recvmsg
  recv_stores c s target room =
      ground
        (arith, k.requests.get-insert s.req_ctx c.tgid c.tgid (new_ctx k c) room, ==_refl c.tgid)

  -- The end of the receive reads the request's bytes, and clears the buffer's address.
  pub recv_ret_reads :
      (c : Call) (s : State k) (ctx : ReqCtx)
      → is_target_pid s.target_pid c.pid ≡ true
      → k.requests.get s.req_ctx c.tgid ≡ some ctx
      → ctx.iov_base ≢ 0
      → k.requests.get (enter k on_tcp_recvmsg_ret c s).0.req_ctx c.tgid
        ≡ some (record ctx { req_data = k.read_user c ctx.iov_base zeros; iov_base = 0 })
  unfolding enter handler try_on_recvmsg_ret store_request
  recv_ret_reads c s ctx target found buffer = ground (
    arith,
    k.requests.get-write s.req_ctx c.tgid c.tgid
        (record ctx { req_data = k.read_user c ctx.iov_base zeros; iov_base = 0 }) ctx found,
    ==_refl c.tgid,
  )

  -- A send that the filter accepts leaves no context of its process in the map, whether it reports
  -- one or not.
  pub send_removes :
      (c : Call) (s : State k)
      → is_target_pid s.target_pid c.pid ≡ true
      → k.requests.get (enter k on_tcp_sendmsg c s).0.req_ctx c.tgid ≡ none
  unfolding enter handler try_on_sendmsg
  send_removes c s target = elim (Option-cases (k.requests.get s.req_ctx c.tgid)) [
    | inl missing ↦ ground arith
    | inr (ctx, found) ↦ ground (
      arith,
      k.requests.get-remove s.req_ctx c.tgid c.tgid,
      ==_refl c.tgid,
      report-req_ctx k c (record s { req_ctx = k.requests.remove s.req_ctx c.tgid }) ctx,
    )
  ]

  pub push_event_lem :
      (c : Call) (s : State k) (event : LatencyEvent) (cur : ℕ)
      → s.batch_cnt c.cpu ≡ some cur
      → cur < batch_size
      → push_event k c s event ≡ record s {
        batch_cnt = set_counter s.batch_cnt c.cpu (next_count cur);
        latency_ringbuf = k.latencies.output s.latency_ringbuf event (wakeup_flag cur);
      }
  unfolding push_event
  push_event_lem c s event cur counter bound =
      let no_wrap : (cur + 1) % 2 ^ 32 ≡ cur + 1 = omega arith in
      rw (counter, push_event) (rw no_wrap (pushed (leb batch_size (cur + 1))))
    where
      pushed :
          (full : Bool)
          → (if full
              then record s {
                batch_cnt = set_counter s.batch_cnt c.cpu 0;
                latency_ringbuf = k.latencies.output s.latency_ringbuf event force_wakeup;
              }
              else record s {
                batch_cnt = set_counter s.batch_cnt c.cpu (cur + 1);
                latency_ringbuf = k.latencies.output s.latency_ringbuf event no_wakeup;
              })
            ≡ record s {
              batch_cnt = set_counter s.batch_cnt c.cpu (if full then 0 else cur + 1);
              latency_ringbuf =
                  k.latencies.output s.latency_ringbuf event
                    (if full then force_wakeup else no_wakeup);
            }
      pushed true = refl
      pushed false = refl

  -- A send writes one record if the latency is at most 10 s, the counter is there and the buffer has
  -- room.
  pub send_reports :
      (c : Call) (s : State k) (ctx : ReqCtx) (cur : ℕ)
      → is_target_pid s.target_pid c.pid ≡ true
      → k.requests.get s.req_ctx c.tgid ≡ some ctx
      → wrapping_sub c.now_ns ctx.start_ns ≤ max_latency
      → s.batch_cnt c.cpu ≡ some cur
      → cur < batch_size
      → k.latencies.fits s.latency_ringbuf ≡ true
      → k.latencies.records (enter k on_tcp_sendmsg c s).0.latency_ringbuf
        ≡ k.latencies.records s.latency_ringbuf ++ (latency_event c ctx, wakeup_flag cur) ∷ []
  unfolding enter handler try_on_sendmsg report_request
  send_reports c s ctx cur target found in_time counter bound room =
      let removed : State k = record s { req_ctx = k.requests.remove s.req_ctx c.tgid } in
      ground (
        arith,
        push_event_lem c removed (latency_event c ctx) cur,
        k.latencies.records-output s.latency_ringbuf (latency_event c ctx) (wakeup_flag cur) room,
      )

-- The life of one request: a receive, its return and a send of one process, and the calls of other
-- processes between them.
module _ (k : Kernel) (recv ret : Call) (between later : List (Program × Call)) (s : State k) where
  abbrev pub before_send : State k
  before_send =
      run k later
        (enter k on_tcp_recvmsg_ret ret (run k between (enter k on_tcp_recvmsg recv s).0)).0

  -- The context that the request has when it is answered.
  abbrev pub full_ctx : ReqCtx
  full_ctx = record {
    start_ns = recv.now_ns;
    iov_base = 0;
    client_packed = read_client k recv;
    req_data = k.read_user ret (read_iov_base k recv) zeros;
  }

  ctx_before_send :
      is_target_pid s.target_pid recv.pid ≡ true
      → is_target_pid s.target_pid ret.pid ≡ true
      → k.requests.accepts s.req_ctx recv.tgid ≡ true
      → read_iov_base k recv ≢ 0
      → ret.tgid ≡ recv.tgid
      → All (λ call. call.1.tgid ≢ recv.tgid) between
      → All (λ call. call.1.tgid ≢ recv.tgid) later
      → (k.requests.get before_send.req_ctx recv.tgid ≡ some full_ctx)
        × (before_send.target_pid ≡ s.target_pid)
  ctx_before_send target target' room buffer same apart apart' =
      let first : State k = (enter k on_tcp_recvmsg recv s).0 in
      let second : State k = run k between first in
      let third : State k = (enter k on_tcp_recvmsg_ret ret second).0 in
      let others = run_others k between first recv.tgid apart in
      let others' = run_others k later third recv.tgid apart' in
      let kept : second.target_pid ≡ s.target_pid =
        others.1 ∙ (enter_switches k on_tcp_recvmsg recv s).0 in
      let stored : k.requests.get second.req_ctx ret.tgid ≡ some (new_ctx k recv) =
        rw same (others.0 ∙ recv_stores k recv s target room) in
      let target'' : is_target_pid second.target_pid ret.pid ≡ true = rw kept target' in
      let read = recv_ret_reads k ret second (new_ctx k recv) target'' stored buffer in
      (
        others'.0 ∙ (ap (λ t. k.requests.get third.req_ctx t) (sym same) ∙ read),
        others'.1 ∙ (enter_switches k on_tcp_recvmsg_ret ret second).0 ∙ kept,
      )

  -- A request is reported by one record at the end of the buffer: the time from the receive to the
  -- send, the client and the bytes of the receive, and the result of the send, whatever other processes
  -- do in between. The request must be accepted by the filter and the map, its buffer known, its latency
  -- at most 10 s, and the send's CPU must have its counter, and the buffer room.
  pub request_reported :
      (send : Call) (cur : ℕ)
      → is_target_pid s.target_pid recv.pid ≡ true
      → is_target_pid s.target_pid ret.pid ≡ true
      → is_target_pid s.target_pid send.pid ≡ true
      → k.requests.accepts s.req_ctx recv.tgid ≡ true
      → read_iov_base k recv ≢ 0
      → ret.tgid ≡ recv.tgid
      → send.tgid ≡ recv.tgid
      → All (λ call. call.1.tgid ≢ recv.tgid) between
      → All (λ call. call.1.tgid ≢ recv.tgid) later
      → wrapping_sub send.now_ns recv.now_ns ≤ max_latency
      → before_send.batch_cnt send.cpu ≡ some cur
      → cur < batch_size
      → k.latencies.fits before_send.latency_ringbuf ≡ true
      → k.latencies.records (enter k on_tcp_sendmsg send before_send).0.latency_ringbuf
        ≡ k.latencies.records before_send.latency_ringbuf
          ++ (latency_event send full_ctx, wakeup_flag cur) ∷ []
  request_reported send cur target target' target'' room buffer same same' apart apart' in_time
        counter bound fits =
      let (found, kept) = ctx_before_send target target' room buffer same apart apart' in
      send_reports k send before_send full_ctx cur (rw kept target'') (rw same' found) in_time
        counter bound fits
