-- ===== src/Ebpf/Served.antt =====
-- Requests that one CPU serves, one after the other: each is recorded, and each 16th wakes the collector
-- (aya-test-ebpf/src/main.rs).
use aya_e_bpf.Prelude.{
  ℕ, ◌+◌, ◌/◌, ◌≤◌, ◌<◌, ◌≡◌, ◌≢◌, ap, ◌∙◌, true, List, [], ◌∷◌, length, length-append, Option,
  some, arith, All,
}
use aya_e_bpf.Ebpf.Isolation.{quiet, enter_switches}
use aya_e_bpf.Ebpf.Kernel.{Kernel, Call, State}
use aya_e_bpf.Ebpf.Probe.{
  batch_size, max_latency, is_target_pid, read_iov_base, wrapping_sub, latency_event,
}
use aya_e_bpf.Ebpf.Request.{full_ctx, wakeup_flag, request_reported}
use aya_e_bpf.Ebpf.Step.{Program, on_tcp_recvmsg, on_tcp_recvmsg_ret, on_tcp_sendmsg, enter, run}
use aya_e_bpf.Ebpf.Wakeup.{forced, records_of, run-Balanced}

-- The three calls of a request.
pub record Service : Type 0 where
  pub recv : Call
  pub ret : Call
  pub send : Call

abbrev pub calls_of : List Service → List (Program × Call)
calls_of [] = []
calls_of (r ∷ rs) =
    (on_tcp_recvmsg, r.recv) ∷ (on_tcp_recvmsg_ret, r.ret) ∷ (on_tcp_sendmsg, r.send) ∷ calls_of rs

module _ (k : Kernel) where
  -- A request that the filter accepts, of one process on one CPU, with a buffer and an answer in time.
  pub record IsServed (target : Option ℕ) (cpu : ℕ) (r : Service) : Type 0 where
    pub recv_pid : is_target_pid target r.recv.pid ≡ true
    pub ret_pid : is_target_pid target r.ret.pid ≡ true
    pub send_pid : is_target_pid target r.send.pid ≡ true
    pub buffer : read_iov_base k r.recv ≢ 0
    pub ret_tgid : r.ret.tgid ≡ r.recv.tgid
    pub send_tgid : r.send.tgid ≡ r.recv.tgid
    pub in_time : wrapping_sub r.send.now_ns r.recv.now_ns ≤ max_latency
    pub recv_cpu : r.recv.cpu ≡ cpu
    pub ret_cpu : r.ret.cpu ≡ cpu
    pub send_cpu : r.send.cpu ≡ cpu

  -- Neither the map nor the buffer is ever full.
  pub record HasRoom : Type 0 where
    pub accepts : (m : k.requests.Map) (key : ℕ) → k.requests.accepts m key ≡ true
    pub fits : (b : k.latencies.Buffer) → k.latencies.fits b ≡ true

  served_cpu :
      (target : Option ℕ) (cpu : ℕ) (rs : List Service)
      → All (IsServed target cpu) rs
      → All (λ call. call.1.cpu ≡ cpu) (calls_of rs)
  served_cpu target cpu [] h = tt
  served_cpu target cpu (r ∷ rs) (hr, h) =
      (hr.recv_cpu, (hr.ret_cpu, (hr.send_cpu, served_cpu target cpu rs h)))

  -- One request: one record more, and the filter as before.
  served_one :
      (room : HasRoom) (cpu : ℕ) (r : Service) (s : State k) (cur : ℕ)
      → IsServed s.target_pid cpu r
      → s.batch_cnt cpu ≡ some cur
      → cur < batch_size
      → (length (records_of k (run k (calls_of (r ∷ [])) s)) ≡ length (records_of k s) + 1)
        × ((run k (calls_of (r ∷ [])) s).target_pid ≡ s.target_pid)
  unfolding run
  served_one room cpu r s cur h counter bound =
      let t : State k = (enter k on_tcp_recvmsg r.recv s).0 in
      let u : State k = (enter k on_tcp_recvmsg_ret r.ret t).0 in
      let (ring, counters) = quiet k on_tcp_recvmsg r.recv s (λ e. cc) in
      let (ring', counters') = quiet k on_tcp_recvmsg_ret r.ret t (λ e. cc) in
      let held : u.batch_cnt r.send.cpu ≡ some cur = rw (counters', counters, h.send_cpu) counter in
      let grown =
        request_reported k r.recv r.ret [] [] s r.send cur h.recv_pid h.ret_pid h.send_pid
          (room.accepts s.req_ctx r.recv.tgid) h.buffer h.ret_tgid h.send_tgid tt tt h.in_time held
          bound (room.fits u.latency_ringbuf) in
      let one =
        length-append (records_of k u)
          ((latency_event r.send (full_ctx k r.recv r.ret [] [] s), wakeup_flag cur) ∷ []) in
      let same = ap (λ b. length (k.latencies.records b)) (ring' ∙ ring) in
      (
        omega (arith, ap length grown, one, same),
        (enter_switches k on_tcp_sendmsg r.send u).0
            ∙ (enter_switches k on_tcp_recvmsg_ret r.ret t).0
            ∙ (enter_switches k on_tcp_recvmsg r.recv s).0,
      )

  served_records :
      (room : HasRoom) (cpu : ℕ) (rs : List Service) (s : State k) (cur : ℕ)
      → All (IsServed s.target_pid cpu) rs
      → s.batch_cnt cpu ≡ some cur
      → cur < batch_size
      → length (records_of k (run k (calls_of rs) s)) ≡ length (records_of k s) + length rs
  unfolding run
  served_records room cpu [] s cur h counter bound = omega arith
  served_records room cpu (r ∷ rs) s cur (hr, h) counter bound =
      let t : State k = run k (calls_of (r ∷ [])) s in
      let (grown, target) = served_one room cpu r s cur hr counter bound in
      let (count, held, below, _, _) =
        run-Balanced k (calls_of (r ∷ [])) s cpu cur room.fits
          (served_cpu s.target_pid cpu (r ∷ []) (hr, tt)) counter bound in
      let rest = served_records room cpu rs t count (rw target h) held below in omega arith

  -- A CPU that serves `n` requests in a row, with its counter at `cur`, below 16, before them, wakes the
  -- collector exactly `(cur + n) / 16` times, if neither the map nor the buffer is ever full.
  pub served_wakes :
      (cpu : ℕ) (rs : List Service) (s : State k) (cur : ℕ)
      → HasRoom
      → All (IsServed s.target_pid cpu) rs
      → s.batch_cnt cpu ≡ some cur
      → cur < batch_size
      → forced (records_of k (run k (calls_of rs) s))
        ≡ forced (records_of k s) + (cur + length rs) / batch_size
  served_wakes cpu rs s cur room h counter bound =
      let grown = served_records room cpu rs s cur h counter bound in
      let (count, held, below, longer, paid) =
        run-Balanced k (calls_of rs) s cpu cur room.fits (served_cpu s.target_pid cpu rs h) counter
          bound in
      omega arith
