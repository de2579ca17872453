-- ===== src/Pipeline/Counted.antt =====
-- A request on the wire, through the probes, the buffer and the collector, to its place in the
-- statistics (aya-test-ebpf/src/main.rs, aya-test/src/reader.rs, aya-test/src/resp.rs,
-- aya-test/src/stats.rs).
use aya_e_bpf.Prelude.{
  ℕ, ◌^◌, ◌≤◌, ◌<◌, ◌≡◌, ◌≢◌, refl, sym, ap, ◌∙◌, true, List, [], ◌∷◌, ◌++◌, map, map-append,
  length, all, some, arith, All,
}
use aya_e_bpf.Prelude.Assoc.{bytes_eq, lookup}
use aya_e_bpf.Prelude.Bytes.{Bytes, same_refl, is_alphabetic, upper}
use aya_e_bpf.Prelude.Int.{pos}
use aya_e_bpf.Common.Event.{LatencyEvent}
use aya_e_bpf.Ebpf.Kernel.{ReqCtx, Kernel, Call, State}
use aya_e_bpf.Ebpf.Probe.{
  is_target_pid, read_iov_base, zeros, batch_size, max_latency, wrapping_sub, latency_event,
  retval_of,
}
use aya_e_bpf.Ebpf.Request.{before_send, full_ctx, wakeup_flag, request_reported}
use aya_e_bpf.Ebpf.Step.{Program, on_tcp_recvmsg, on_tcp_recvmsg_ret, on_tcp_sendmsg, enter}
use aya_e_bpf.Pipeline.{IsCall, events_of, images_of}
use aya_e_bpf.Pipeline.Images.{Readable, Readable-IsImage, enter-Readable, run-Readable}
use aya_e_bpf.Reader.{Shared, process_event, process_batch, reader_round}
use aya_e_bpf.Reader.Refine.{add_sample, lookup-record_command}
use aya_e_bpf.Reader.Totals.{reader_round-encode}
use aya_e_bpf.Resp.{Decoder, as_ref, classify_command}
use aya_e_bpf.Resp.Request.{request, captured}
use aya_e_bpf.Resp.RoundTrip.{Fits, classify-request}
use aya_e_bpf.Stats.Latency.{record_latency}
use aya_e_bpf.Stats.Metrics.{Metrics}

pub process_batch-append :
    (m : Metrics) (d : Decoder) (xs ys : List LatencyEvent) (s : Shared m)
    → process_batch m d (xs ++ ys) s ≡ process_batch m d ys (process_batch m d xs s)
unfolding process_batch
process_batch-append m d [] ys s = refl
process_batch-append m d (x ∷ xs) ys s = process_batch-append m d xs ys (process_event m d x s)

-- The statistics take one more sample of a command, and the overall ones the same sample.
abbrev pub Counts : (m : Metrics) → Bytes → ℕ → ℕ → Shared m → Shared m → Type 0
Counts m cmd l b old new =
    (lookup cmd new.cmd_stats ≡ some (add_sample m l b (lookup cmd old.cmd_stats)))
    × (new.stats ≡ record_latency m l b old.stats)

process_event-Counts :
    (m : Metrics) (d : Decoder) (e : LatencyEvent) (cmd : Bytes) (l b : ℕ) (s : Shared m)
    → as_ref (classify_command d e.req_data) ≡ cmd
    → e.latency_ns ≡ l
    → e.bytes ≡ b
    → Counts m cmd l b s (process_event m d e s)
unfolding process_event
process_event-Counts m d e cmd l b s class lat size =
    let name : Bytes = as_ref (classify_command d e.req_data) in
    let added = lookup-record_command m name name e.latency_ns e.bytes s.cmd_stats in
    (
      rw (← class) (rw (same_refl name) at added)
          ∙ ap (λ x. some (add_sample m x e.bytes (lookup cmd s.cmd_stats))) lat
          ∙ ap (λ x. some (add_sample m l x (lookup cmd s.cmd_stats))) size,
      ap (λ x. record_latency m x e.bytes s.stats) lat
          ∙ ap (λ x. record_latency m l x s.stats) size,
    )

event_data : (c : Call) (ctx : ReqCtx) → (latency_event c ctx).req_data ≡ ctx.req_data
unfolding latency_event
event_data c ctx = refl

event_latency :
    (c : Call) (ctx : ReqCtx)
    → (latency_event c ctx).latency_ns ≡ wrapping_sub c.now_ns ctx.start_ns
unfolding latency_event
event_latency c ctx = refl

event_bytes :
    (c : Call) (ctx : ReqCtx) (n : ℕ)
    → c.retval ≡ some (pos n)
    → n < 2 ^ 32
    → (latency_event c ctx).bytes ≡ n
unfolding latency_event retval_of
event_bytes c ctx n sent small = ground arith

module _ (k : Kernel) (recv ret : Call) (between later : List (Program × Call)) (s : State k) where
  before_send-Readable :
      IsCall recv
      → IsCall ret
      → All (λ call. IsCall call.1) between
      → All (λ call. IsCall call.1) later
      → Readable k s
      → Readable k (before_send k recv ret between later s)
  before_send-Readable ids ids' ids_between ids_later h = run-Readable k later _ ids_later (
      enter-Readable k on_tcp_recvmsg_ret ret _ ids'
        (run-Readable k between _ ids_between (enter-Readable k on_tcp_recvmsg recv s ids h)))

module _ (m : Metrics) (d : Decoder) (k : Kernel) (padding : Bytes) (pad : length padding ≡ 4)
    (shared : Shared m) where
  -- What the collector makes of a buffer.
  abbrev pub collected : State k → Shared m
  collected t = reader_round m d (images_of padding (events_of k t)) shared

  collected_batch :
      (t : State k) → Readable k t → collected t ≡ process_batch m d (events_of k t) shared
  collected_batch t h =
      reader_round-encode m d (events_of k t) padding shared pad (Readable-IsImage k t h)

  collected_one :
      (t u : State k) (e : LatencyEvent) (flags : ℕ)
      → Readable k t
      → Readable k u
      → k.latencies.records u.latency_ringbuf
        ≡ k.latencies.records t.latency_ringbuf ++ (e, flags) ∷ []
      → collected u ≡ process_event m d e (collected t)
  unfolding process_batch
  collected_one t u e flags ht hu grown =
      collected_batch u hu
      ∙ ap (λ evs. process_batch m d evs shared)
          (ap (map (λ r. r.0)) grown ∙ map-append (λ r. r.0) _ ((e, flags) ∷ []))
      ∙ process_batch-append m d (events_of k t) (e ∷ []) shared
      ∙ ap (process_event m d e) (sym (collected_batch t ht))

  -- A request of a process, whose bytes stand in the user's buffer, is counted once: after the answer,
  -- the collector's statistics of its command, in upper case, hold one sample more than before it, with
  -- the time from the receive to the answer and the bytes of the answer, and the overall statistics hold
  -- the same. Other processes may do anything in between. The command must be letters only and stand
  -- whole in 32 bytes, the filter and the map accept the request, its latency be at most 10 s, and the
  -- CPU have its counter and the buffer room.
  pub request_counted :
      (recv ret send : Call) (between later : List (Program × Call)) (s : State k) (cmd : Bytes)
      (args : List Bytes) (stale : Bytes) (n cur : ℕ)
      → k.read_user ret (read_iov_base k recv) zeros ≡ captured (request cmd args) stale
      → all is_alphabetic cmd ≡ true
      → 0 < length cmd
      → Fits cmd args
      → send.retval ≡ some (pos n)
      → n < 2 ^ 32
      → is_target_pid s.target_pid recv.pid ≡ true
      → is_target_pid s.target_pid ret.pid ≡ true
      → is_target_pid s.target_pid send.pid ≡ true
      → k.requests.accepts s.req_ctx recv.tgid ≡ true
      → read_iov_base k recv ≢ 0
      → ret.tgid ≡ recv.tgid
      → send.tgid ≡ recv.tgid
      → All (λ call. call.1.tgid ≢ recv.tgid) between
      → All (λ call. call.1.tgid ≢ recv.tgid) later
      → wrapping_sub send.now_ns recv.now_ns ≤ max_latency
      → (before_send k recv ret between later s).batch_cnt send.cpu ≡ some cur
      → cur < batch_size
      → k.latencies.fits (before_send k recv ret between later s).latency_ringbuf ≡ true
      → IsCall recv
      → IsCall ret
      → IsCall send
      → All (λ call. IsCall call.1) between
      → All (λ call. IsCall call.1) later
      → Readable k s
      → Counts m
          (upper cmd)
          (wrapping_sub send.now_ns recv.now_ns)
          n
          (collected (before_send k recv ret between later s))
          (collected (enter k on_tcp_sendmsg send (before_send k recv ret between later s)).0)
  request_counted recv ret send between later s cmd args stale n cur bytes letters some_letter fits
        sent small target target' target'' room buffer here here' apart apart' in_time counter bound
        free ids ids' ids'' ids_between ids_later h =
      let t : State k = before_send k recv ret between later s in
      let e : LatencyEvent = latency_event send (full_ctx k recv ret between later s) in
      let readable =
        before_send-Readable k recv ret between later s ids ids' ids_between ids_later h in
      let grown =
        request_reported k recv ret between later s send cur target target' target'' room buffer
          here here' apart apart' in_time counter bound free in
      let one =
        collected_one t (enter k on_tcp_sendmsg send t).0 e (wakeup_flag cur) readable
          (enter-Readable k on_tcp_sendmsg send t ids'' readable) grown in
      let class =
        ap (λ d'. as_ref (classify_command d d')) bytes
        ∙ classify-request d cmd args stale letters some_letter fits in
      let ctx : ReqCtx = full_ctx k recv ret between later s in
      let named = ap (λ t. as_ref (classify_command d t)) (event_data send ctx) ∙ class in
      rw one (
        process_event-Counts m d e (upper cmd) (wrapping_sub send.now_ns recv.now_ns) n
          (collected t) named (event_latency send ctx) (event_bytes send ctx n sent small))
