-- ===== src/Pipeline/Images.antt =====
-- What the probes write is what the collector reads (aya-test-ebpf/src/main.rs, aya-test/src/reader.rs).
use aya_e_bpf.Prelude.{ℕ, ◌^◌, ◌<◌, ◌≡◌, refl, List, [], ◌∷◌, map, length, Option, All, arith}
use aya_e_bpf.Prelude.Bytes.{Bytes}
use aya_e_bpf.Common.Event.{LatencyEvent}
use aya_e_bpf.Common.Layout.{IsImage}
use aya_e_bpf.Ebpf.Kernel.{ReqCtx, Kernel, Call, State}
use aya_e_bpf.Ebpf.Probe.{latency_event}
use aya_e_bpf.Ebpf.Records.{Inv, enter-Inv}
use aya_e_bpf.Ebpf.Report.{IsReport}
use aya_e_bpf.Ebpf.Step.{Program, enter, run}
use aya_e_bpf.Ebpf.Written.{enter-All}
use aya_e_bpf.Pipeline.{IsCall, events_of, images_of}
use aya_e_bpf.Reader.{Shared, process_batch, reader_round}
use aya_e_bpf.Reader.Totals.{reader_round-encode}
use aya_e_bpf.Resp.{Decoder}
use aya_e_bpf.Stats.Metrics.{Metrics}

-- The numbers of an event that come from the call.
pub record IsOfCall (e : LatencyEvent) : Type 0 where
  pub pid_fits : e.pid < 2 ^ 32
  pub tid_fits : e.tid < 2 ^ 32
  pub no_command : e.command ≡ 0

pub latency_event-IsOfCall : (c : Call) (ctx : ReqCtx) → IsCall c → IsOfCall (latency_event c ctx)
unfolding latency_event
latency_event-IsOfCall c ctx h = record {
  pid_fits = h.pid_fits;
  tid_fits = h.tgid_fits;
  no_command = refl;
}

IsReport-IsImage :
    (target : Option ℕ) (e : LatencyEvent) → IsReport target e → IsOfCall e → IsImage e
IsReport-IsImage target e r c = record {
  pid_fits = c.pid_fits;
  tid_fits = c.tid_fits;
  latency_fits = omega (arith, r.in_time);
  bytes_fit = r.bytes_fit;
  ip_fits = r.ip_fits;
  port_fits = r.port_fits;
  command_fits = omega (arith, c.no_command);
  error_fits = omega (arith, r.error_flag);
  request_bytes = r.request_bytes;
}

module _ (k : Kernel) where
  -- What makes every event in the buffer readable: the probes' invariant, and ids that fit.
  pub record Readable (s : State k) : Type 0 where
    pub inv : Inv k s
    pub of_calls : All (λ r. IsOfCall r.0) (k.latencies.records s.latency_ringbuf)

  images :
      (target : Option ℕ) (rs : List (LatencyEvent × ℕ))
      → All (λ r. IsReport target r.0) rs
      → All (λ r. IsOfCall r.0) rs
      → All IsImage (map (λ r. r.0) rs)
  images target [] reports calls = tt
  images target ((e, flags) ∷ rs) (report, reports) (call, calls) =
      (IsReport-IsImage target e report call, images target rs reports calls)

  pub Readable-IsImage : (s : State k) → Readable s → All IsImage (events_of k s)
  Readable-IsImage s h =
      images s.target_pid (k.latencies.records s.latency_ringbuf) h.inv.reports h.of_calls

  pub enter-Readable :
      (p : Program) (c : Call) (s : State k) → IsCall c → Readable s → Readable (enter k p c s).0
  enter-Readable p c s call h = record {
    inv = enter-Inv k p c s h.inv;
    of_calls = enter-All k IsOfCall p c s (λ ctx. latency_event-IsOfCall c ctx call) h.of_calls;
  }

  pub run-Readable :
      (calls : List (Program × Call)) (s : State k)
      → All (λ call. IsCall call.1) calls
      → Readable s
      → Readable (run k calls s)
  unfolding run
  run-Readable [] s ids h = h
  run-Readable ((p, c) ∷ calls) s (call, ids) h =
      run-Readable calls (enter k p c s).0 ids (enter-Readable p c s call h)

  -- Whatever the kernel calls, with ids that fit `u32`, the collector reads the images of the buffer as
  -- exactly the events that the probes wrote, and processes them in the order in which they were
  -- written, if that held of the buffer before.
  pub collector_reads_probes :
      (m : Metrics) (d : Decoder) (calls : List (Program × Call)) (s : State k) (padding : Bytes)
      (shared : Shared m)
      → length padding ≡ 4
      → All (λ call. IsCall call.1) calls
      → Readable s
      → reader_round m d (images_of padding (events_of k (run k calls s))) shared
        ≡ process_batch m d (events_of k (run k calls s)) shared
  collector_reads_probes m d calls s padding shared pad ids h =
      reader_round-encode m d (events_of k (run k calls s)) padding shared pad
        (Readable-IsImage (run k calls s) (run-Readable calls s ids h))
