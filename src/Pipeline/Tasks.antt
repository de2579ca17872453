-- ===== src/Pipeline/Tasks.antt =====
-- The tasks of the program, interleaved in any order: the probes write to the buffer
-- (aya-test-ebpf/src/main.rs), the reader takes some of what is there (aya-test/src/reader.rs), and the
-- reporter shows the statistics (aya-test/src/reporter.rs). Each of these is one step here; Pipeline/Locks
-- takes the last two apart.
use aya_e_bpf.Prelude.{
  take_more, take_within, All-part, ℕ, ◌+◌, ◌≤◌, ◌≡◌, refl, ap, ◌∙◌, List, [], ◌∷◌, map, map-append,
  take, drop, length, length-append, arith, Option, some, true,
}
use aya_e_bpf.Prelude.Bytes.{Bytes}
use aya_e_bpf.Common.Event.{LatencyEvent}
use aya_e_bpf.Common.Layout.{IsImage}
use aya_e_bpf.Ebpf.Kernel.{Kernel, Call, State}
use aya_e_bpf.Ebpf.Step.{Program, enter}
use aya_e_bpf.Ebpf.Written.{enter-Extends}
use aya_e_bpf.Pipeline.{IsCall, events_of, images_of}
use aya_e_bpf.Pipeline.Counted.{process_batch-append}
use aya_e_bpf.Pipeline.Images.{Readable, Readable-IsImage, enter-Readable}
use aya_e_bpf.Reader.{Shared, process_event, process_batch, reader_round}
use aya_e_bpf.Reader.Totals.{reader_round-encode}
use aya_e_bpf.Resp.{Decoder}
use aya_e_bpf.Stats.Latency.{record_latency, report_latency}
use aya_e_bpf.Stats.Metrics.{Metrics}
use aya_e_bpf.Monitor.{Machine, ProcessMonitor}
use aya_e_bpf.Reporter.{survives, report_turn, stats_after, stats_after-report_turn}

-- The maps, how many records the reader has taken, and the shared statistics.
pub record System (k : Kernel) (m : Metrics) : Type 0 where
  pub probes : State k
  pub taken : ℕ
  pub shared : Shared m

-- What reports do not touch: everything but the counters that the last report saw.
pub record Agree (m : Metrics) (s t : Shared m) : Type 0 where
  pub histogram : s.stats.histogram ≡ t.stats.histogram
  pub total : s.stats.total ≡ t.stats.total
  pub total_bytes : s.stats.total_bytes ≡ t.stats.total_bytes
  pub commands : s.cmd_stats ≡ t.cmd_stats
  pub clients : s.client_stats ≡ t.client_stats

module _ (m : Metrics) (d : Decoder) where
  pub process_batch-Agree :
      (batch : List LatencyEvent) (s t : Shared m)
      → Agree m s t
      → Agree m (process_batch m d batch s) (process_batch m d batch t)
  unfolding process_batch process_event record_latency
  process_batch-Agree [] s t h = h
  process_batch-Agree (e ∷ batch) s t h =
      process_batch-Agree batch (process_event m d e s) (process_event m d e t)
        (ground (arith, h.commands))

  pub report-Agree :
      (i : ℕ) (s t : Shared m)
      → Agree m s t
      → Agree m (record s { stats = (report_latency m i s.stats).0 }) t
  unfolding report_latency
  report-Agree i s t h = ground arith

module _ (m : Metrics) (d : Decoder) (k : Kernel) (machine : Machine m) (padding : Bytes) where
  -- The reader takes `n` of the records that are there.
  unfoldable pub take_records : ℕ → System k m → System k m
  take_records n u = record u {
    taken = u.taken + n;
    shared =
        reader_round m d (images_of padding (take n (drop u.taken (events_of k u.probes))))
          u.shared;
  }

  -- A turn of the reporter, which `main` gives both tables; no step leads out of one that panics, since
  -- the process has ended.
  unfoldable pub turn :
      ℕ → machine.Instant → Option Bytes → ProcessMonitor m machine → System k m → System k m
  turn interval_secs now raw monitor u = record u {
    shared = record u.shared {
      stats = stats_after m machine (
          report_turn m machine interval_secs (some u.shared.cmd_stats) (some u.shared.client_stats)
            now raw u.shared.stats monitor);
    };
  }

  pub data Step (u v : System k m) : Type 0 where
    probe :
        (p : Program) (c : Call)
        → IsCall c
        → v ≡ record u { probes = (enter k p c u.probes).0 }
        → Step u v
    collect :
        (n : ℕ) → u.taken + n ≤ length (events_of k u.probes) → v ≡ take_records n u → Step u v
    report :
        (interval_secs : ℕ) (now : machine.Instant) (raw : Option Bytes)
        (monitor : ProcessMonitor m machine)
        → survives m machine (
            report_turn m machine interval_secs
              (some u.shared.cmd_stats)
              (some u.shared.client_stats)
              now
              raw
              u.shared.stats
              monitor)
          ≡ true
        → v ≡ turn interval_secs now raw monitor u
        → Step u v

  pub data Reach (u : System k m) : System k m → Type 0 where
    here : Reach u u
    next : {v w : System k m} → Reach u v → Step v w → Reach u w

  -- The statistics are those of the records taken so far, from `initial` on.
  pub record IsAccount (initial : Shared m) (u : System k m) : Type 0 where
    pub readable : Readable k u.probes
    pub in_buffer : u.taken ≤ length (events_of k u.probes)
    pub agrees : Agree m u.shared (process_batch m d (take u.taken (events_of k u.probes)) initial)

  probe-IsAccount :
      (initial : Shared m) (u : System k m) (p : Program) (c : Call)
      → IsCall c
      → IsAccount initial u
      → IsAccount initial (record u { probes = (enter k p c u.probes).0 })
  probe-IsAccount initial u p c ids h =
      let (rs, grown) = enter-Extends k p c u.probes in
      let events = ap (map (λ r. r.0)) grown ∙ map-append (λ r. r.0) _ rs in
      let longer = length-append (events_of k u.probes) (map (λ r. r.0) rs) in
      record {
        readable = enter-Readable k p c u.probes ids h.readable;
        in_buffer = rw events (omega (arith, h.in_buffer, longer));
        agrees = rw events (
            rw (take_within u.taken (events_of k u.probes) (map (λ r. r.0) rs) h.in_buffer)
              h.agrees);
      }

  collect-IsAccount :
      (pad : length padding ≡ 4) (initial : Shared m) (u : System k m) (n : ℕ)
      → u.taken + n ≤ length (events_of k u.probes)
      → IsAccount initial u
      → IsAccount initial (take_records n u)
  unfolding take_records
  collect-IsAccount pad initial u n fits h =
      let events : List LatencyEvent = events_of k u.probes in
      let part : List LatencyEvent = take n (drop u.taken events) in
      let images = All-part IsImage u.taken n events (Readable-IsImage k u.probes h.readable) in
      let all =
        ap (λ b. process_batch m d b initial) (take_more u.taken n events)
        ∙ process_batch-append m d (take u.taken events) part initial in
      record {
        readable = h.readable;
        in_buffer = fits;
        agrees =
            rw (reader_round-encode m d part padding u.shared pad images, all)
              (process_batch-Agree m d part u.shared _ h.agrees);
      }

  turn-IsAccount :
      (initial : Shared m) (u : System k m) (i : ℕ) (now : machine.Instant) (raw : Option Bytes)
      (monitor : ProcessMonitor m machine)
      → IsAccount initial u
      → IsAccount initial (turn i now raw monitor u)
  unfolding turn
  turn-IsAccount initial u i now raw monitor h =
      let left =
        stats_after-report_turn m machine i (some u.shared.cmd_stats) (some u.shared.client_stats)
          now raw u.shared.stats monitor in
      record {
        readable = h.readable;
        in_buffer = h.in_buffer;
        agrees = rw left (report-Agree m d i u.shared _ h.agrees);
      }

  Step-IsAccount :
      (pad : length padding ≡ 4) (initial : Shared m) {u v : System k m}
      → Step u v
      → IsAccount initial u
      → IsAccount initial v
  Step-IsAccount pad initial {u} {v} (probe p c ids e) h =
      rw e (probe-IsAccount initial u p c ids h)
  Step-IsAccount pad initial {u} {v} (collect n fits e) h =
      rw e (collect-IsAccount pad initial u n fits h)
  Step-IsAccount pad initial {u} {v} (report i now raw monitor alive e) h =
      rw e (turn-IsAccount initial u i now raw monitor h)

  Reach-IsAccount :
      (pad : length padding ≡ 4) (initial : Shared m) {u v : System k m}
      → Reach u v
      → IsAccount initial u
      → IsAccount initial v
  Reach-IsAccount pad initial here h = h
  Reach-IsAccount pad initial (next r st) h =
      Step-IsAccount pad initial st (Reach-IsAccount pad initial r h)

  -- In whatever order probes are called, the reader takes records and reports are made, the statistics
  -- are at any time those of the records that were taken so far, each processed once and in the order in
  -- which it was written, except for the counters that a report remembers.
  pub tasks_account :
      (s : State k) (initial : Shared m) (v : System k m)
      → length padding ≡ 4
      → Readable k s
      → Reach (record { probes = s; taken = 0; shared = initial }) v
      → (v.taken ≤ length (events_of k v.probes))
        × Agree m v.shared (process_batch m d (take v.taken (events_of k v.probes)) initial)
  unfolding process_batch
  tasks_account s initial v pad h r =
      let start : IsAccount initial (record { probes = s; taken = 0; shared = initial }) = record {
        readable = h;
        in_buffer = omega arith;
        agrees = record {
          histogram = refl;
          total = refl;
          total_bytes = refl;
          commands = refl;
          clients = refl;
        };
      } in
      let account = Reach-IsAccount pad initial r start in (account.in_buffer, account.agrees)
