-- ===== src/Pipeline/Locks/Printed.antt =====
-- Every panel of the reporter shows the statistics after whole batches
-- (aya-test/src/reader.rs, aya-test/src/reporter.rs).
use aya_e_bpf.Prelude.{
  ◌==◌, ap, ℕ, ◌≡◌, refl, Bool, true, false, List, [], ◌∷◌, Option, none, some, Option-cases,
  Bool-cases, inl, inr, arith,
}
use aya_e_bpf.Prelude.Bytes.{Bytes}
use aya_e_bpf.Common.Event.{LatencyEvent}
use aya_e_bpf.Monitor.{
  Machine, ProcessMonitor, MonitorReport, shown, nothing_shown, report_panicked, report_monitor,
}
use aya_e_bpf.Pipeline.Locks.Running.{reader_step_inv}
use aya_e_bpf.Pipeline.Locks.{
  Task, reader, reporter, ReaderPc, awaiting, wants_stats, wants_commands, wants_clients,
  processing, has_two, has_one, ReporterPc, ticking, asks_stats, has_stats, asks_commands,
  has_commands, asks_clients, has_clients, monitoring, dead, Tasks, spawned, latency_panel,
  command_panel, client_panel, monitor_panel, reader_at, monitored, reporter_at, reporter_step,
  Reaches, here, by_reader, by_reporter,
}
use aya_e_bpf.Reader.{Shared}
use aya_e_bpf.Resp.{Decoder}
use aya_e_bpf.Stats.Latency
use aya_e_bpf.Stats.Latency.{report_latency}
use aya_e_bpf.Stats.Report.{report_commands, report_clients}
use aya_e_bpf.Stats.Metrics.{Metrics}
use aya_e_bpf.Pipeline.Locks.Owners.{
  Owned, Locked, After, after_step, reader_has_stats, reader_has_commands, reader_has_clients,
}
use aya_e_bpf.Pipeline.Locks.Held.{spawned-IsLocked, IsLocked, Reaches-Locked}
use aya_e_bpf.Pipeline.Locks.Batches.{processed, Holds, IsHeld, Reaches-Holds}
use aya_e_bpf.Pipeline.Tasks.{Agree}
use aya_e_bpf.Pipeline.Locks.Panels.{Shows, InOrder, none_yet, InOrder-longer, Prints, print_now}

-- A mutex that the reporter holds, the reader does not.
reporter_alone : (x : Option Task) (r : Bool) → Owned x r true → r ≡ false
reporter_alone none r h = h.0
reporter_alone (some reader) r h = absurd (ground (arith, h))
reporter_alone (some reporter) r h = h.0

-- Whoever processes a batch holds all three.
without_stats : (r : ReaderPc) → reader_has_stats r ≡ false → reader_has_clients r ≡ false
without_stats (processing batch left) h = h
without_stats r h = refl

without_commands : (r : ReaderPc) → reader_has_commands r ≡ false → reader_has_clients r ≡ false
without_commands (processing batch left) h = h
without_commands r h = refl

module _ (m : Metrics) (d : Decoder) (machine : Machine m) where
  at_boundary :
      (initial : Shared m) (r : ReaderPc) (finished : List (List LatencyEvent)) (s : Shared m)
      → reader_has_clients r ≡ false
      → Holds m d machine initial r finished s
      → Agree m s (processed m d machine finished initial)
  at_boundary initial (processing batch left) finished s h held = absurd (ground (arith, h))
  at_boundary initial r finished s h held = held

  Agree-Shows :
      (i : ℕ) (s t : Shared m)
      → Agree m s t
      → Shows m d machine i (latency_panel (report_latency m i s.stats).1) t
  unfolding report_latency
  Agree-Shows i s t h = elim (Bool-cases (s.stats.total == 0)) [
    | inl empty ↦ rw empty (ground (arith, h.total))
    | inr some_there ↦ rw some_there (
      s.stats.prev_total,
      s.stats.prev_bytes,
      λ j. Latency.latency_panel m i (record {
        histogram = h.histogram j;
        total = h.total j;
        total_bytes = h.total_bytes j;
        prev_total = s.stats.prev_total;
        prev_bytes = s.stats.prev_bytes;
      }),
    )
  ]

  -- The panels of a state, which a step adds to.
  abbrev pub IsPrinted : ℕ → Shared m → Tasks m d machine → Type 0
  IsPrinted i initial u = Prints m d machine i initial u.finished u.printed

  reader_at-Printed :
      (i : ℕ) (initial : Shared m) (pc : ReaderPc) (items : List Bytes) (u : Tasks m d machine)
      → IsPrinted i initial u
      → After (IsPrinted i initial) (reader_at m d machine pc items u)
  unfolding reader_at
  reader_at-Printed i initial awaiting items u h = h
  reader_at-Printed i initial (wants_stats batch) items u h = elim (Option-cases u.mutexes.stats) [
    | inr (holder, held) ↦ rw held tt
    | inl free ↦ rw free h
  ]
  reader_at-Printed i initial (wants_commands batch) items u h =
      elim (Option-cases u.mutexes.cmd_stats) [
        | inr (holder, held) ↦ rw held tt
        | inl free ↦ rw free h
      ]
  reader_at-Printed i initial (wants_clients batch) items u h =
      elim (Option-cases u.mutexes.client_stats) [
        | inr (holder, held) ↦ rw held tt
        | inl free ↦ rw free h
      ]
  reader_at-Printed i initial (processing batch (ev ∷ left)) items u h = h
  reader_at-Printed i initial (processing batch []) items u (n, h) =
      (n, InOrder-longer m d machine i initial u.finished batch h)
  reader_at-Printed i initial has_two items u h = h
  reader_at-Printed i initial has_one items u h = h

  monitored-Printed :
      (i : ℕ) (initial : Shared m) (r : MonitorReport m machine) (u : Tasks m d machine)
      → IsPrinted i initial u
      → IsPrinted i initial (monitored m d machine r u)
  unfolding monitored
  monitored-Printed i initial (shown next panel) u h =
      print_now m d machine i initial u.finished u.printed (monitor_panel panel) h tt
  monitored-Printed i initial (nothing_shown next) u h = h
  monitored-Printed i initial report_panicked u h = h

  module _ (interval_secs : ℕ) (with_commands with_clients : Bool) where
    reporter_at-Printed :
        (initial : Shared m) (pc : ReporterPc) (now : machine.Instant) (raw : Option Bytes)
        (u : Tasks m d machine)
        → Locked u.mutexes u.reader_pc pc
        → IsHeld m d machine initial u
        → IsPrinted interval_secs initial u
        → After
            (IsPrinted interval_secs initial)
            (reporter_at m d machine interval_secs with_commands with_clients pc now raw u)
    unfolding reporter_at
    reporter_at-Printed initial ticking now raw u x held h = h
    reporter_at-Printed initial asks_stats now raw u x held h =
        elim (Option-cases u.mutexes.stats) [
          | inr (holder, held) ↦ rw held tt
          | inl free ↦ rw free h
        ]
    reporter_at-Printed initial has_stats now raw u x held h =
        let apart = without_stats u.reader_pc (reporter_alone u.mutexes.stats _ x.0) in
        print_now m d machine interval_secs initial u.finished u.printed _ h (
          Agree-Shows interval_secs u.shared _
            (at_boundary initial u.reader_pc u.finished u.shared apart held))
    reporter_at-Printed initial asks_commands now raw u x held h =
        elim (Option-cases u.mutexes.cmd_stats) [
          | inr (holder, held) ↦ rw held tt
          | inl free ↦ rw free h
        ]
    reporter_at-Printed initial has_commands now raw u x held h =
        let apart = without_commands u.reader_pc (reporter_alone u.mutexes.cmd_stats _ x.1) in
        print_now m d machine interval_secs initial u.finished u.printed
          (command_panel (report_commands m u.shared.cmd_stats)) h
          (ap (report_commands m)
            (at_boundary initial u.reader_pc u.finished u.shared apart held).commands)
    reporter_at-Printed initial asks_clients now raw u x held h =
        elim (Option-cases u.mutexes.client_stats) [
          | inr (holder, held) ↦ rw held tt
          | inl free ↦ rw free h
        ]
    reporter_at-Printed initial has_clients now raw u x held h =
        let apart = reporter_alone u.mutexes.client_stats _ x.2 in
        print_now m d machine interval_secs initial u.finished u.printed
          (client_panel (report_clients m u.shared.client_stats)) h
          (ap (report_clients m)
            (at_boundary initial u.reader_pc u.finished u.shared apart held).clients)
    reporter_at-Printed initial monitoring now raw u x held h =
        monitored-Printed interval_secs initial (report_monitor m machine now raw u.monitor) u h
    reporter_at-Printed initial dead now raw u x held h = tt

    Reaches-Printed :
        (initial : Shared m) {u v : Tasks m d machine}
        → Reaches m d machine interval_secs with_commands with_clients u v
        → IsLocked m d machine u
        → IsHeld m d machine initial u
        → IsPrinted interval_secs initial u
        → IsPrinted interval_secs initial v
    unfolding reporter_step
    Reaches-Printed initial here x held h = h
    Reaches-Printed initial (by_reader {v = v} {w = w} items r e) x held h =
        after_step (IsPrinted interval_secs initial) _ w
          (reader_at-Printed interval_secs initial v.reader_pc items v
            (Reaches-Printed initial r x held h))
          (reader_step_inv m d machine items v w e)
    Reaches-Printed initial (by_reporter {v = v} {w = w} now raw r e) x held h =
        after_step (IsPrinted interval_secs initial) _ w
          (reporter_at-Printed initial v.reporter_pc now raw v
            (Reaches-Locked m d machine interval_secs with_commands with_clients r x)
            (Reaches-Holds m d machine interval_secs with_commands with_clients initial r held)
            (Reaches-Printed initial r x held h))
          e

    -- However the two tasks are interleaved, every panel shows the statistics after some number of
    -- whole batches, never of a part of one, and each panel after at least as many batches as the panel
    -- before it.
    pub panels_ordered :
        {v : Tasks m d machine} (shared : Shared m) (monitor : ProcessMonitor m machine)
        → Reaches m d machine interval_secs with_commands with_clients
            (spawned m d machine shared monitor)
            v
        → (n : ℕ) × InOrder m d machine interval_secs shared v.finished v.printed n
    unfolding processed
    panels_ordered shared monitor r =
        Reaches-Printed shared r (spawned-IsLocked m d machine shared monitor)
          (record {
            histogram = refl;
            total = refl;
            total_bytes = refl;
            commands = refl;
            clients = refl;
          })
          (0, none_yet)
