-- ===== src/Pipeline/Locks/Turn.antt =====
-- A turn of the reporter that nothing interrupts (aya-test/src/reader.rs, aya-test/src/reporter.rs).
use aya_e_bpf.Prelude.{
  ◌++◌, append_assoc, if◌then◌else◌, zero, suc, ◌+◌, ap, ℕ, ◌≡◌, refl, Bool, true, false, List, [],
  ◌∷◌, Option, none, some,
}
use aya_e_bpf.Prelude.Bytes.{Bytes}
use aya_e_bpf.Common.Event.{LatencyEvent}
use aya_e_bpf.Monitor.{
  Machine, ProcessMonitor, MonitorReport, shown, nothing_shown, report_panicked, report_monitor,
}
use aya_e_bpf.Pipeline.Locks.{
  dead, Panel, latency_panel, command_panel, client_panel, monitor_panel, Tasks, monitored,
  after_commands, after_stats, reporter_at, reporter_step,
}
use aya_e_bpf.Reader.{Shared}
use aya_e_bpf.Reporter.{Panels, Turn, turned, died, turn_of, report_turn}
use aya_e_bpf.Stats.Latency.{report_latency}
use aya_e_bpf.Resp.{Decoder}
use aya_e_bpf.Stats.Metrics.{Metrics}
use aya_e_bpf.Reporter
use aya_e_bpf.Stats.Report.{is_cut, report_commands}
use aya_e_bpf.Pipeline.Locks.Round.{at_rest}

module _ (m : Metrics) (d : Decoder) (machine : Machine m) where
  module _ (interval_secs : ℕ) (with_commands with_clients : Bool) where
    unfoldable pub run_reporter :
        ℕ → machine.Instant → Option Bytes → Tasks m d machine → Option (Tasks m d machine)
    run_reporter zero now raw u = some u
    run_reporter (suc n) now raw u =
        elim (reporter_step m d machine interval_secs with_commands with_clients now raw u) [
          | none ↦ none
          | some v ↦ run_reporter n now raw v
        ]

    -- What a turn prints, in its order.
    unfoldable pub listed : Panels m machine → List (Panel m d machine)
    listed panels =
        latency_panel panels.latency
          ∷ (if with_commands then command_panel panels.commands ∷ [] else [])
        ++ (if with_clients then client_panel panels.clients ∷ [] else [])
        ++ elim panels.monitor [ none ↦ [] | some panel ↦ monitor_panel panel ∷ [] ]

    unfoldable pub turn_steps : ℕ
    turn_steps = 4 + (if with_commands then 2 else 0) + (if with_clients then 2 else 0)

  -- How a turn ends: at rest, with its panels printed; or with a task that has ended, and no lock held.
  abbrev pub EndsAs :
      (interval_secs : ℕ) (with_commands with_clients : Bool) (shared : Shared m)
      (finished : List (List LatencyEvent)) (printed : List (Panel m d machine))
      → Turn m machine
      → Option (Tasks m d machine)
      → Type 0
  EndsAs i wc wcl shared finished printed (turned stats monitor panels) o =
      o
      ≡ some (
          at_rest m d machine (record shared { stats = stats }) monitor finished
            (printed ++ listed i wc wcl panels))
  EndsAs i wc wcl shared finished printed (died stats) o =
      (u : Tasks m d machine) × (o ≡ some u)
      × (u.reporter_pc ≡ dead)
      × (u.shared ≡ record shared { stats = stats })
      × (u.mutexes ≡ record { stats = none; cmd_stats = none; client_stats = none })

  ends :
      (i : ℕ) (wc wcl : Bool) (now : machine.Instant) (raw : Option Bytes) (shared : Shared m)
      (finished : List (List LatencyEvent)) (printed : List (Panel m d machine))
      (monitor : ProcessMonitor m machine) (r : MonitorReport m machine)
      → is_cut (report_commands m shared.cmd_stats) ≡ false
      → report_monitor m machine now raw monitor ≡ r
      → EndsAs i wc wcl shared finished printed
          (turn_of m machine
            (report_latency m i shared.stats).0
            (report_latency m i shared.stats).1
            (if wc then some shared.cmd_stats else none)
            (if wcl then some shared.client_stats else none)
            r)
          (run_reporter i wc wcl
            (turn_steps i wc wcl)
            now
            raw
            (at_rest m d machine shared monitor finished printed))
  unfolding turn_of run_reporter turn_steps listed reporter_step reporter_at after_stats
      after_commands Reporter.command_panel Reporter.client_panel monitored
  ends i true true now raw shared finished printed monitor (shown next panel) whole e =
      rw (whole, e, run_reporter)
        (ap
          (λ l. some (
            at_rest m d machine (record shared { stats = (report_latency m i shared.stats).0 }) next
              finished l))
          (simp append_assoc))
  ends i true true now raw shared finished printed monitor (nothing_shown next) whole e =
      rw (whole, e, run_reporter)
        (ap
          (λ l. some (
            at_rest m d machine (record shared { stats = (report_latency m i shared.stats).0 }) next
              finished l))
          (simp append_assoc))
  ends i true true now raw shared finished printed monitor report_panicked whole e =
      rw (whole, e, run_reporter) (_, refl, refl, refl, refl)
  ends i true false now raw shared finished printed monitor (shown next panel) whole e =
      rw (whole, e, run_reporter)
        (ap
          (λ l. some (
            at_rest m d machine (record shared { stats = (report_latency m i shared.stats).0 }) next
              finished l))
          (simp append_assoc))
  ends i true false now raw shared finished printed monitor (nothing_shown next) whole e =
      rw (whole, e, run_reporter)
        (ap
          (λ l. some (
            at_rest m d machine (record shared { stats = (report_latency m i shared.stats).0 }) next
              finished l))
          (simp append_assoc))
  ends i true false now raw shared finished printed monitor report_panicked whole e =
      rw (whole, e, run_reporter) (_, refl, refl, refl, refl)
  ends i false true now raw shared finished printed monitor (shown next panel) whole e = rw e (
      ap
        (λ l. some (
          at_rest m d machine (record shared { stats = (report_latency m i shared.stats).0 }) next
            finished l))
        (simp append_assoc))
  ends i false true now raw shared finished printed monitor (nothing_shown next) whole e = rw e (
      ap
        (λ l. some (
          at_rest m d machine (record shared { stats = (report_latency m i shared.stats).0 }) next
            finished l))
        (simp append_assoc))
  ends i false true now raw shared finished printed monitor report_panicked whole e =
      rw e (_, refl, refl, refl, refl)
  ends i false false now raw shared finished printed monitor (shown next panel) whole e = rw e (
      ap
        (λ l. some (
          at_rest m d machine (record shared { stats = (report_latency m i shared.stats).0 }) next
            finished l))
        (simp append_assoc))
  ends i false false now raw shared finished printed monitor (nothing_shown next) whole e =
      rw e refl
  ends i false false now raw shared finished printed monitor report_panicked whole e =
      rw e (_, refl, refl, refl, refl)

  panel_whole :
      (wc : Bool) (shared : Shared m)
      → is_cut (report_commands m shared.cmd_stats) ≡ false
      → is_cut (Reporter.command_panel m machine (if wc then some shared.cmd_stats else none))
        ≡ false
  unfolding Reporter.command_panel is_cut
  panel_whole true shared whole = whole
  panel_whole false shared whole = refl

  -- A turn of the reporter that the reader does not interrupt, and whose rows all print, is the turn of the reporter's loop, with
  -- the same panels in their order, and the same end when the monitor panics; it leaves all locks free.
  pub reporter_alone :
      (interval_secs : ℕ) (with_commands with_clients : Bool) (now : machine.Instant)
      (raw : Option Bytes) (shared : Shared m) (monitor : ProcessMonitor m machine)
      (finished : List (List LatencyEvent)) (printed : List (Panel m d machine))
      → is_cut (report_commands m shared.cmd_stats) ≡ false
      → EndsAs interval_secs with_commands with_clients shared finished printed
          (report_turn m machine interval_secs
            (if with_commands then some shared.cmd_stats else none)
            (if with_clients then some shared.client_stats else none)
            now
            raw
            shared.stats
            monitor)
          (run_reporter interval_secs with_commands with_clients
            (turn_steps interval_secs with_commands with_clients)
            now
            raw
            (at_rest m d machine shared monitor finished printed))
  unfolding report_turn
  reporter_alone i wc wcl now raw shared monitor finished printed whole =
      let panel = panel_whole wc shared whole in
      rw panel (
        ends i wc wcl now raw shared finished printed monitor
          (report_monitor m machine now raw monitor) whole refl)
