-- ===== src/Pipeline/Locks.antt =====
-- The locks of the collector: the reader's task (aya-test/src/reader.rs) and the reporter's
-- (aya-test/src/reporter.rs), one access to a lock or to what it guards at a time.
pub mod Running
pub mod Owners
pub mod Held
pub mod Blocked
pub mod Drops
pub mod Round
pub mod Turn
pub mod Batches
pub mod Panels
pub mod Printed
use aya_e_bpf.Prelude.{ℕ, Bool, List, [], ◌∷◌, ◌++◌, ◌≡◌, Option, none, some, if◌then◌else◌}
use aya_e_bpf.Prelude.Bytes.{Bytes}
use aya_e_bpf.Common.Event.{LatencyEvent}
use aya_e_bpf.Monitor.{
  Machine, ProcessMonitor, MonitorPanel, MonitorReport, shown, nothing_shown, report_panicked,
  report_monitor,
}
use aya_e_bpf.Reader.{Shared, collect, process_event}
use aya_e_bpf.Resp.{Decoder}
use aya_e_bpf.Stats.Latency.{LatencyStats, LatencyPanel, report_latency}
use aya_e_bpf.Stats.Metrics.{Metrics}
use aya_e_bpf.Stats.Report.{CommandRow, ClientRow, is_cut, report_commands, report_clients}

pub data Task : Type 0 where
  reader reporter : Task

-- Which task holds each of the three locks.
pub record Mutexes : Type 0 where
  pub stats : Option Task
  pub cmd_stats : Option Task
  pub client_stats : Option Task

-- The lines of the reader's loop: the wait for the buffer; the three calls of `lock`; the loop over the
-- batch, with the whole batch and what is left of it; and the drops of the guards, the last one first.
pub data ReaderPc : Type 0 where
  awaiting : ReaderPc
  wants_stats wants_commands wants_clients : List LatencyEvent → ReaderPc
  processing : List LatencyEvent → List LatencyEvent → ReaderPc
  has_two has_one : ReaderPc

-- The lines of the reporter's loop: the tick; a call of `lock` and a report for each table; the monitor;
-- and the end of the process, when the monitor or the print of a name panics (`panic = "abort"`).
pub data ReporterPc : Type 0 where
  ticking asks_stats has_stats asks_commands has_commands asks_clients has_clients : ReporterPc
  monitoring dead : ReporterPc

module _ (m : Metrics) (d : Decoder) (machine : Machine m) where
  pub data Panel : Type 0 where
    latency_panel : Option LatencyPanel → Panel
    command_panel : Option (List CommandRow) → Panel
    client_panel : Option (List (ClientRow m)) → Panel
    monitor_panel : MonitorPanel m machine → Panel

  -- What is shared, who holds its locks, where the tasks stand, the batches that the reader has finished,
  -- and the panels that were printed, both oldest first.
  pub record Tasks : Type 0 where
    pub shared : Shared m
    pub mutexes : Mutexes
    pub reader_pc : ReaderPc
    pub reporter_pc : ReporterPc
    pub monitor : ProcessMonitor m machine
    pub finished : List (List LatencyEvent)
    pub printed : List Panel

  -- The tasks when they are spawned.
  abbrev pub spawned : Shared m → ProcessMonitor m machine → Tasks
  spawned shared monitor = record {
    shared = shared;
    mutexes = record { stats = none; cmd_stats = none; client_stats = none };
    reader_pc = awaiting;
    reporter_pc = ticking;
    monitor = monitor;
    finished = [];
    printed = [];
  }

  -- `if !batch.is_empty()`
  unfoldable pub woken : List LatencyEvent → ReaderPc
  woken [] = awaiting
  woken (e ∷ batch) = wants_stats (e ∷ batch)

  -- A step of the reader, from where it stands; `none` if it waits for a lock. `items` is what the buffer
  -- gives when it is woken.
  unfoldable pub reader_at : ReaderPc → List Bytes → Tasks → Option Tasks
  reader_at awaiting items u = some (record u { reader_pc = woken (collect items []) })
  reader_at (wants_stats batch) items u = elim u.mutexes.stats [
    | some holder ↦ none
    | none ↦ some (record u {
      mutexes = record u.mutexes { stats = some reader };
      reader_pc = wants_commands batch;
    })
  ]
  reader_at (wants_commands batch) items u = elim u.mutexes.cmd_stats [
    | some holder ↦ none
    | none ↦ some (record u {
      mutexes = record u.mutexes { cmd_stats = some reader };
      reader_pc = wants_clients batch;
    })
  ]
  reader_at (wants_clients batch) items u = elim u.mutexes.client_stats [
    | some holder ↦ none
    | none ↦ some (record u {
      mutexes = record u.mutexes { client_stats = some reader };
      reader_pc = processing batch batch;
    })
  ]
  reader_at (processing batch (ev ∷ left)) items u =
      some (record u { shared = process_event m d ev u.shared; reader_pc = processing batch left })
  reader_at (processing batch []) items u = some (record u {
    mutexes = record u.mutexes { client_stats = none };
    reader_pc = has_two;
    finished = u.finished ++ batch ∷ [];
  })
  reader_at has_two items u =
      some (record u { mutexes = record u.mutexes { cmd_stats = none }; reader_pc = has_one })
  reader_at has_one items u =
      some (record u { mutexes = record u.mutexes { stats = none }; reader_pc = awaiting })

  -- Nothing runs in a process that has ended.
  unfoldable pub while_running : ReporterPc → Option Tasks → Option Tasks
  while_running dead next = none
  while_running pc next = next

  unfoldable pub reader_step : List Bytes → Tasks → Option Tasks
  reader_step items u = while_running u.reporter_pc (reader_at u.reader_pc items u)

  -- The monitor's report, by what has become of it.
  unfoldable pub monitored : MonitorReport m machine → Tasks → Tasks
  monitored (shown next panel) u = record u {
    monitor = next;
    reporter_pc = ticking;
    printed = u.printed ++ monitor_panel panel ∷ [];
  }
  monitored (nothing_shown next) u = record u { monitor = next; reporter_pc = ticking }
  monitored report_panicked u = record u { reporter_pc = dead }

  module _ (interval_secs : ℕ) (with_commands with_clients : Bool) where
    -- `if let Some(ref cs) = …`, for the tables that the reporter was given.
    unfoldable pub after_commands : ReporterPc
    after_commands = if with_clients then asks_clients else monitoring

    unfoldable pub after_stats : ReporterPc
    after_stats = if with_commands then asks_commands else after_commands

    -- A step of the reporter; `none` if it waits for a lock, or the process has ended. The interval is not
    -- 0: Startup/Main has what happens with 0.
    unfoldable pub reporter_at : ReporterPc → machine.Instant → Option Bytes → Tasks → Option Tasks
    reporter_at ticking now raw u = some (record u { reporter_pc = asks_stats })
    reporter_at asks_stats now raw u = elim u.mutexes.stats [
      | some holder ↦ none
      | none ↦ some (record u {
        mutexes = record u.mutexes { stats = some reporter };
        reporter_pc = has_stats;
      })
    ]
    reporter_at has_stats now raw u = some (record u {
      shared = record u.shared { stats = (report_latency m interval_secs u.shared.stats).0 };
      mutexes = record u.mutexes { stats = none };
      reporter_pc = after_stats;
      printed = u.printed ++ latency_panel (report_latency m interval_secs u.shared.stats).1 ∷ [];
    })
    reporter_at asks_commands now raw u = elim u.mutexes.cmd_stats [
      | some holder ↦ none
      | none ↦ some (record u {
        mutexes = record u.mutexes { cmd_stats = some reporter };
        reporter_pc = has_commands;
      })
    ]
    reporter_at has_commands now raw u = some (record u {
      mutexes = record u.mutexes { cmd_stats = none };
      reporter_pc = if is_cut (report_commands m u.shared.cmd_stats) then dead else after_commands;
      printed = u.printed ++ command_panel (report_commands m u.shared.cmd_stats) ∷ [];
    })
    reporter_at asks_clients now raw u = elim u.mutexes.client_stats [
      | some holder ↦ none
      | none ↦ some (record u {
        mutexes = record u.mutexes { client_stats = some reporter };
        reporter_pc = has_clients;
      })
    ]
    reporter_at has_clients now raw u = some (record u {
      mutexes = record u.mutexes { client_stats = none };
      reporter_pc = monitoring;
      printed = u.printed ++ client_panel (report_clients m u.shared.client_stats) ∷ [];
    })
    reporter_at monitoring now raw u =
        some (monitored (report_monitor m machine now raw u.monitor) u)
    reporter_at dead now raw u = none

    unfoldable pub reporter_step : machine.Instant → Option Bytes → Tasks → Option Tasks
    reporter_step now raw u = reporter_at u.reporter_pc now raw u

    -- The tasks in any order.
    pub data Reaches (u : Tasks) : Tasks → Type 0 where
      here : Reaches u u
      by_reader :
          {v w : Tasks} (items : List Bytes)
          → Reaches u v
          → reader_step items v ≡ some w
          → Reaches u w
      by_reporter :
          {v w : Tasks} (now : machine.Instant) (raw : Option Bytes)
          → Reaches u v
          → reporter_step now raw v ≡ some w
          → Reaches u w
