-- ===== src/Tests/Locks.antt =====
-- The locks of the collector (aya-test/src/reader.rs, aya-test/src/reporter.rs), with a batch of one event.
use aya_e_bpf.Prelude.{ℕ, ◌≡◌, ◌≢◌, refl, true, List, [], ◌∷◌, some, none}
use aya_e_bpf.Prelude.Bytes.{Bytes}
use aya_e_bpf.Common.Event.{LatencyEvent}
use aya_e_bpf.Common.Layout.{encode_latency, le_bytes, decode_latency, of_le}
use aya_e_bpf.Ebpf.Probe.{zeros}
use aya_e_bpf.Monitor.{ProcessMonitor}
use aya_e_bpf.Pipeline.Locks.{
  Tasks, spawned, woken, reader_at, while_running, reader_step, reporter_at, reporter_step, Reaches,
  here, by_reader, by_reporter, asks_stats, asks_commands, latency_panel, after_stats,
  wants_commands, reader,
}
use aya_e_bpf.Pipeline.Locks.Drops.{to_go, run_reader, reporter_waits}
use aya_e_bpf.Pipeline.Locks.Panels.{InOrder}
use aya_e_bpf.Pipeline.Locks.Printed.{panels_ordered}
use aya_e_bpf.Pipeline.Locks.Round.{at_rest}
use aya_e_bpf.Pipeline.Locks.Turn.{run_reporter, turn_steps, EndsAs, reporter_alone}
use aya_e_bpf.Reader.{Shared, collect, process_event}
use aya_e_bpf.Stats.Latency.{report_latency}
use aya_e_bpf.Reporter.{report_turn}
use aya_e_bpf.Stats.Report.{is_cut, report_commands, command_entries}
use aya_e_bpf.Stats.Sort.{sort_desc}
use aya_e_bpf.Tests.Collector.{empty, padding}
use aya_e_bpf.Tests.Instances.{metrics, decoder, machine}

abbrev event : LatencyEvent
event = record {
  pid = 7;
  tid = 7;
  latency_ns = 2000;
  bytes = 7;
  client_ip = 0;
  client_port = 0;
  command = 0;
  is_error = 0;
  req_data = zeros;
}

abbrev items : List Bytes
items = encode_latency event padding ∷ []

abbrev new_monitor : ProcessMonitor metrics machine
new_monitor = record { prev = none }

abbrev tasks : Tasks metrics decoder machine
tasks = spawned metrics decoder machine empty new_monitor

-- The reader has locked the first table of its batch, and the reporter asks for it.
abbrev reader_first : Tasks metrics decoder machine
reader_first = record tasks {
  mutexes = record tasks.mutexes { stats = some reader };
  reader_pc = wants_commands (event ∷ []);
  reporter_pc = asks_stats;
}

to_reader_first : Reaches metrics decoder machine 5 true true tasks reader_first
unfolding while_running reader_step reporter_step reader_at reporter_at woken collect encode_latency
    le_bytes decode_latency of_le
to_reader_first = by_reader items (by_reporter 0 none (by_reader items here refl) refl) refl

reporter_waits_example :
    (w : Tasks metrics decoder machine) × (run_reader metrics decoder machine
        (to_go (wants_commands (event ∷ [])))
        reader_first
      ≡ some w)
    × (reporter_step metrics decoder machine 5 true true 0 none w ≢ none)
reporter_waits_example =
    reporter_waits metrics decoder machine 5 true true empty new_monitor 0 none to_reader_first tt

-- The reader has processed its batch, and the reporter has shown the first panel.
abbrev counted : Shared metrics
counted = process_event metrics decoder event empty

abbrev panel_shown : Tasks metrics decoder machine
panel_shown = record tasks {
  shared = record counted { stats = (report_latency metrics 5 counted.stats).0 };
  reporter_pc = asks_commands;
  finished = (event ∷ []) ∷ [];
  printed = latency_panel (report_latency metrics 5 counted.stats).1 ∷ [];
}

to_panel_shown : Reaches metrics decoder machine 5 true true tasks panel_shown
unfolding while_running reader_step reporter_step reader_at reporter_at woken collect encode_latency
    le_bytes decode_latency of_le after_stats
to_panel_shown =
    by_reporter 0 none
      (by_reporter 0 none
        (by_reader []
          (by_reporter 0 none
            (by_reader []
              (by_reader []
                (by_reader []
                  (by_reader [] (by_reader [] (by_reader [] (by_reader items here refl) refl) refl)
                    refl)
                  refl)
                refl)
              refl)
            refl)
          refl)
        refl)
      refl

panels_ordered_example :
    (n : ℕ) × InOrder metrics decoder machine 5 empty panel_shown.finished panel_shown.printed n
panels_ordered_example =
    panels_ordered metrics decoder machine 5 true true empty new_monitor to_panel_shown

reporter_alone_example :
    EndsAs metrics decoder machine 5 true true empty [] []
      (report_turn metrics machine 5
        (some empty.cmd_stats)
        (some empty.client_stats)
        0
        none
        empty.stats
        new_monitor)
      (run_reporter metrics decoder machine 5 true true
        (turn_steps metrics decoder machine 5 true true)
        0
        none
        (at_rest metrics decoder machine empty new_monitor [] []))
unfolding is_cut report_commands command_entries sort_desc
reporter_alone_example =
    reporter_alone metrics decoder machine 5 true true 0 none empty new_monitor [] [] refl
