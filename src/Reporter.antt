-- ===== src/Reporter.antt =====
-- aya-test/src/reporter.rs: one turn of the reporter's loop, with the panels that it prints.
use aya_e_bpf.Prelude.{
  ℕ, Bool, true, false, List, ◌≡◌, refl, Option, none, some, if◌then◌else◌, Bool-cases, inl, inr,
}
use aya_e_bpf.Prelude.Bytes.{Bytes}
use aya_e_bpf.Monitor.{
  Machine, ProcessMonitor, MonitorPanel, MonitorReport, shown, nothing_shown, report_panicked,
  report_monitor,
}
use aya_e_bpf.Stats.Clients.{ClientStats}
use aya_e_bpf.Stats.Commands.{CommandStats}
use aya_e_bpf.Stats.Latency.{LatencyStats, LatencyPanel, report_latency}
use aya_e_bpf.Stats.Metrics.{Metrics}
use aya_e_bpf.Stats.Report.{CommandRow, ClientRow, is_cut, report_commands, report_clients}

module _ (m : Metrics) (c : Machine m) where
  -- What the turn prints: nothing for a panel that is skipped.
  pub record Panels : Type 0 where
    pub latency : Option LatencyPanel
    pub commands : Option (List CommandRow)
    pub clients : Option (List (ClientRow m))
    pub monitor : Option (MonitorPanel m c)

  -- The statistics and the monitor after the turn; `died` when it panics, and the process with it (`panic =
  -- "abort"`).
  pub data Turn : Type 0 where
    turned : LatencyStats m → ProcessMonitor m c → Panels → Turn
    died : LatencyStats m → Turn

  -- `if let Some(ref cs) = cmd_stats { … }`
  unfoldable pub command_panel : Option (CommandStats m) → Option (List CommandRow)
  command_panel none = none
  command_panel (some cs) = report_commands m cs

  unfoldable pub client_panel : Option ClientStats → Option (List (ClientRow m))
  client_panel none = none
  client_panel (some cs) = report_clients m cs

  -- The turn, by what has become of the monitor.
  unfoldable pub turn_of :
      LatencyStats m
      → Option LatencyPanel
      → Option (CommandStats m)
      → Option ClientStats
      → MonitorReport m c
      → Turn
  turn_of stats latency cmd_stats client_stats (shown monitor panel) =
      turned stats monitor (record {
        latency = latency;
        commands = command_panel cmd_stats;
        clients = client_panel client_stats;
        monitor = some panel;
      })
  turn_of stats latency cmd_stats client_stats (nothing_shown monitor) =
      turned stats monitor (record {
        latency = latency;
        commands = command_panel cmd_stats;
        clients = client_panel client_stats;
        monitor = none;
      })
  turn_of stats latency cmd_stats client_stats report_panicked = died stats

  unfoldable pub report_turn :
      ℕ
      → Option (CommandStats m)
      → Option ClientStats
      → c.Instant
      → Option Bytes
      → LatencyStats m
      → ProcessMonitor m c
      → Turn
  report_turn interval_secs cmd_stats client_stats now raw stats monitor =
      let (stats', latency) = report_latency m interval_secs stats in
      if is_cut (command_panel cmd_stats)
      then died stats'
      else turn_of stats' latency cmd_stats client_stats (report_monitor m c now raw monitor)

  unfoldable pub survives : Turn → Bool
  survives (turned stats monitor panels) = true
  survives (died stats) = false

  -- The latency statistics that a turn leaves.
  unfoldable pub stats_after : Turn → LatencyStats m
  stats_after (turned stats monitor panels) = stats
  stats_after (died stats) = stats

  stats_after-turn_of :
      (stats : LatencyStats m) (latency : Option LatencyPanel) (cmd_stats : Option (CommandStats m))
      (client_stats : Option ClientStats) (r : MonitorReport m c)
      → stats_after (turn_of stats latency cmd_stats client_stats r) ≡ stats
  unfolding stats_after turn_of
  stats_after-turn_of stats latency cmd_stats client_stats (shown monitor panel) = refl
  stats_after-turn_of stats latency cmd_stats client_stats (nothing_shown monitor) = refl
  stats_after-turn_of stats latency cmd_stats client_stats report_panicked = refl

  -- Whatever `/proc/self/stat` holds, and whatever panels there are, a turn leaves the latency statistics
  -- that their report leaves.
  pub stats_after-report_turn :
      (interval_secs : ℕ) (cmd_stats : Option (CommandStats m)) (client_stats : Option ClientStats)
      (now : c.Instant) (raw : Option Bytes) (stats : LatencyStats m) (monitor : ProcessMonitor m c)
      → stats_after (report_turn interval_secs cmd_stats client_stats now raw stats monitor)
        ≡ (report_latency m interval_secs stats).0
  unfolding report_turn stats_after
  stats_after-report_turn interval_secs cmd_stats client_stats now raw stats monitor =
      elim (Bool-cases (is_cut (command_panel cmd_stats))) [
        | inl cut ↦ rw cut refl
        | inr whole ↦
            rw whole
              (stats_after-turn_of _ _ cmd_stats client_stats (report_monitor m c now raw monitor))
      ]
