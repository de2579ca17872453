-- ===== src/Stats/Commands.antt =====
-- `CommandStats` (aya-test/src/stats.rs): a histogram for each command name.
use aya_e_bpf.Prelude.{ℕ, List, [], none, some}
use aya_e_bpf.Prelude.Bytes.{Bytes}
use aya_e_bpf.Prelude.Assoc.{bytes_eq, lookup, insert}
use aya_e_bpf.Stats.Latency.{LatencyStats, new_latency, record_latency}
use aya_e_bpf.Stats.Metrics.{Metrics}

abbrev pub CommandStats : Metrics → Type 0
CommandStats m = List (Bytes × LatencyStats m)

module _ (m : Metrics) where
  abbrev pub new_commands : CommandStats m
  new_commands = []

  -- The statistics of a known command take the sample; a new one starts from an empty histogram.
  unfoldable pub record_command : Bytes → ℕ → ℕ → CommandStats m → CommandStats m
  record_command cmd_name latency_ns bytes commands = elim (lookup cmd_name commands) [
    | some stats ↦ insert cmd_name (record_latency m latency_ns bytes stats) commands
    | none ↦ insert cmd_name (record_latency m latency_ns bytes (new_latency m)) commands
  ]
