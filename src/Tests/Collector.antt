-- ===== src/Tests/Collector.antt =====
-- The collector (aya-test/src/reader.rs, aya-test/src/stats.rs) on two events.
use mathlib.Core.List.Perm
use aya_e_bpf.Prelude.{◌%◌, ◌^◌, ◌≡◌, refl, List, [], ◌∷◌, ◌++◌, replicate, arith}
use aya_e_bpf.Prelude.Assoc.{nat_eq, bytes_eq, lookup}
use aya_e_bpf.Prelude.Bytes.{Bytes, codes}
use aya_e_bpf.Common.Event.{LatencyEvent}
use aya_e_bpf.Common.Layout.{IsImage}
use aya_e_bpf.Reader.{Shared, process_batch}
use aya_e_bpf.Reader.Refine.{replay, samples_of, commands_replay, clients_replay}
use aya_e_bpf.Reader.Totals.{sum_totals, batch_counts}
use aya_e_bpf.Stats.Clients.{ClientStats, entry_of}
use aya_e_bpf.Stats.Deltas.{Op, Rates, sample, report, steps, start, deltas_add_up}
use aya_e_bpf.Stats.Latency.{new_latency}
use aya_e_bpf.Stats.Report.{report_clients}
use aya_e_bpf.Stats.AnyOrder.{columns, columns_any_order}
use aya_e_bpf.Tests.Instances.{metrics, decoder}

abbrev pub ping : LatencyEvent
ping = record {
  pid = 7;
  tid = 7;
  latency_ns = 2000;
  bytes = 7;
  client_ip = 0x7F000001;
  client_port = 80;
  command = 0;
  is_error = 0;
  req_data = codes "*1\r\n$4\r\nPING\r\n" ++ replicate 18 0;
}

-- An event without a request.
abbrev unreadable : LatencyEvent
unreadable = record ping { client_ip = 0; req_data = replicate 32 0 }

abbrev batch : List LatencyEvent
batch = ping ∷ unreadable ∷ []

abbrev pub empty : Shared metrics
empty = record { stats = new_latency metrics; cmd_stats = []; client_stats = [] }

commands_replay_example :
    lookup (codes "PING") (process_batch metrics decoder batch empty).cmd_stats
    ≡ replay metrics
        (lookup (codes "PING") empty.cmd_stats)
        (samples_of metrics decoder (codes "PING") batch)
commands_replay_example = commands_replay metrics decoder batch empty (codes "PING")

clients_replay_example :
    entry_of 0x7F000001 (process_batch metrics decoder batch empty).client_stats
    ≡ record { count = 1; total_bytes = 7 }
unfolding entry_of lookup
clients_replay_example = clients_replay metrics decoder batch empty 0x7F000001 (λ e. cc)

batch_counts_example :
    ((process_batch metrics decoder batch empty).stats.total ≡ 2)
    × (sum_totals metrics (process_batch metrics decoder batch empty).cmd_stats % 2 ^ 64
        ≡ (process_batch metrics decoder batch empty).stats.total)
unfolding new_latency
batch_counts_example = batch_counts metrics decoder batch empty (ground arith) refl

pub ping-IsImage : IsImage ping
ping-IsImage = ground arith

abbrev pub padding : Bytes
padding = replicate 4 0

abbrev ops : List Op
ops = sample 2000 7 ∷ report 10 ∷ sample 3000 5 ∷ []

deltas_add_up_example :
    Rates metrics (steps metrics (ops ++ report 10 ∷ []) (start metrics)).panels 2 12
deltas_add_up_example = deltas_add_up metrics ops 10 (ground arith) (ground arith)

abbrev clients : ClientStats
clients =
    (1, record { count = 2; total_bytes = 9 }) ∷ (2, record { count = 5; total_bytes = 1 }) ∷ []

-- Two clients, and the other order of the map.
columns_any_order_example :
    columns metrics (
      report_clients metrics (
        (1, record { count = 2; total_bytes = 7 })
        ∷ (2, record { count = 3; total_bytes = 9 })
        ∷ []))
    ≡ columns metrics (
        report_clients metrics (
          (2, record { count = 3; total_bytes = 9 })
          ∷ (1, record { count = 2; total_bytes = 7 })
          ∷ []))
columns_any_order_example =
    columns_any_order metrics
      ((1, record { count = 2; total_bytes = 7 }) ∷ (2, record { count = 3; total_bytes = 9 }) ∷ [])
      ((2, record { count = 3; total_bytes = 9 }) ∷ (1, record { count = 2; total_bytes = 7 }) ∷ [])
      (Perm.swap (2, record { count = 3; total_bytes = 9 })
        (1, record { count = 2; total_bytes = 7 }) [])
