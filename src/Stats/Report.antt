-- ===== src/Stats/Report.antt =====
-- The reports of `CommandStats` and `ClientStats` (aya-test/src/stats.rs), as the rows that they print.
use aya_e_bpf.Prelude.{
  Bool, true, false, ℕ, ◌+◌, ◌%◌, ◌^◌, List, [], ◌∷◌, map, keep, take, Option, none, some, ltb,
  if◌then◌else◌,
}
use aya_e_bpf.Prelude.Bytes.{Bytes}
use aya_e_bpf.Stats.Clients.{ClientInfo, ClientStats}
use aya_e_bpf.Stats.Commands.{CommandStats}
use aya_e_bpf.Stats.Format.{fmt_latency, fmt_bytes_cell, ipv4_str, truncate_cmd}
use aya_e_bpf.Stats.Latency.{LatencyStats, pct}
use aya_e_bpf.Stats.Metrics.{Metrics}
use aya_e_bpf.Stats.Sort.{sort_desc}

-- `cmd` is `none` if the row panics on the name.
pub record CommandRow : Type 0 where
  pub cmd : Option Bytes
  pub count : ℕ
  pub avg : Bytes
  pub p95 : Bytes
  pub p99 : Bytes

-- The print of a row panics.
unfoldable pub has_panic : List CommandRow → Bool
has_panic [] = false
has_panic (row ∷ rows) = elim row.cmd [ none ↦ true | some cmd ↦ has_panic rows ]

-- The panel is not printed to its end.
unfoldable pub is_cut : Option (List CommandRow) → Bool
is_cut none = false
is_cut (some rows) = has_panic rows

module _ (m : Metrics) where
  open m use {Float, lit, of_u64, div, mul, mean}

  -- The commands with samples, the most frequent first.
  unfoldable pub command_entries : CommandStats m → CommandStats m
  command_entries commands = sort_desc (λ e. e.1.total) (keep (λ e. ltb 0 e.1.total) commands)

  unfoldable pub command_row : Bytes × LatencyStats m → CommandRow
  command_row (cmd, stats) = record {
    cmd = truncate_cmd cmd 14;
    count = stats.total;
    avg = fmt_latency m (div (mean stats.histogram) (lit 1000 0));
    p95 = fmt_latency m (pct m stats (lit 95 0));
    p99 = fmt_latency m (pct m stats (lit 99 0));
  }

  -- `none` when nothing is printed.
  unfoldable pub report_commands : CommandStats m → Option (List CommandRow)
  report_commands commands = elim (command_entries commands) [
    | [] ↦ none
    | e ∷ es ↦ some (map command_row (e ∷ es))
  ]

  pub record ClientRow : Type 0 where
    pub ip : Bytes
    pub count : ℕ
    pub bytes : Bytes
    pub share : Float

  -- `iter().map(|i| i.count).sum()` in `u64`.
  unfoldable pub sum_counts : ClientStats → ℕ
  sum_counts [] = 0
  sum_counts ((ip, info) ∷ es) = (info.count + sum_counts es) % 2 ^ 64

  unfoldable pub client_entries : ClientStats → ClientStats
  client_entries clients = sort_desc (λ e. e.1.count) clients

  unfoldable pub client_row : ℕ → ℕ × ClientInfo → ClientRow
  client_row total (ip, info) = record {
    ip = ipv4_str ip;
    count = info.count;
    bytes = fmt_bytes_cell m info.total_bytes;
    share =
        if ltb 0 total then mul (div (of_u64 info.count) (of_u64 total)) (lit 100 0) else lit 0 0;
  }

  -- The ten clients with the most requests; `none` when nothing is printed.
  unfoldable pub report_clients : ClientStats → Option (List ClientRow)
  report_clients [] = none
  report_clients (e ∷ es) =
      let entries : ClientStats = client_entries (e ∷ es) in
      some (map (client_row (sum_counts entries)) (take 10 entries))
