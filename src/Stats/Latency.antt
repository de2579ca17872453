-- ===== src/Stats/Latency.antt =====
-- `LatencyStats` (aya-test/src/stats.rs). Its `u64` counters wrap, as they do in a release build. A
-- report is the values that the panel shows; the frame round them is left out.
use aya_e_bpf.Prelude.{ℕ, ◌+◌, ◌-◌, ◌%◌, ◌^◌, Option, none, some, ◌==◌, if◌then◌else◌}
use aya_e_bpf.Prelude.Bytes.{Bytes}
use aya_e_bpf.Stats.Format.{fmt_latency, fmt_throughput, fmt_bytes_per_sec}
use aya_e_bpf.Stats.Metrics.{Metrics}

pub record LatencyStats (m : Metrics) : Type 0 where
  pub histogram : m.Histogram
  pub total : ℕ  -- u64
  pub total_bytes : ℕ  -- u64
  pub prev_total : ℕ  -- u64
  pub prev_bytes : ℕ  -- u64

-- The panel of a report.
pub record LatencyPanel : Type 0 where
  pub requests : ℕ
  pub qps : Bytes
  pub bw : Bytes
  pub avg : Bytes
  pub p50 : Bytes
  pub p90 : Bytes
  pub p95 : Bytes
  pub p99 : Bytes
  pub p999 : Bytes
  pub min : Bytes
  pub max : Bytes

module _ (m : Metrics) where
  open m use {Float, lit, of_u64, div, new_with_bounds, record_value, mean, value_at_quantile}
  open m use {min_value, max_value}

  unfoldable pub new_latency : LatencyStats m
  new_latency = record {
    histogram = new_with_bounds 1 10_000_000_000 3;
    total = 0;
    total_bytes = 0;
    prev_total = 0;
    prev_bytes = 0;
  }

  unfoldable pub record_latency : ℕ → ℕ → LatencyStats m → LatencyStats m
  record_latency latency_ns bytes s = record s {
    histogram = record_value s.histogram latency_ns;
    total = (s.total + 1) % 2 ^ 64;
    total_bytes = (s.total_bytes + bytes) % 2 ^ 64;
  }

  unfoldable pub pct : LatencyStats m → Float → Float
  pct s p = div (of_u64 (value_at_quantile s.histogram (div p (lit 100 0)))) (lit 1000 0)

  -- What has come in since the last report; `saturating_sub`.
  unfoldable pub delta_requests : LatencyStats m → ℕ
  delta_requests s = s.total - s.prev_total

  unfoldable pub delta_bytes : LatencyStats m → ℕ
  delta_bytes s = s.total_bytes - s.prev_bytes

  unfoldable pub latency_panel : ℕ → LatencyStats m → LatencyPanel
  latency_panel interval_secs s = record {
    requests = s.total;
    qps = fmt_throughput m (div (of_u64 (delta_requests s)) (of_u64 interval_secs));
    bw = fmt_bytes_per_sec m (div (of_u64 (delta_bytes s)) (of_u64 interval_secs));
    avg = fmt_latency m (div (mean s.histogram) (lit 1000 0));
    p50 = fmt_latency m (pct s (lit 50 0));
    p90 = fmt_latency m (pct s (lit 90 0));
    p95 = fmt_latency m (pct s (lit 95 0));
    p99 = fmt_latency m (pct s (lit 99 0));
    p999 = fmt_latency m (pct s (lit 999 1));
    min = fmt_latency m (div (of_u64 (min_value s.histogram)) (lit 1000 0));
    max = fmt_latency m (div (of_u64 (max_value s.histogram)) (lit 1000 0));
  }

  -- Nothing is printed, and nothing changes, before the first sample.
  unfoldable pub report_latency : ℕ → LatencyStats m → LatencyStats m × Option LatencyPanel
  report_latency interval_secs s = if s.total == 0 then (s, none) else (
    record s { prev_total = s.total; prev_bytes = s.total_bytes },
    some (latency_panel interval_secs s),
  )
