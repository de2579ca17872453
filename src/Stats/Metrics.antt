-- ===== src/Stats/Metrics.antt =====
-- What the statistics (aya-test/src/stats.rs) use of the crate `hdrhistogram` and of `f64`, as an
-- interface.
use aya_e_bpf.Prelude.{ℕ, ◌≤◌, Bool, length}
use aya_e_bpf.Prelude.Bytes.{Bytes}

-- `lit n d` is the literal with the digits `n`, `d` of them behind the point. `fmt w p x` is
-- `format!("{:>w.p}", x)`, which pads to the width. `record_value` leaves the histogram as it is when
-- the value is refused; the program ignores that error.
pub record Metrics : Type 1 where
  pub Float : Type 0
  pub lit : ℕ → ℕ → Float
  pub of_u64 : ℕ → Float
  pub div : Float → Float → Float
  pub mul : Float → Float → Float
  pub lt : Float → Float → Bool
  pub fmt : ℕ → ℕ → Float → Bytes
  pub fmt_padded : (w p : ℕ) (x : Float) → w ≤ length (fmt w p x)
  pub Histogram : Type 0
  pub new_with_bounds : ℕ → ℕ → ℕ → Histogram
  pub record_value : Histogram → ℕ → Histogram
  pub mean : Histogram → Float
  pub value_at_quantile : Histogram → Float → ℕ
  pub min_value : Histogram → ℕ
  pub max_value : Histogram → ℕ
