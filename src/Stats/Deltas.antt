-- ===== src/Stats/Deltas.antt =====
-- The rates of successive reports (aya-test/src/stats.rs).
use mathlib.Core.Path.{subst}
use aya_e_bpf.Prelude.{
  ℕ, suc, ◌+◌, ◌-◌, ◌^◌, ◌≤◌, ◌<◌, ◌≡◌, refl, true, false, List, [], ◌∷◌, ◌++◌, Option, none, some,
  arith, ◌==◌, Bool-cases, inl, inr,
}
use aya_e_bpf.Stats.Format.{fmt_throughput, fmt_bytes_per_sec}
use aya_e_bpf.Stats.Latency.{
  LatencyStats, LatencyPanel, new_latency, record_latency, delta_requests, delta_bytes,
  latency_panel, report_latency,
}
use aya_e_bpf.Stats.Metrics.{Metrics}

-- What happens to the statistics: a sample with its latency and bytes, or a report.
pub data Op : Type 0 where
  sample : ℕ → ℕ → Op
  report : ℕ → Op

-- How many samples, and bytes, the operations bring.
abbrev pub samples : List Op → ℕ
samples [] = 0
samples (sample l b ∷ ops) = suc (samples ops)
samples (report i ∷ ops) = samples ops

abbrev pub bytes_in : List Op → ℕ
bytes_in [] = 0
bytes_in (sample l b ∷ ops) = b + bytes_in ops
bytes_in (report i ∷ ops) = bytes_in ops

-- The statistics, and the panels that were printed, each with the interval of its report, newest first.
pub record Printed (m : Metrics) : Type 0 where
  pub stats : LatencyStats m
  pub panels : List (ℕ × LatencyPanel)

abbrev pub shown : ℕ → Option LatencyPanel → List (ℕ × LatencyPanel) → List (ℕ × LatencyPanel)
shown i none panels = panels
shown i (some panel) panels = (i, panel) ∷ panels

-- The panels show the rates of these many requests and bytes, taken together.
pub data Rates (m : Metrics) : List (ℕ × LatencyPanel) → ℕ → ℕ → Type 0 where
  nothing : Rates m [] 0 0
  rate :
      {panels : List (ℕ × LatencyPanel)} {n b : ℕ} (i : ℕ) (panel : LatencyPanel)
      (requests bytes : ℕ)
      → Rates m panels n b
      → panel.requests ≡ requests + n
      → panel.qps ≡ fmt_throughput m (m.div (m.of_u64 requests) (m.of_u64 i))
      → panel.bw ≡ fmt_bytes_per_sec m (m.div (m.of_u64 bytes) (m.of_u64 i))
      → Rates m ((i, panel) ∷ panels) (requests + n) (bytes + b)

module _ (m : Metrics) where
  unfoldable pub step : Op → Printed m → Printed m
  step (sample l b) s = record s { stats = record_latency m l b s.stats }
  step (report i) s = record {
    stats = (report_latency m i s.stats).0;
    panels = shown i (report_latency m i s.stats).1 s.panels;
  }

  unfoldable pub steps : List Op → Printed m → Printed m
  steps [] s = s
  steps (op ∷ ops) s = steps ops (step op s)

  -- The panels have shown what the counters held at the last report.
  pub record Settled (s : Printed m) : Type 0 where
    pub rates : Rates m s.panels s.stats.prev_total s.stats.prev_bytes
    pub total_grew : s.stats.prev_total ≤ s.stats.total
    pub bytes_grew : s.stats.prev_bytes ≤ s.stats.total_bytes
    pub first : s.stats.total ≡ 0 → (s.stats.total_bytes ≡ 0) × (s.stats.prev_total ≡ 0)

  -- The same rates, of numbers that are written otherwise.
  same_totals :
      (panels : List (ℕ × LatencyPanel)) {n n' b b' : ℕ}
      → n ≡ n'
      → b ≡ b'
      → Rates m panels n b
      → Rates m panels n' b'
  same_totals panels {n = n} {n' = n'} {b = b} {b' = b'} same_n same_b h =
      subst (λ x. Rates m panels n' x) same_b (subst (λ x. Rates m panels x b) same_n h)

  report_latency_idle :
      (i : ℕ) (s : LatencyStats m) → (s.total == 0) ≡ true → report_latency m i s ≡ (s, none)
  unfolding report_latency
  report_latency_idle i s idle = rw idle refl

  report_latency_busy :
      (i : ℕ) (s : LatencyStats m)
      → (s.total == 0) ≡ false
      → report_latency m i s ≡ (
        record s { prev_total = s.total; prev_bytes = s.total_bytes },
        some (latency_panel m i s),
      )
  unfolding report_latency
  report_latency_busy i s busy = rw busy refl

  busy-Rates :
      (i : ℕ) (s : Printed m)
      → Settled s
      → Rates m ((i, latency_panel m i s.stats) ∷ s.panels) s.stats.total s.stats.total_bytes
  unfolding latency_panel delta_requests delta_bytes
  busy-Rates i s h =
      same_totals ((i, latency_panel m i s.stats) ∷ s.panels) (omega (arith, h.total_grew))
        (omega (arith, h.bytes_grew))
        (rate i (latency_panel m i s.stats) (s.stats.total - s.stats.prev_total)
          (s.stats.total_bytes - s.stats.prev_bytes) h.rates (omega (arith, h.total_grew)) refl
          refl)

  report-Settled :
      (i : ℕ) (s : Printed m)
      → Settled s
      → Settled (step (report i) s)
        × (Rates m (step (report i) s).panels s.stats.total s.stats.total_bytes)
        × ((step (report i) s).stats.total ≡ s.stats.total)
        × ((step (report i) s).stats.total_bytes ≡ s.stats.total_bytes)
  unfolding step
  report-Settled i s h = elim (Bool-cases (s.stats.total == 0)) [
    | inl idle ↦
        let (no_bytes, none_shown) = h.first (ground (arith, idle)) in
        rw (report_latency_idle i s.stats idle) (
          h,
          same_totals s.panels (ground (arith, idle)) (omega (arith, h.bytes_grew)) h.rates,
          refl,
          refl,
        )
    | inr busy ↦
        let rates = busy-Rates i s h in
        rw (report_latency_busy i s.stats busy) (
          record {
            rates = rates;
            total_grew = omega arith;
            bytes_grew = omega arith;
            first = λ none_yet. absurd (ground (arith, busy));
          },
          rates,
          refl,
          refl,
        )
  ]

  step-Settled :
      (op : Op) (s : Printed m)
      → s.stats.total + samples (op ∷ []) < 2 ^ 64
      → s.stats.total_bytes + bytes_in (op ∷ []) < 2 ^ 64
      → Settled s
      → Settled (step op s)
        × ((step op s).stats.total ≡ s.stats.total + samples (op ∷ []))
        × ((step op s).stats.total_bytes ≡ s.stats.total_bytes + bytes_in (op ∷ []))
  unfolding step record_latency
  step-Settled (sample l b) s few small h = (
    record {
      rates = h.rates;
      total_grew = ground (arith, h.total_grew);
      bytes_grew = ground (arith, h.bytes_grew);
      first = λ none_yet. absurd (omega arith);
    },
    omega arith,
    omega arith,
  )
  step-Settled (report i) s few small h =
      let (settled, rates, total, total') = report-Settled i s h in
      (settled, omega (arith, total), omega (arith, total'))

  samples-cons : (op : Op) (ops : List Op) → samples (op ∷ ops) ≡ samples (op ∷ []) + samples ops
  samples-cons (sample l b) ops = omega arith
  samples-cons (report i) ops = omega arith

  bytes_in-cons :
      (op : Op) (ops : List Op) → bytes_in (op ∷ ops) ≡ bytes_in (op ∷ []) + bytes_in ops
  bytes_in-cons (sample l b) ops = omega arith
  bytes_in-cons (report i) ops = omega arith

  steps-Settled :
      (ops : List Op) (s : Printed m)
      → s.stats.total + samples ops < 2 ^ 64
      → s.stats.total_bytes + bytes_in ops < 2 ^ 64
      → Settled s
      → Settled (steps ops s)
        × ((steps ops s).stats.total ≡ s.stats.total + samples ops)
        × ((steps ops s).stats.total_bytes ≡ s.stats.total_bytes + bytes_in ops)
  unfolding steps
  steps-Settled [] s few small h = (h, omega arith, omega arith)
  steps-Settled (op ∷ ops) s few small h =
      let (settled, grew, grew') =
        step-Settled op s (omega (arith, samples-cons op ops)) (omega (arith, bytes_in-cons op ops))
          h in
      let (settled', total, total') =
        steps-Settled ops (step op s) (omega (arith, samples-cons op ops))
          (omega (arith, bytes_in-cons op ops)) settled in
      (settled', omega (arith, samples-cons op ops), omega (arith, bytes_in-cons op ops))

  abbrev pub start : Printed m
  start = record { stats = new_latency m; panels = [] }

  start-Settled : Settled start
  unfolding new_latency
  start-Settled = record {
    rates = nothing;
    total_grew = omega arith;
    bytes_grew = omega arith;
    first = λ e. (refl, refl);
  }

  steps-append :
      (ops : List Op) (op : Op) (s : Printed m) → steps (ops ++ op ∷ []) s ≡ step op (steps ops s)
  unfolding steps
  steps-append [] op s = refl
  steps-append (o ∷ ops) op s = steps-append ops op (step o s)

  -- However samples and reports alternate, the throughputs and bandwidths on the panels are the rates of
  -- numbers of requests and bytes that add up to all that came in before the last report, and the
  -- number of requests on each panel is what has come in until then: no panel counts again what an
  -- earlier one showed, and nothing is left out, as long as the counters do not overflow.
  pub deltas_add_up :
      (ops : List Op) (interval_secs : ℕ)
      → samples ops < 2 ^ 64
      → bytes_in ops < 2 ^ 64
      → Rates m (steps (ops ++ report interval_secs ∷ []) start).panels (samples ops) (bytes_in ops)
  unfolding new_latency
  deltas_add_up ops i few small =
      let (settled, total, total') =
        steps-Settled ops start (omega arith) (omega arith) start-Settled in
      let (_, rates, _, _) = report-Settled i (steps ops start) settled in
      rw (steps-append ops (report i) start) (
        same_totals (step (report i) (steps ops start)).panels (omega (arith, total))
          (omega (arith, total')) rates)
