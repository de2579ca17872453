-- ===== src/Pipeline/Locks/Panels.antt =====
-- What the panels of the reporter show (aya-test/src/reader.rs, aya-test/src/reporter.rs).
use mathlib.Core.Path.{subst}
use aya_e_bpf.Prelude.{
  take_all, sym, arith, ◌++◌, take, take_within, ◌≤◌, length-append, length, ℕ, ◌≡◌, sym, List, [],
  ◌∷◌, none, some, arith,
}
use aya_e_bpf.Common.Event.{LatencyEvent}
use aya_e_bpf.Monitor.{Machine}
use aya_e_bpf.Pipeline.Locks.{Panel, latency_panel, command_panel, client_panel, monitor_panel}
use aya_e_bpf.Reader.{Shared}
use aya_e_bpf.Resp.{Decoder}
use aya_e_bpf.Stats.Latency
use aya_e_bpf.Stats.Latency.{report_latency}
use aya_e_bpf.Stats.Report.{report_commands, report_clients}
use aya_e_bpf.Stats.Metrics.{Metrics}
use aya_e_bpf.Pipeline.Locks.Batches.{processed}

module _ (m : Metrics) (d : Decoder) (machine : Machine m) where
  -- The panel is the report of these statistics, but for the counters that the last report remembered.
  abbrev pub Shows : ℕ → Panel m d machine → Shared m → Type 0
  Shows interval_secs (latency_panel none) s = s.stats.total ≡ 0
  Shows interval_secs (latency_panel (some panel)) s =
      (requests bytes : ℕ) × (panel
        ≡ Latency.latency_panel m interval_secs
            (record s.stats { prev_total = requests; prev_bytes = bytes }))
  Shows interval_secs (command_panel rows) s = rows ≡ report_commands m s.cmd_stats
  Shows interval_secs (client_panel rows) s = rows ≡ report_clients m s.client_stats
  Shows interval_secs (monitor_panel panel) s = Unit

  -- Panels, each of the statistics after some of the finished batches, and none after fewer than the one
  -- before it; the last one after `n`.
  pub data InOrder (interval_secs : ℕ) (initial : Shared m) (finished : List (List LatencyEvent))
      : List (Panel m d machine) → ℕ → Type 0 where
    none_yet : InOrder interval_secs initial finished [] 0
    one_more :
        {panels : List (Panel m d machine)} {n : ℕ}
        → InOrder interval_secs initial finished panels n
        → (panel : Panel m d machine) (n' : ℕ) → n ≤ n'
        → n' ≤ length finished
        → Shows interval_secs panel (processed m d machine (take n' finished) initial)
        → InOrder interval_secs initial finished (panels ++ panel ∷ []) n'

  pub InOrder-longer :
      (interval_secs : ℕ) (initial : Shared m) (finished : List (List LatencyEvent))
      (batch : List LatencyEvent) {panels : List (Panel m d machine)} {n : ℕ}
      → InOrder interval_secs initial finished panels n
      → InOrder interval_secs initial (finished ++ batch ∷ []) panels n
  InOrder-longer i initial finished batch none_yet = none_yet
  InOrder-longer i initial finished batch (one_more before panel n' later within shows) =
      one_more (InOrder-longer i initial finished batch before) panel n' later
        (omega (arith, length-append finished (batch ∷ []), within))
        (subst (λ batches. Shows i panel (processed m d machine batches initial))
          (sym (take_within n' finished (batch ∷ []) within)) shows)

  pub InOrder-within :
      (interval_secs : ℕ) (initial : Shared m) (finished : List (List LatencyEvent))
      {panels : List (Panel m d machine)} {n : ℕ}
      → InOrder interval_secs initial finished panels n
      → n ≤ length finished
  InOrder-within i initial finished none_yet = omega arith
  InOrder-within i initial finished (one_more before panel n' later within shows) = within

  -- The panels that were printed are in order.
  abbrev pub Prints : ℕ → Shared m → List (List LatencyEvent) → List (Panel m d machine) → Type 0
  Prints i initial finished printed = (n : ℕ) × InOrder i initial finished printed n

  pub print_now :
      (i : ℕ) (initial : Shared m) (finished : List (List LatencyEvent))
      (printed : List (Panel m d machine)) (panel : Panel m d machine)
      → Prints i initial finished printed
      → Shows i panel (processed m d machine finished initial)
      → Prints i initial finished (printed ++ panel ∷ [])
  print_now i initial finished printed panel (n, before) shows = (
    length finished,
    one_more before panel (length finished) (InOrder-within i initial finished before) (omega arith)
        (subst (λ batches. Shows i panel (processed m d machine batches initial))
          (sym (take_all (length finished) finished (omega arith))) shows),
  )
