-- ===== src/Pipeline/Locks/Batches.antt =====
-- What the statistics hold while the reader works on a batch (aya-test/src/reader.rs,
-- aya-test/src/reporter.rs).
use mathlib.Core.Path.{subst}
use aya_e_bpf.Prelude.{
  ◌++◌, append-nil, append_assoc, ap, ◌∙◌, ℕ, ◌≡◌, refl, sym, Bool, List, [], ◌∷◌, Option,
  Option-cases, inl, inr,
}
use aya_e_bpf.Prelude.Bytes.{Bytes}
use aya_e_bpf.Common.Event.{LatencyEvent}
use aya_e_bpf.Monitor.{
  Machine, MonitorReport, shown, nothing_shown, report_panicked, report_monitor,
}
use aya_e_bpf.Pipeline.Locks.Running.{reader_step_inv}
use aya_e_bpf.Pipeline.Locks.{
  ReaderPc, awaiting, wants_stats, wants_commands, wants_clients, processing, has_two, has_one,
  ReporterPc, ticking, asks_stats, has_stats, asks_commands, has_commands, asks_clients,
  has_clients, monitoring, dead, Tasks, woken, reader_at, monitored, reporter_at, reporter_step,
  Reaches, here, by_reader, by_reporter,
}
use aya_e_bpf.Reader.{Shared, collect, process_event, process_batch}
use aya_e_bpf.Resp.{Decoder}
use aya_e_bpf.Stats.Latency.{report_latency}
use aya_e_bpf.Stats.Metrics.{Metrics}
use aya_e_bpf.Pipeline.Locks.Owners.{After, after_step}
use aya_e_bpf.Pipeline.Counted.{process_batch-append}
use aya_e_bpf.Pipeline.Tasks.{Agree, process_batch-Agree, report-Agree}

module _ (m : Metrics) (d : Decoder) (machine : Machine m) where
  -- The statistics after whole batches.
  unfoldable pub processed : List (List LatencyEvent) → Shared m → Shared m
  processed [] s = s
  processed (batch ∷ batches) s = processed batches (process_batch m d batch s)

  processed-append :
      (batches more : List (List LatencyEvent)) (s : Shared m)
      → processed (batches ++ more) s ≡ processed more (processed batches s)
  unfolding processed
  processed-append [] more s = refl
  processed-append (batch ∷ batches) more s =
      processed-append batches more (process_batch m d batch s)

  -- The statistics are those of the finished batches, and of what the reader has done of the next one.
  abbrev pub Holds : Shared m → ReaderPc → List (List LatencyEvent) → Shared m → Type 0
  Holds initial (processing batch left) finished s =
      (begun : List LatencyEvent) × (batch ≡ begun ++ left)
      × Agree m s (process_batch m d begun (processed finished initial))
  Holds initial pc finished s = Agree m s (processed finished initial)

  abbrev pub IsHeld : Shared m → Tasks m d machine → Type 0
  IsHeld initial u = Holds initial u.reader_pc u.finished u.shared

  woken-Holds :
      (initial : Shared m) (batch : List LatencyEvent) (finished : List (List LatencyEvent))
      (s : Shared m)
      → Holds initial awaiting finished s
      → Holds initial (woken m d machine batch) finished s
  unfolding woken
  woken-Holds initial [] finished s h = h
  woken-Holds initial (e ∷ batch) finished s h = h

  one_more :
      (initial s : Shared m) (begun left : List LatencyEvent) (ev : LatencyEvent)
      (finished : List (List LatencyEvent))
      → Agree m s (process_batch m d begun (processed finished initial))
      → Agree m
          (process_event m d ev s)
          (process_batch m d (begun ++ ev ∷ []) (processed finished initial))
  unfolding process_batch
  one_more initial s begun left ev finished h =
      subst (λ t. Agree m (process_event m d ev s) t)
        (sym (process_batch-append m d begun (ev ∷ []) (processed finished initial)))
        (process_batch-Agree m d (ev ∷ []) s _ h)

  finish :
      (initial s : Shared m) (batch begun : List LatencyEvent) (finished : List (List LatencyEvent))
      → batch ≡ begun ++ []
      → Agree m s (process_batch m d begun (processed finished initial))
      → Agree m s (processed (finished ++ batch ∷ []) initial)
  unfolding processed
  finish initial s batch begun finished whole h =
      subst (λ t. Agree m s t)
        (ap (λ b. process_batch m d b (processed finished initial))
            (sym (append-nil begun) ∙ sym whole)
          ∙ sym (processed-append finished (batch ∷ []) initial))
        h

  reader_at-Holds :
      (initial : Shared m) (pc : ReaderPc) (items : List Bytes) (u : Tasks m d machine)
      → Holds initial pc u.finished u.shared
      → After (IsHeld initial) (reader_at m d machine pc items u)
  unfolding reader_at
  reader_at-Holds initial awaiting items u h =
      woken-Holds initial (collect items []) u.finished u.shared h
  reader_at-Holds initial (wants_stats batch) items u h = elim (Option-cases u.mutexes.stats) [
    | inr (holder, held) ↦ rw held tt
    | inl free ↦ rw free h
  ]
  reader_at-Holds initial (wants_commands batch) items u h =
      elim (Option-cases u.mutexes.cmd_stats) [
        | inr (holder, held) ↦ rw held tt
        | inl free ↦ rw free h
      ]
  reader_at-Holds initial (wants_clients batch) items u h =
      elim (Option-cases u.mutexes.client_stats) [
        | inr (holder, held) ↦ rw held tt
        | inl free ↦ rw free ([], refl, unfold process_batch in h)
      ]
  reader_at-Holds initial (processing batch (ev ∷ left)) items u (begun, whole, h) = (
    begun ++ ev ∷ [],
    whole ∙ sym (append_assoc begun (ev ∷ []) left),
    one_more initial u.shared begun left ev u.finished h,
  )
  reader_at-Holds initial (processing batch []) items u (begun, whole, h) =
      finish initial u.shared batch begun u.finished whole h
  reader_at-Holds initial has_two items u h = h
  reader_at-Holds initial has_one items u h = h

  reported-Holds :
      (initial : Shared m) (interval_secs : ℕ) (pc : ReaderPc) (finished : List (List LatencyEvent))
      (s : Shared m)
      → Holds initial pc finished s
      → Holds initial pc finished (record s { stats = (report_latency m interval_secs s.stats).0 })
  reported-Holds initial i (processing batch left) finished s (begun, whole, h) =
      (begun, whole, report-Agree m d i s _ h)
  reported-Holds initial i pc finished s h = report-Agree m d i s _ h

  monitored-Holds :
      (initial : Shared m) (r : MonitorReport m machine) (u : Tasks m d machine)
      → IsHeld initial u
      → IsHeld initial (monitored m d machine r u)
  unfolding monitored
  monitored-Holds initial (shown next panel) u h = h
  monitored-Holds initial (nothing_shown next) u h = h
  monitored-Holds initial report_panicked u h = h

  module _ (interval_secs : ℕ) (with_commands with_clients : Bool) where
    reporter_at-Holds :
        (initial : Shared m) (pc : ReporterPc) (now : machine.Instant) (raw : Option Bytes)
        (u : Tasks m d machine)
        → IsHeld initial u
        → After
            (IsHeld initial)
            (reporter_at m d machine interval_secs with_commands with_clients pc now raw u)
    unfolding reporter_at
    reporter_at-Holds initial ticking now raw u h = h
    reporter_at-Holds initial asks_stats now raw u h = elim (Option-cases u.mutexes.stats) [
      | inr (holder, held) ↦ rw held tt
      | inl free ↦ rw free h
    ]
    reporter_at-Holds initial has_stats now raw u h =
        reported-Holds initial interval_secs u.reader_pc u.finished u.shared h
    reporter_at-Holds initial asks_commands now raw u h = elim (Option-cases u.mutexes.cmd_stats) [
      | inr (holder, held) ↦ rw held tt
      | inl free ↦ rw free h
    ]
    reporter_at-Holds initial has_commands now raw u h = h
    reporter_at-Holds initial asks_clients now raw u h =
        elim (Option-cases u.mutexes.client_stats) [
          | inr (holder, held) ↦ rw held tt
          | inl free ↦ rw free h
        ]
    reporter_at-Holds initial has_clients now raw u h = h
    reporter_at-Holds initial monitoring now raw u h =
        monitored-Holds initial (report_monitor m machine now raw u.monitor) u h
    reporter_at-Holds initial dead now raw u h = tt

    -- Whatever the tasks do, the statistics are those of the finished batches and of the part of the
    -- batch that is being processed.
    pub Reaches-Holds :
        (initial : Shared m) {u v : Tasks m d machine}
        → Reaches m d machine interval_secs with_commands with_clients u v
        → IsHeld initial u
        → IsHeld initial v
    unfolding reporter_step
    Reaches-Holds initial here h = h
    Reaches-Holds initial (by_reader {v = v} {w = w} items r e) h =
        after_step (IsHeld initial) _ w
          (reader_at-Holds initial v.reader_pc items v (Reaches-Holds initial r h))
          (reader_step_inv m d machine items v w e)
    Reaches-Holds initial (by_reporter {v = v} {w = w} now raw r e) h =
        after_step (IsHeld initial) _ w
          (reporter_at-Holds initial v.reporter_pc now raw v (Reaches-Holds initial r h)) e
