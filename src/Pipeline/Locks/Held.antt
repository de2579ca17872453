-- ===== src/Pipeline/Locks/Held.antt =====
-- Every step of the tasks keeps the locks in order (aya-test/src/reader.rs, aya-test/src/reporter.rs).
use aya_e_bpf.Prelude.{
  ℕ, refl, Bool, List, [], ◌∷◌, Option, none, Option-cases, Bool-cases, inl, inr,
}
use aya_e_bpf.Prelude.Bytes.{Bytes}
use aya_e_bpf.Common.Event.{LatencyEvent}
use aya_e_bpf.Monitor.{
  Machine, ProcessMonitor, MonitorReport, shown, nothing_shown, report_panicked, report_monitor,
}
use aya_e_bpf.Stats.Report.{is_cut, report_commands}
use aya_e_bpf.Pipeline.Locks.Running.{reader_step_inv}
use aya_e_bpf.Pipeline.Locks.{
  Mutexes, ReaderPc, awaiting, wants_stats, wants_commands, wants_clients, processing, has_two,
  has_one, ReporterPc, ticking, asks_stats, has_stats, asks_commands, has_commands, asks_clients,
  has_clients, monitoring, dead, Tasks, spawned, woken, reader_at, monitored, after_commands,
  after_stats, reporter_at, reporter_step, Reaches, here, by_reader, by_reporter,
}
use aya_e_bpf.Reader.{Shared, collect}
use aya_e_bpf.Resp.{Decoder}
use aya_e_bpf.Stats.Metrics.{Metrics}
use aya_e_bpf.Pipeline.Locks.Owners.{
  Locked, After, after_step, taken_by_reader, taken_by_reporter, dropped_by_reader,
  dropped_by_reporter,
}

module _ (m : Metrics) (d : Decoder) (machine : Machine m) where
  abbrev pub IsLocked : Tasks m d machine → Type 0
  IsLocked u = Locked u.mutexes u.reader_pc u.reporter_pc

  pub spawned-IsLocked :
      (shared : Shared m) (monitor : ProcessMonitor m machine)
      → IsLocked (spawned m d machine shared monitor)
  spawned-IsLocked shared monitor = ((refl, refl), (refl, refl), (refl, refl))

  woken-Locked :
      (x : Mutexes) (p : ReporterPc) (batch : List LatencyEvent)
      → Locked x awaiting p
      → Locked x (woken m d machine batch) p
  unfolding woken
  woken-Locked x p [] h = h
  woken-Locked x p (e ∷ batch) h = h

  pub reader_at-Locked :
      (pc : ReaderPc) (items : List Bytes) (u : Tasks m d machine)
      → Locked u.mutexes pc u.reporter_pc
      → After IsLocked (reader_at m d machine pc items u)
  unfolding reader_at
  reader_at-Locked awaiting items u h = woken-Locked u.mutexes u.reporter_pc (collect items []) h
  reader_at-Locked (wants_stats batch) items u h = elim (Option-cases u.mutexes.stats) [
    | inr (holder, held) ↦ rw held tt
    | inl free ↦ rw free ((taken_by_reader u.mutexes.stats _ _ free h.0, h.1, h.2))
  ]
  reader_at-Locked (wants_commands batch) items u h = elim (Option-cases u.mutexes.cmd_stats) [
    | inr (holder, held) ↦ rw held tt
    | inl free ↦ rw free ((h.0, taken_by_reader u.mutexes.cmd_stats _ _ free h.1, h.2))
  ]
  reader_at-Locked (wants_clients batch) items u h = elim (Option-cases u.mutexes.client_stats) [
    | inr (holder, held) ↦ rw held tt
    | inl free ↦ rw free ((h.0, h.1, taken_by_reader u.mutexes.client_stats _ _ free h.2))
  ]
  reader_at-Locked (processing batch (ev ∷ left)) items u h = h
  reader_at-Locked (processing batch []) items u h =
      (h.0, h.1, dropped_by_reader u.mutexes.client_stats _ h.2)
  reader_at-Locked has_two items u h = (h.0, dropped_by_reader u.mutexes.cmd_stats _ h.1, h.2)
  reader_at-Locked has_one items u h = (dropped_by_reader u.mutexes.stats _ h.0, h.1, h.2)

  monitored-Locked :
      (r : MonitorReport m machine) (u : Tasks m d machine)
      → Locked u.mutexes u.reader_pc monitoring
      → IsLocked (monitored m d machine r u)
  unfolding monitored
  monitored-Locked (shown next panel) u h = h
  monitored-Locked (nothing_shown next) u h = h
  monitored-Locked report_panicked u h = h

  module _ (interval_secs : ℕ) (with_commands with_clients : Bool) where
    after_commands_lem :
        (P : ReporterPc → Type 0)
        → P asks_clients
        → P monitoring
        → P (after_commands m d machine interval_secs with_commands with_clients)
    unfolding after_commands
    after_commands_lem P clients neither = elim (Bool-cases with_clients) [
      | inl yes_clients ↦ rw yes_clients clients
      | inr no_clients ↦ rw no_clients neither
    ]

    after_stats_lem :
        (P : ReporterPc → Type 0)
        → P asks_commands
        → P asks_clients
        → P monitoring
        → P (after_stats m d machine interval_secs with_commands with_clients)
    unfolding after_stats after_commands
    after_stats_lem P commands clients neither = elim (Bool-cases with_commands) [
      | inl yes_commands ↦ rw yes_commands commands
      | inr no_commands ↦ rw no_commands (after_commands_lem P clients neither)
    ]

    pub reporter_at-Locked :
        (pc : ReporterPc) (now : machine.Instant) (raw : Option Bytes) (u : Tasks m d machine)
        → Locked u.mutexes u.reader_pc pc
        → After IsLocked
            (reporter_at m d machine interval_secs with_commands with_clients pc now raw u)
    unfolding reporter_at
    reporter_at-Locked ticking now raw u h = h
    reporter_at-Locked asks_stats now raw u h = elim (Option-cases u.mutexes.stats) [
      | inr (holder, held) ↦ rw held tt
      | inl free ↦ rw free ((taken_by_reporter u.mutexes.stats _ _ free h.0, h.1, h.2))
    ]
    reporter_at-Locked has_stats now raw u h =
        let free = dropped_by_reporter u.mutexes.stats _ h.0 in
        let x : Mutexes = record u.mutexes { stats = none } in
        after_stats_lem (λ p. Locked x u.reader_pc p) ((free, h.1, h.2)) ((free, h.1, h.2))
          ((free, h.1, h.2))
    reporter_at-Locked asks_commands now raw u h = elim (Option-cases u.mutexes.cmd_stats) [
      | inr (holder, held) ↦ rw held tt
      | inl free ↦ rw free ((h.0, taken_by_reporter u.mutexes.cmd_stats _ _ free h.1, h.2))
    ]
    reporter_at-Locked has_commands now raw u h =
        let free = dropped_by_reporter u.mutexes.cmd_stats _ h.1 in
        let x : Mutexes = record u.mutexes { cmd_stats = none } in
        let next =
          after_commands_lem (λ p. Locked x u.reader_pc p) ((h.0, free, h.2)) ((h.0, free, h.2)) in
        elim (Bool-cases (is_cut (report_commands m u.shared.cmd_stats))) [
          | inl cut ↦ rw cut (h.0, free, h.2)
          | inr whole ↦ rw whole next
        ]
    reporter_at-Locked asks_clients now raw u h = elim (Option-cases u.mutexes.client_stats) [
      | inr (holder, held) ↦ rw held tt
      | inl free ↦ rw free ((h.0, h.1, taken_by_reporter u.mutexes.client_stats _ _ free h.2))
    ]
    reporter_at-Locked has_clients now raw u h =
        (h.0, h.1, dropped_by_reporter u.mutexes.client_stats _ h.2)
    reporter_at-Locked monitoring now raw u h =
        monitored-Locked (report_monitor m machine now raw u.monitor) u h
    reporter_at-Locked dead now raw u h = tt

    -- Whatever the tasks do, each mutex names the task that holds it.
    pub Reaches-Locked :
        {u v : Tasks m d machine}
        → Reaches m d machine interval_secs with_commands with_clients u v
        → IsLocked u
        → IsLocked v
    unfolding reporter_step
    Reaches-Locked here h = h
    Reaches-Locked (by_reader {v = v} {w = w} items r e) h =
        after_step IsLocked _ w (reader_at-Locked v.reader_pc items v (Reaches-Locked r h))
          (reader_step_inv m d machine items v w e)
    Reaches-Locked (by_reporter {v = v} {w = w} now raw r e) h =
        after_step IsLocked _ w (reporter_at-Locked v.reporter_pc now raw v (Reaches-Locked r h)) e
