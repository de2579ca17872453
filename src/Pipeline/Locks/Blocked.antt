-- ===== src/Pipeline/Locks/Blocked.antt =====
-- A task that waits for a lock of the collector gets it (aya-test/src/reader.rs, aya-test/src/reporter.rs).
use mathlib.Core.Path.{subst}
use aya_e_bpf.Prelude.{
  ◌≢◌, ap, ℕ, ◌≡◌, refl, sym, Bool, true, false, List, [], ◌∷◌, Option, none, some, Option-cases,
  inl, inr, arith,
}
use aya_e_bpf.Prelude.Bytes.{Bytes}
use aya_e_bpf.Monitor.{Machine, ProcessMonitor}
use aya_e_bpf.Pipeline.Locks.{
  Task, reader, reporter, ReaderPc, awaiting, wants_stats, wants_commands, wants_clients,
  processing, has_two, has_one, ReporterPc, has_stats, has_commands, has_clients, Tasks, spawned,
  reader_at, reporter_at, reporter_step, Reaches,
}
use aya_e_bpf.Reader.{Shared}
use aya_e_bpf.Resp.{Decoder}
use aya_e_bpf.Stats.Metrics.{Metrics}
use aya_e_bpf.Pipeline.Locks.Owners.{
  Owned, Locked, reporter_has_stats, reporter_has_commands, reporter_has_clients,
}
use aya_e_bpf.Pipeline.Locks.Held.{spawned-IsLocked, Reaches-Locked}

pub some_ne_none : {A : Type 0} (v : A) → some v ≢ none
some_ne_none v e = cc

has_stats_lem : (p : ReporterPc) → reporter_has_stats p ≡ true → p ≡ has_stats
has_stats_lem has_stats h = refl
has_stats_lem p h = absurd (ground (arith, h))

has_commands_lem : (p : ReporterPc) → reporter_has_commands p ≡ true → p ≡ has_commands
has_commands_lem has_commands h = refl
has_commands_lem p h = absurd (ground (arith, h))

has_clients_lem : (p : ReporterPc) → reporter_has_clients p ≡ true → p ≡ has_clients
has_clients_lem has_clients h = refl
has_clients_lem p h = absurd (ground (arith, h))

-- A mutex that is not free for the reader, which does not hold it, is the reporter's.
held_by_reporter :
    (x : Option Task) (holder : Task) (p : Bool) → x ≡ some holder → Owned x false p → p ≡ true
held_by_reporter x reader p e h = absurd (ground (arith, subst (λ x. Owned x false p) e h))
held_by_reporter x reporter p e h = ground (arith, subst (λ x. Owned x false p) e h)

module _ (m : Metrics) (d : Decoder) (machine : Machine m) where
  module _ (interval_secs : ℕ) (with_commands with_clients : Bool) where
    -- What the reporter drops in its next step.
    Frees : ReaderPc → List Bytes → machine.Instant → Option Bytes → Tasks m d machine → Type 0
    Frees pc items now raw u =
        (v : Tasks m d machine) × (reporter_step m d machine interval_secs with_commands
            with_clients now raw u
          ≡ some v)
        × (v.reader_pc ≡ u.reader_pc)
        × (reader_at m d machine pc items v ≢ none)

    reader_at_waits :
        (pc : ReaderPc) (items : List Bytes) (now : machine.Instant) (raw : Option Bytes)
        (u : Tasks m d machine)
        → Locked u.mutexes pc u.reporter_pc
        → reader_at m d machine pc items u ≡ none
        → Frees pc items now raw u
    unfolding Frees reader_at reporter_step reporter_at
    reader_at_waits awaiting items now raw u h stuck = absurd (some_ne_none _ stuck)
    reader_at_waits (wants_stats batch) items now raw u h stuck =
        elim (Option-cases u.mutexes.stats) [
          | inl free ↦ absurd (some_ne_none _ (rw free at stuck))
          | inr (holder, held) ↦
              let at =
                has_stats_lem u.reporter_pc (held_by_reporter u.mutexes.stats holder _ held h.0) in
              (
                _,
                ap
                    (λ p.
                      reporter_at m d machine interval_secs with_commands with_clients p now raw u)
                    at,
                refl,
                some_ne_none _,
              )
        ]
    reader_at_waits (wants_commands batch) items now raw u h stuck =
        elim (Option-cases u.mutexes.cmd_stats) [
          | inl free ↦ absurd (some_ne_none _ (rw free at stuck))
          | inr (holder, held) ↦
              let at =
                has_commands_lem u.reporter_pc
                  (held_by_reporter u.mutexes.cmd_stats holder _ held h.1) in
              (
                _,
                ap
                    (λ p.
                      reporter_at m d machine interval_secs with_commands with_clients p now raw u)
                    at,
                refl,
                some_ne_none _,
              )
        ]
    reader_at_waits (wants_clients batch) items now raw u h stuck =
        elim (Option-cases u.mutexes.client_stats) [
          | inl free ↦ absurd (some_ne_none _ (rw free at stuck))
          | inr (holder, held) ↦
              let at =
                has_clients_lem u.reporter_pc
                  (held_by_reporter u.mutexes.client_stats holder _ held h.2) in
              (
                _,
                ap
                    (λ p.
                      reporter_at m d machine interval_secs with_commands with_clients p now raw u)
                    at,
                refl,
                some_ne_none _,
              )
        ]
    reader_at_waits (processing batch (ev ∷ left)) items now raw u h stuck =
        absurd (some_ne_none _ stuck)
    reader_at_waits (processing batch []) items now raw u h stuck = absurd (some_ne_none _ stuck)
    reader_at_waits has_two items now raw u h stuck = absurd (some_ne_none _ stuck)
    reader_at_waits has_one items now raw u h stuck = absurd (some_ne_none _ stuck)

    -- If the reader waits for a lock, then the reporter holds it, and whatever the buffer, the clock and
    -- `/proc/self/stat` give, the reporter's next step drops it: the reader can go on.
    pub reader_waits :
        {v : Tasks m d machine} (shared : Shared m) (monitor : ProcessMonitor m machine)
        (items : List Bytes) (now : machine.Instant) (raw : Option Bytes)
        → Reaches m d machine interval_secs with_commands with_clients
            (spawned m d machine shared monitor)
            v
        → reader_at m d machine v.reader_pc items v ≡ none
        → (w : Tasks m d machine) × (reporter_step m d machine interval_secs with_commands
              with_clients now raw v
            ≡ some w)
          × (reader_at m d machine w.reader_pc items w ≢ none)
    unfolding Frees
    reader_waits {v = v} shared monitor items now raw r stuck =
        let locked =
          Reaches-Locked m d machine interval_secs with_commands with_clients r
            (spawned-IsLocked m d machine shared monitor) in
        let (w, step, same, free) = reader_at_waits v.reader_pc items now raw v locked stuck in
        (w, step, subst (λ pc. reader_at m d machine pc items w ≢ none) (sym same) free)
