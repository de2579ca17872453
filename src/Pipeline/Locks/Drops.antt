-- ===== src/Pipeline/Locks/Drops.antt =====
-- The reporter gets a lock of the collector that it waits for (aya-test/src/reader.rs,
-- aya-test/src/reporter.rs).
use mathlib.Core.Path.{subst}
use aya_e_bpf.Prelude.{
  ◌<◌, zero, suc, ◌+◌, ◌≢◌, ◌∙◌, length, ℕ, ◌≡◌, refl, sym, Bool, false, [], ◌∷◌, Option, none,
  some, arith,
}
use aya_e_bpf.Prelude.Bytes.{Bytes}
use aya_e_bpf.Monitor.{Machine, ProcessMonitor}
use aya_e_bpf.Pipeline.Locks.{
  Task, reader, reporter, ReaderPc, awaiting, wants_stats, wants_commands, wants_clients,
  processing, has_two, has_one, ReporterPc, asks_stats, asks_commands, asks_clients, Tasks, spawned,
  reader_at, while_running, reader_step, reporter_at, reporter_step, Reaches,
}
use aya_e_bpf.Reader.{Shared}
use aya_e_bpf.Resp.{Decoder}
use aya_e_bpf.Stats.Metrics.{Metrics}
use aya_e_bpf.Pipeline.Locks.Owners.{
  Owned, Locked, after_step, reporter_has_stats, reporter_has_commands, reporter_has_clients,
}
use aya_e_bpf.Pipeline.Locks.Held.{IsLocked, spawned-IsLocked, reader_at-Locked, Reaches-Locked}
use aya_e_bpf.Pipeline.Locks.Blocked.{some_ne_none}

-- A mutex that neither task holds is free.
held_by_none : (x : Option Task) → Owned x false false → x ≡ none
held_by_none none h = refl
held_by_none (some reader) h = absurd (ground (arith, h))
held_by_none (some reporter) h = absurd (ground (arith, h))

-- The steps that the reader makes until it has dropped its locks.
unfoldable pub to_go : ReaderPc → ℕ
to_go awaiting = 0
to_go (wants_stats batch) = 0
to_go (wants_commands batch) = length batch + 5
to_go (wants_clients batch) = length batch + 4
to_go (processing batch left) = length left + 3
to_go has_two = 2
to_go has_one = 1

-- The reporter waits for a lock.
abbrev pub Asks : ReporterPc → Type 0
Asks asks_stats = Unit
Asks asks_commands = Unit
Asks asks_clients = Unit
Asks pc = ⊥

module _ (m : Metrics) (d : Decoder) (machine : Machine m) where
  -- A number of steps of the reader; `none` if one of them waits for a lock.
  unfoldable pub run_reader : ℕ → Tasks m d machine → Option (Tasks m d machine)
  run_reader zero u = some u
  run_reader (suc n) u = elim (reader_step m d machine [] u) [
    | none ↦ none
    | some v ↦ run_reader n v
  ]

  first_step :
      (n : ℕ) (u v : Tasks m d machine)
      → reader_step m d machine [] u ≡ some v
      → run_reader (suc n) u ≡ run_reader n v
  unfolding run_reader
  first_step n u v e = rw (e, run_reader) refl

  -- A step of a reader that the reporter does not stop.
  Nears : ReaderPc → Tasks m d machine → Type 0
  Nears pc u =
      (v : Tasks m d machine) × (reader_at m d machine pc [] u ≡ some v)
      × (v.reporter_pc ≡ u.reporter_pc)
      × (to_go pc ≡ suc (to_go v.reader_pc))

  has_nothing :
      (p : ReporterPc)
      → Asks p
      → (reporter_has_stats p ≡ false)
        × (reporter_has_commands p ≡ false)
        × (reporter_has_clients p ≡ false)
  has_nothing asks_stats h = (refl, refl, refl)
  has_nothing asks_commands h = (refl, refl, refl)
  has_nothing asks_clients h = (refl, refl, refl)
  has_nothing p h = absurd h

  nears :
      (pc : ReaderPc) (u : Tasks m d machine)
      → Locked u.mutexes pc u.reporter_pc
      → Asks u.reporter_pc
      → 0 < to_go pc
      → Nears pc u
  unfolding Nears to_go reader_at
  nears awaiting u h asks busy = absurd (omega (arith, busy))
  nears (wants_stats batch) u h asks busy = absurd (omega (arith, busy))
  nears (wants_commands batch) u h asks busy =
      let (_, nothing, _) = has_nothing u.reporter_pc asks in
      let free =
        held_by_none u.mutexes.cmd_stats (subst (Owned u.mutexes.cmd_stats false) nothing h.1) in
      let v : Tasks m d machine = record u {
        mutexes = record u.mutexes { cmd_stats = some reader };
        reader_pc = wants_clients batch;
      } in
      (v, rw free refl, refl, omega arith)
  nears (wants_clients batch) u h asks busy =
      let (_, _, nothing) = has_nothing u.reporter_pc asks in
      let free =
        held_by_none u.mutexes.client_stats
          (subst (Owned u.mutexes.client_stats false) nothing h.2) in
      let v : Tasks m d machine = record u {
        mutexes = record u.mutexes { client_stats = some reader };
        reader_pc = processing batch batch;
      } in
      (v, rw free refl, refl, omega arith)
  nears (processing batch (ev ∷ left)) u h asks busy = (_, refl, refl, omega arith)
  nears (processing batch []) u h asks busy = (_, refl, refl, refl)
  nears has_two u h asks busy = (_, refl, refl, refl)
  nears has_one u h asks busy = (_, refl, refl, refl)

  -- Nobody holds a lock.
  AllFree : Tasks m d machine → Type 0
  AllFree u =
      (u.mutexes.stats ≡ none) × (u.mutexes.cmd_stats ≡ none) × (u.mutexes.client_stats ≡ none)

  all_free :
      (pc : ReaderPc) (u : Tasks m d machine)
      → Locked u.mutexes pc u.reporter_pc
      → Asks u.reporter_pc
      → to_go pc ≡ 0
      → AllFree u
  unfolding to_go AllFree
  all_free awaiting u h asks idle =
      let (a, b, c) = has_nothing u.reporter_pc asks in
      (
        held_by_none u.mutexes.stats (subst (Owned u.mutexes.stats false) a h.0),
        held_by_none u.mutexes.cmd_stats (subst (Owned u.mutexes.cmd_stats false) b h.1),
        held_by_none u.mutexes.client_stats (subst (Owned u.mutexes.client_stats false) c h.2),
      )
  all_free (wants_stats batch) u h asks idle =
      let (a, b, c) = has_nothing u.reporter_pc asks in
      (
        held_by_none u.mutexes.stats (subst (Owned u.mutexes.stats false) a h.0),
        held_by_none u.mutexes.cmd_stats (subst (Owned u.mutexes.cmd_stats false) b h.1),
        held_by_none u.mutexes.client_stats (subst (Owned u.mutexes.client_stats false) c h.2),
      )
  all_free pc u h asks idle = absurd (omega (arith, idle))

  Asks-while_running :
      (pc : ReporterPc) (next : Option (Tasks m d machine))
      → Asks pc
      → while_running m d machine pc next ≡ next
  unfolding while_running
  Asks-while_running asks_stats next asks = refl
  Asks-while_running asks_commands next asks = refl
  Asks-while_running asks_clients next asks = refl
  Asks-while_running pc next asks = absurd asks

  drops :
      (n : ℕ) (u : Tasks m d machine)
      → IsLocked m d machine u
      → Asks u.reporter_pc
      → to_go u.reader_pc ≡ n
      → (w : Tasks m d machine) × (run_reader n u ≡ some w)
        × (w.reporter_pc ≡ u.reporter_pc)
        × AllFree w
  unfolding run_reader Nears reader_step
  drops zero u h asks idle = (u, refl, refl, all_free u.reader_pc u h asks idle)
  drops (suc n) u h asks busy =
      let (v, step, same, nearer) = nears u.reader_pc u h asks (omega (arith, busy)) in
      let locked =
        after_step (IsLocked m d machine) _ v (reader_at-Locked m d machine u.reader_pc [] u h)
          step in
      let (w, rest, same', free) =
        drops n v locked (subst Asks (sym same) asks) (omega (arith, nearer, busy)) in
      (
        w,
        first_step n u v (Asks-while_running u.reporter_pc _ asks ∙ step) ∙ rest,
        same' ∙ same,
        free,
      )

  module _ (interval_secs : ℕ) (with_commands with_clients : Bool) where
    gets :
        (p : ReporterPc) (now : machine.Instant) (raw : Option Bytes) (u : Tasks m d machine)
        → Asks p
        → AllFree u
        → reporter_at m d machine interval_secs with_commands with_clients p now raw u ≢ none
    unfolding AllFree reporter_at
    gets asks_stats now raw u asks (a, b, c) e = some_ne_none _ (rw a at e)
    gets asks_commands now raw u asks (a, b, c) e = some_ne_none _ (rw b at e)
    gets asks_clients now raw u asks (a, b, c) e = some_ne_none _ (rw c at e)
    gets p now raw u asks free e = absurd asks

    -- If the reporter waits for a lock, then the reader is not stopped by any lock until it has
    -- processed its batch and dropped its guards, after the steps that `to_go` counts, and then the
    -- reporter can go on.
    pub reporter_waits :
        {v : Tasks m d machine} (shared : Shared m) (monitor : ProcessMonitor m machine)
        (now : machine.Instant) (raw : Option Bytes)
        → Reaches m d machine interval_secs with_commands with_clients
            (spawned m d machine shared monitor)
            v
        → Asks v.reporter_pc
        → (w : Tasks m d machine) × (run_reader (to_go v.reader_pc) v ≡ some w)
          × (reporter_step m d machine interval_secs with_commands with_clients now raw w ≢ none)
    unfolding reporter_step
    reporter_waits {v = v} shared monitor now raw r asks =
        let locked =
          Reaches-Locked m d machine interval_secs with_commands with_clients r
            (spawned-IsLocked m d machine shared monitor) in
        let (w, ran, same, free) = drops (to_go v.reader_pc) v locked asks refl in
        (w, ran, gets w.reporter_pc now raw w (subst Asks (sym same) asks) free)
