-- ===== src/Pipeline/Locks/Round.antt =====
-- A round of the reader that nothing interrupts (aya-test/src/reader.rs, aya-test/src/reporter.rs).
use aya_e_bpf.Prelude.{◌++◌, append-nil, suc, ap, ℕ, ◌≡◌, refl, sym, List, [], ◌∷◌, some}
use aya_e_bpf.Prelude.Bytes.{Bytes}
use aya_e_bpf.Common.Event.{LatencyEvent}
use aya_e_bpf.Monitor.{Machine, ProcessMonitor}
use aya_e_bpf.Pipeline.Locks.{
  reader, processing, Panel, Tasks, spawned, woken, reader_at, while_running, reader_step,
}
use aya_e_bpf.Reader.{Shared, collect, process_event, process_batch, reader_round}
use aya_e_bpf.Resp.{Decoder}
use aya_e_bpf.Stats.Metrics.{Metrics}
use aya_e_bpf.Pipeline.Locks.Drops.{run_reader}

module _ (m : Metrics) (d : Decoder) (machine : Machine m) where
  -- Both tasks between their rounds.
  abbrev pub at_rest :
      Shared m
      → ProcessMonitor m machine
      → List (List LatencyEvent)
      → List (Panel m d machine)
      → Tasks m d machine
  at_rest shared monitor finished printed = record (spawned m d machine shared monitor) {
    finished = finished;
    printed = printed;
  }

  -- The steps that the reader makes with events left, and those of a round: none for an empty batch.
  unfoldable pub steps_left : List LatencyEvent → ℕ
  steps_left [] = 3
  steps_left (e ∷ left) = suc (steps_left left)

  unfoldable pub round_steps : List LatencyEvent → ℕ
  round_steps [] = 0
  round_steps (e ∷ batch) = suc (suc (suc (steps_left (e ∷ batch))))

  -- The batches that a round finishes.
  unfoldable pub finishes : List LatencyEvent → List (List LatencyEvent)
  finishes [] = []
  finishes (e ∷ batch) = (e ∷ batch) ∷ []

  run_left :
      (batch left : List LatencyEvent) (shared : Shared m) (monitor : ProcessMonitor m machine)
      (finished : List (List LatencyEvent)) (printed : List (Panel m d machine))
      → run_reader m d machine (steps_left left) (record (at_rest shared monitor finished printed) {
        mutexes = record {
          stats = some reader;
          cmd_stats = some reader;
          client_stats = some reader;
        };
        reader_pc = processing batch left;
      })
        ≡ some (at_rest (process_batch m d left shared) monitor (finished ++ batch ∷ []) printed)
  unfolding run_reader while_running reader_step reader_at process_batch steps_left
  run_left batch [] shared monitor finished printed = refl
  run_left batch (ev ∷ left) shared monitor finished printed =
      run_left batch left (process_event m d ev shared) monitor finished printed

  round_of :
      (batch : List LatencyEvent) (shared : Shared m) (monitor : ProcessMonitor m machine)
      (finished : List (List LatencyEvent)) (printed : List (Panel m d machine))
      → run_reader m d machine
          (round_steps batch)
          (record (at_rest shared monitor finished printed) { reader_pc = woken m d machine batch })
        ≡ some
            (at_rest (process_batch m d batch shared) monitor (finished ++ finishes batch) printed)
  unfolding run_reader while_running reader_step reader_at process_batch round_steps finishes woken
  round_of [] shared monitor finished printed =
      ap (λ batches. some (at_rest shared monitor batches printed)) (sym (append-nil finished))
  round_of (e ∷ batch) shared monitor finished printed =
      run_left (e ∷ batch) (e ∷ batch) shared monitor finished printed

  -- A wake-up of the reader that the reporter does not interrupt does the round of the reader's loop,
  -- and drops the locks again.
  pub reader_alone :
      (items : List Bytes) (shared : Shared m) (monitor : ProcessMonitor m machine)
      (finished : List (List LatencyEvent)) (printed : List (Panel m d machine))
      → (u : Tasks m d machine) × (reader_step m d machine items
            (at_rest shared monitor finished printed)
          ≡ some u)
        × (run_reader m d machine (round_steps (collect items [])) u
            ≡ some (
                at_rest
                  (reader_round m d items shared)
                  monitor
                  (finished ++ finishes (collect items []))
                  printed))
  unfolding while_running reader_step reader_at reader_round
  reader_alone items shared monitor finished printed =
      (_, refl, round_of (collect items []) shared monitor finished printed)
