-- ===== src/Pipeline/Locks/Running.antt =====
-- The steps of the reader while the process runs (aya-test/src/reader.rs, aya-test/src/reporter.rs).
use aya_e_bpf.Prelude.{◌≡◌, arith, List, Option, some}
use aya_e_bpf.Prelude.Bytes.{Bytes}
use aya_e_bpf.Monitor.{Machine}
use aya_e_bpf.Pipeline.Locks.{
  ReporterPc, ticking, asks_stats, has_stats, asks_commands, has_commands, asks_clients,
  has_clients, monitoring, dead, Tasks, reader_at, while_running, reader_step,
}
use aya_e_bpf.Resp.{Decoder}
use aya_e_bpf.Stats.Metrics.{Metrics}

module _ (m : Metrics) (d : Decoder) (machine : Machine m) where
  while_running_inv :
      (pc : ReporterPc) (next : Option (Tasks m d machine)) (v : Tasks m d machine)
      → while_running m d machine pc next ≡ some v
      → next ≡ some v
  unfolding while_running
  while_running_inv dead next v h = absurd (ground (arith, h))
  while_running_inv ticking next v h = h
  while_running_inv asks_stats next v h = h
  while_running_inv has_stats next v h = h
  while_running_inv asks_commands next v h = h
  while_running_inv has_commands next v h = h
  while_running_inv asks_clients next v h = h
  while_running_inv has_clients next v h = h
  while_running_inv monitoring next v h = h

  -- A step that the reader does is one from where it stands.
  pub reader_step_inv :
      (items : List Bytes) (u v : Tasks m d machine)
      → reader_step m d machine items u ≡ some v
      → reader_at m d machine u.reader_pc items u ≡ some v
  unfolding reader_step
  reader_step_inv items u v =
      while_running_inv u.reporter_pc (reader_at m d machine u.reader_pc items u) v
