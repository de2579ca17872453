-- ===== src/Startup/Bootstrap.antt =====
-- aya-test/src/bootstrap.rs: the memory limit, the log and the target process.
use aya_e_bpf.Prelude.{[], none, some, if◌then◌else◌}
use aya_e_bpf.Prelude.Bytes.{Bytes}
use aya_e_bpf.Prelude.Decimal.{parse, u32_max}
use aya_e_bpf.Prelude.Text.{trim}
use aya_e_bpf.Startup.{
  target_pid, init_logger, watch_logger, spawn_log_task, open_map, set_target, World, bad_pid_file,
  Action, pure, ◌>>=◌, ◌>>◌, perform, attempt, attempt_or_ignore,
}
use aya_e_bpf.Startup

module _ (w : World) where
  -- A failure to raise the limit is only logged.
  unfoldable pub raise_memlock : Action (Unit {0})
  raise_memlock = attempt_or_ignore w Startup.raise_memlock

  -- A failure of the logger is only logged, one to watch it is not.
  unfoldable pub spawn_log_drain : Action (Unit {0})
  spawn_log_drain =
      if w.succeeds init_logger
      then (do perform init_logger; attempt w watch_logger; perform spawn_log_task)
      else pure tt

  -- Without a file nothing is done.
  unfoldable pub pin_target_pid : Bytes → Action (Unit {0})
  pin_target_pid pid_file = elim (w.read_to_string pid_file) [
    | none ↦ pure tt
    | some text ↦ elim (parse u32_max (trim text)) [
      | none ↦ (bad_pid_file, [])
      | some pid ↦ do attempt w (open_map target_pid); attempt_or_ignore w (set_target pid)
    ]
  ]
