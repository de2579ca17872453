-- ===== src/Startup/Main.antt =====
-- aya-test/src/main.rs: `main`, up to the end of the program.
use aya_e_bpf.Prelude.{ℕ, List, [], ◌∷◌, Option, none, some, take, length, ltb, ◌==◌, if◌then◌else◌}
use aya_e_bpf.Prelude.Bytes.{Bytes}
use aya_e_bpf.Common.Event.{StackEvent}
use aya_e_bpf.Config.{Config, Cli, Files, Loaded, load, loaded, read_failed, parse_failed}
use aya_e_bpf.Startup.{
  Effect, Ending, returned, aborted, open_output, redirect_output, load_ebpf, latency_ringbuf,
  stack_ringbuf, open_map, spawn_ringbuf_reader, spawn_reporter, spawn_stack_reader, wait_ctrl_c,
  draw, World, bad_config, Action, pure, ◌>>=◌, ◌>>◌, perform, attempt, attempt_or_ignore, recover,
}
use aya_e_bpf.Startup.Bootstrap.{raise_memlock, spawn_log_drain, pin_target_pid}
use aya_e_bpf.Startup.Probes.{attach_probes, attach_perf_event, enable_flamegraph}
use aya_e_bpf.Startup.Resolve.{resolve_redis_pid}

-- The effects up to the start of the reporter, and `n` more.
unfoldable pub until_abort : ℕ → List Effect → List Effect
until_abort n [] = []
until_abort n (spawn_reporter secs ∷ es) = spawn_reporter secs ∷ take n es
until_abort n (e ∷ es) = e ∷ until_abort n es

-- A panic of a task, if `main` has not returned by then.
unfoldable pub aborted_after : ℕ → Action (Unit {0}) → Ending × List Effect
aborted_after n (r, done) =
    let kept : List Effect = until_abort n done in
    (if ltb (length kept) (length done) then aborted else returned r, kept)

-- `main` beside the tasks: `tokio::time::interval` panics on a period of 0, when the reporter first runs.
unfoldable pub beside_tasks : ℕ → ℕ → Option ℕ → Action (Unit {0}) → Ending × List Effect
beside_tasks interval_secs first_poll later_panic (r, done) =
    if interval_secs == 0
    then aborted_after first_poll (r, done)
    else elim later_panic [ none ↦ (returned r, done) | some n ↦ aborted_after n (r, done) ]

-- `later` is what the stack reader has shared when Ctrl-C comes; without a stack reader nothing is.
module _ (w : World) (later : List StackEvent) where
  unfoldable pub redirect : Option Bytes → Action (Unit {0})
  redirect none = pure tt
  redirect (some path) = do attempt w (open_output path); perform (redirect_output path)

  unfoldable pub start_readers : Config → Action (Unit {0})
  start_readers cfg = do
    attempt w (open_map latency_ringbuf)
    attempt w spawn_ringbuf_reader
    perform (spawn_reporter cfg.interval_secs)

  unfoldable pub take_samples : Action (List StackEvent)
  take_samples = do
    enable_flamegraph w
    attempt w (open_map stack_ringbuf)
    attempt w spawn_stack_reader
    pure later

  -- A failure to attach is only logged.
  unfoldable pub start_sampler : Config → Action (List StackEvent)
  start_sampler cfg =
      recover (attach_perf_event w (resolve_redis_pid w cfg.pid_file) cfg.frequency_hz) take_samples
        (pure [])

  unfoldable pub draw_samples : Config → List StackEvent → Action (Unit {0})
  draw_samples cfg [] = pure tt
  draw_samples cfg (ev ∷ samples) = attempt_or_ignore w (draw cfg.flamegraph_output)

  unfoldable pub start : Config → Action (Unit {0})
  start cfg = do
    redirect cfg.output_file
    raise_memlock w
    attempt w load_ebpf
    spawn_log_drain w
    pin_target_pid w cfg.pid_file
    attach_probes w
    start_readers cfg
    samples ← start_sampler cfg
    attempt w wait_ctrl_c
    draw_samples cfg samples

  -- `start`, beside the tasks that it starts.
  unfoldable pub start_with_tasks : Config → Ending × List Effect
  start_with_tasks cfg = beside_tasks cfg.interval_secs w.first_poll w.later_panic (start cfg)

  -- `Config::load(&cli)?`, and what follows.
  unfoldable pub start_if_loaded : Loaded → Ending × List Effect
  start_if_loaded (loaded cfg) = start_with_tasks cfg
  start_if_loaded read_failed = (returned bad_config, [])
  start_if_loaded parse_failed = (returned bad_config, [])

  unfoldable pub main : Files → Cli → Ending × List Effect
  main files cli = start_if_loaded (load files cli)
