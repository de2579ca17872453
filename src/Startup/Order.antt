-- ===== src/Startup/Order.antt =====
-- The order of what the start does (aya-test/src/main.rs, bootstrap.rs and probes.rs).
use aya_e_bpf.Prelude.{
  zero, take, ◌==◌, suc, ℕ, List, [], ◌∷◌, Option, none, some, arith, Bool-cases, Option-cases, inl,
  inr,
}
use aya_e_bpf.Prelude.Bytes.{Bytes}
use aya_e_bpf.Prelude.Decimal.{parse, u32_max}
use aya_e_bpf.Prelude.Text.{trim}
use aya_e_bpf.Common.Event.{StackEvent}
use aya_e_bpf.Config.{Config, Cli, Files, Loaded, load, loaded, read_failed, parse_failed}
use aya_e_bpf.Ebpf.Step.{on_cpu_sample}
use aya_e_bpf.Startup.{
  Effect, Action, target_pid, flamegraph_on, latency_ringbuf, stack_ringbuf, open_output,
  redirect_output, raise_memlock, load_ebpf, init_logger, watch_logger, spawn_log_task, open_map,
  set_target, as_program, load_sampler, attach_sampler, set_flamegraph_on, spawn_ringbuf_reader,
  spawn_reporter, spawn_stack_reader, wait_ctrl_c, draw, World, pure, ◌>>◌, perform, attempt,
  attempt_or_ignore,
}
use aya_e_bpf.Startup.Bootstrap.{spawn_log_drain, pin_target_pid}
use aya_e_bpf.Startup.Bootstrap
use aya_e_bpf.Startup.Main.{
  redirect, start_readers, take_samples, start_sampler, draw_samples, start, until_abort,
  aborted_after, beside_tasks, start_with_tasks, start_if_loaded, main,
}
use aya_e_bpf.Startup.Probes.{attach_probes, attach_perf_event, enable_flamegraph}
use aya_e_bpf.Startup.Resolve.{resolve_redis_pid}
use aya_e_bpf.Startup.Stages.{
  probe_calls, stage, IsInOrder, IsInOrder-bounds, Ordered, bind-Ordered, recover-Ordered,
  attempt-Ordered, attempt_or_ignore-Ordered, attempts-Ordered,
}

module _ (w : World) where
  attach_probes-Ordered : Ordered 9 19 (attach_probes w)
  unfolding attach_probes stage IsInOrder
  attach_probes-Ordered = attempts-Ordered w 9 19 probe_calls (ground arith)

  spawn_log_drain-Ordered : Ordered 4 7 (spawn_log_drain w)
  unfolding spawn_log_drain stage IsInOrder Ordered
  spawn_log_drain-Ordered = elim (Bool-cases (w.succeeds init_logger)) [
    | inl t ↦ rw t (
        bind-Ordered 4 5 7 (perform init_logger)
          (λ _. attempt w watch_logger >> perform spawn_log_task) (ground arith) (ground arith)
          (λ _.
            bind-Ordered 5 6 7 (attempt w watch_logger) (λ _. perform spawn_log_task) (ground arith)
              (attempt-Ordered w 5 6 watch_logger (ground arith) (ground arith))
              (λ _. ground arith)))
    | inr t ↦ rw t (ground arith)
  ]

  pin_target_pid-Ordered : (pid_file : Bytes) → Ordered 7 9 (pin_target_pid w pid_file)
  unfolding pin_target_pid stage IsInOrder Ordered
  pin_target_pid-Ordered pid_file = elim (Option-cases (w.read_to_string pid_file)) [
    | inl t ↦ rw (t, pin_target_pid) (ground arith)
    | inr (text, t) ↦
        rw (t, pin_target_pid)
          (elim (Option-cases (parse u32_max (trim text))) [
            | inl t' ↦ rw t' (ground arith)
            | inr (pid, t') ↦ rw t' (
                bind-Ordered 7 8 9 (attempt w (open_map target_pid))
                  (λ _. attempt_or_ignore w (set_target pid)) (ground arith)
                  (attempt-Ordered w 7 8 (open_map target_pid) (ground arith) (ground arith))
                  (λ _.
                    attempt_or_ignore-Ordered w 8 9 (set_target pid) (ground arith) (ground arith)))
          ])
  ]

  redirect-Ordered :
      (later : List StackEvent) (output : Option Bytes) → Ordered 0 2 (redirect w later output)
  unfolding redirect stage IsInOrder Ordered
  redirect-Ordered later none = ground arith
  redirect-Ordered later (some path) =
      bind-Ordered 0 1 2 (attempt w (open_output path)) (λ _. perform (redirect_output path))
        (ground arith) (attempt-Ordered w 0 1 (open_output path) (ground arith) (ground arith))
        (λ _. ground arith)

  start_readers-Ordered :
      (later : List StackEvent) (cfg : Config) → Ordered 19 23 (start_readers w later cfg)
  unfolding start_readers stage IsInOrder Ordered
  start_readers-Ordered later cfg =
      bind-Ordered 19 21 23 (attempt w (open_map latency_ringbuf))
        (λ _. attempt w spawn_ringbuf_reader >> perform (spawn_reporter cfg.interval_secs))
        (ground arith)
        (attempt-Ordered w 19 21 (open_map latency_ringbuf) (ground arith) (ground arith))
        (λ _.
          bind-Ordered 21 22 23 (attempt w spawn_ringbuf_reader)
            (λ _. perform (spawn_reporter cfg.interval_secs)) (ground arith)
            (attempt-Ordered w 21 22 spawn_ringbuf_reader (ground arith) (ground arith))
            (λ _. ground arith))

  attach_perf_event-Ordered : (pid hz : ℕ) → Ordered 23 34 (attach_perf_event w pid hz)
  unfolding attach_perf_event stage IsInOrder
  attach_perf_event-Ordered pid hz =
      attempts-Ordered w 23 34
        (as_program on_cpu_sample ∷ load_sampler ∷ attach_sampler pid hz ∷ []) (ground arith)

  enable_flamegraph-Ordered : Ordered 34 36 (enable_flamegraph w)
  unfolding enable_flamegraph stage IsInOrder
  enable_flamegraph-Ordered =
      bind-Ordered 34 35 36 (attempt w (open_map flamegraph_on))
        (λ _. attempt_or_ignore w set_flamegraph_on) (ground arith)
        (attempt-Ordered w 34 35 (open_map flamegraph_on) (ground arith) (ground arith))
        (λ _. attempt_or_ignore-Ordered w 35 36 set_flamegraph_on (ground arith) (ground arith))

  take_samples-Ordered : (later : List StackEvent) → Ordered 34 38 (take_samples w later)
  unfolding take_samples stage IsInOrder Ordered
  take_samples-Ordered later =
      bind-Ordered 34 36 38 (enable_flamegraph w)
        (λ _. attempt w (open_map stack_ringbuf) >> (attempt w spawn_stack_reader >> pure later))
        (ground arith) enable_flamegraph-Ordered
        (λ _.
          bind-Ordered 36 37 38 (attempt w (open_map stack_ringbuf))
            (λ _. attempt w spawn_stack_reader >> pure later) (ground arith)
            (attempt-Ordered w 36 37 (open_map stack_ringbuf) (ground arith) (ground arith))
            (λ _.
              bind-Ordered 37 38 38 (attempt w spawn_stack_reader) (λ _. pure later) (ground arith)
                (attempt-Ordered w 37 38 spawn_stack_reader (ground arith) (ground arith))
                (λ _. ground arith)))

  start_sampler-Ordered :
      (later : List StackEvent) (cfg : Config) → Ordered 23 38 (start_sampler w later cfg)
  unfolding start_sampler Ordered IsInOrder
  start_sampler-Ordered later cfg =
      recover-Ordered 23 34 38
        (attach_perf_event w (resolve_redis_pid w cfg.pid_file) cfg.frequency_hz)
        (take_samples w later) (pure [])
        (attach_perf_event-Ordered (resolve_redis_pid w cfg.pid_file) cfg.frequency_hz)
        (take_samples-Ordered later) (ground arith)

  draw_samples-Ordered :
      (later : List StackEvent) (cfg : Config) (samples : List StackEvent)
      → Ordered 39 40 (draw_samples w later cfg samples)
  unfolding draw_samples stage IsInOrder Ordered
  draw_samples-Ordered later cfg [] = ground arith
  draw_samples-Ordered later cfg (ev ∷ samples) =
      attempt_or_ignore-Ordered w 39 40 (draw cfg.flamegraph_output) (ground arith) (ground arith)

  finish-Ordered :
      (later : List StackEvent) (cfg : Config) (samples : List StackEvent)
      → Ordered 38 40 (attempt w wait_ctrl_c >> draw_samples w later cfg samples)
  unfolding draw_samples stage IsInOrder Ordered
  finish-Ordered later cfg samples =
      bind-Ordered 38 39 40 (attempt w wait_ctrl_c) (λ _. draw_samples w later cfg samples)
        (ground arith) (attempt-Ordered w 38 39 wait_ctrl_c (ground arith) (ground arith))
        (λ _. draw_samples-Ordered later cfg samples)

  raise_memlock-Ordered : Ordered 2 3 (Bootstrap.raise_memlock w)
  unfolding Bootstrap.raise_memlock stage
  raise_memlock-Ordered =
      attempt_or_ignore-Ordered w 2 3 raise_memlock (ground arith) (ground arith)

  start-Ordered : (later : List StackEvent) (cfg : Config) → Ordered 0 40 (start w later cfg)
  unfolding start stage
  start-Ordered later cfg =
      bind-Ordered 0 2 40 (redirect w later cfg.output_file) _ (ground arith)
        (redirect-Ordered later cfg.output_file)
        (λ _.
          bind-Ordered 2 3 40 (Bootstrap.raise_memlock w) _ (ground arith) raise_memlock-Ordered
            (λ _.
              bind-Ordered 3 4 40 (attempt w load_ebpf) _ (ground arith)
                (attempt-Ordered w 3 4 load_ebpf (ground arith) (ground arith))
                (λ _.
                  bind-Ordered 4 7 40 (spawn_log_drain w) _ (ground arith) spawn_log_drain-Ordered
                    (λ _.
                      bind-Ordered 7 9 40 (pin_target_pid w cfg.pid_file) _ (ground arith)
                        (pin_target_pid-Ordered cfg.pid_file)
                        (λ _.
                          bind-Ordered 9 19 40 (attach_probes w) _ (ground arith)
                            attach_probes-Ordered
                            (λ _.
                              bind-Ordered 19 23 40 (start_readers w later cfg) _ (ground arith)
                                (start_readers-Ordered later cfg)
                                (λ _.
                                  bind-Ordered 23 38 40 (start_sampler w later cfg) _ (ground arith)
                                    (start_sampler-Ordered later cfg)
                                    (λ samples. finish-Ordered later cfg samples))))))))

  take-IsInOrder :
      (n lo hi : ℕ) (es : List Effect) → IsInOrder lo hi es → IsInOrder lo hi (take n es)
  unfolding IsInOrder
  take-IsInOrder zero lo hi es h = IsInOrder-bounds lo hi es h
  take-IsInOrder (suc n) lo hi [] h = h
  take-IsInOrder (suc n) lo hi (e ∷ es) (low, h) = (low, take-IsInOrder n (suc (stage e)) hi es h)

  until_abort-IsInOrder :
      (n lo hi : ℕ) (es : List Effect) → IsInOrder lo hi es → IsInOrder lo hi (until_abort n es)
  unfolding IsInOrder until_abort
  until_abort-IsInOrder n lo hi [] h = h
  until_abort-IsInOrder n lo hi (spawn_reporter secs ∷ es) (low, h) =
      (low, take-IsInOrder n (suc (stage (spawn_reporter secs))) hi es h)
  until_abort-IsInOrder n lo hi (e ∷ es) (low, h) =
      (low, until_abort-IsInOrder n (suc (stage e)) hi es h)

  beside_tasks-IsInOrder :
      (interval_secs first_poll : ℕ) (later_panic : Option ℕ) (m : Action (Unit {0}))
      → Ordered 0 40 m
      → IsInOrder 0 40 (beside_tasks interval_secs first_poll later_panic m).1
  unfolding beside_tasks aborted_after Ordered
  beside_tasks-IsInOrder interval_secs first_poll later_panic (r, done) h =
      elim (Bool-cases (interval_secs == 0)) [
        | inl t ↦ rw t (until_abort-IsInOrder first_poll 0 40 done h)
        | inr t ↦ rw t (elim (Option-cases later_panic) [
          | inl quiet ↦ rw quiet h
          | inr (n, panics) ↦ rw panics (until_abort-IsInOrder n 0 40 done h)
        ])
      ]

  start_if_loaded-IsInOrder :
      (later : List StackEvent) (l : Loaded) → IsInOrder 0 40 (start_if_loaded w later l).1
  unfolding start_if_loaded start_with_tasks IsInOrder
  start_if_loaded-IsInOrder later (loaded cfg) =
      beside_tasks-IsInOrder cfg.interval_secs w.first_poll w.later_panic (start w later cfg)
        (start-Ordered later cfg)
  start_if_loaded-IsInOrder later read_failed = ground arith
  start_if_loaded-IsInOrder later parse_failed = ground arith

  -- Whatever succeeds, whatever fails, and whenever the panic of a task ends the process, the start does
  -- what it does in one order, and nothing twice: the output and the memory limit, the load and the
  -- log, the filter on the target process, the probes from the receive to the send, the reader and the
  -- reporter, the sampler, the switch for the samples and their reader, the wait for Ctrl-C, and the
  -- drawing.
  pub main_ordered :
      (later : List StackEvent) (files : Files) (cli : Cli)
      → IsInOrder 0 40 (main w later files cli).1
  unfolding main
  main_ordered later files cli = start_if_loaded-IsInOrder later (load files cli)
