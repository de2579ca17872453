-- ===== src/Startup/Started.antt =====
-- A start that goes through (aya-test/src/main.rs, bootstrap.rs and probes.rs).
use aya_e_bpf.Prelude.{
  ℕ, ◌≤◌, ◌≡◌, ◌∙◌, ap, refl, arith, Bool, true, false, List, [], ◌∷◌, All, Option, none, some,
  Bool-cases, inl, inr,
}
use aya_e_bpf.Prelude.Bytes.{Bytes}
use aya_e_bpf.Prelude.Decimal.{parse, u32_max}
use aya_e_bpf.Prelude.Text.{trim}
use aya_e_bpf.Common.Event.{StackEvent}
use aya_e_bpf.Config.{Config, Cli, Files, load, loaded}
use aya_e_bpf.Ebpf.Step.{on_cpu_sample}
use aya_e_bpf.Startup.{
  target_pid, flamegraph_on, latency_ringbuf, stack_ringbuf, Effect, open_output, redirect_output,
  raise_memlock, load_ebpf, init_logger, watch_logger, spawn_log_task, open_map, set_target,
  as_program, load_sampler, attach_sampler, set_flamegraph_on, spawn_ringbuf_reader, spawn_reporter,
  spawn_stack_reader, wait_ctrl_c, draw, World, Outcome, returned, ok, failed, bad_pid_file,
  bad_config, Action, pure, ◌>>=◌, ◌>>◌, perform, attempt, attempt_or_ignore, recover,
}
use aya_e_bpf.Startup.Bootstrap.{spawn_log_drain, pin_target_pid}
use aya_e_bpf.Startup.Bootstrap
use aya_e_bpf.Startup.Main.{
  redirect, start_readers, take_samples, start_sampler, draw_samples, start, beside_tasks,
  start_with_tasks, start_if_loaded, main,
}
use aya_e_bpf.Startup.Probes.{attach_probes, attach_perf_event, enable_flamegraph}
use aya_e_bpf.Startup.Resolve.{resolve_redis_pid}
use aya_e_bpf.Startup.Stages.{probe_calls, attempts}

-- The effects whose failure ends the program.
unfoldable pub is_needed : Effect → Bool
is_needed raise_memlock = false
is_needed init_logger = false
is_needed (set_target pid) = false
is_needed (as_program on_cpu_sample) = false
is_needed load_sampler = false
is_needed (attach_sampler pid hz) = false
is_needed set_flamegraph_on = false
is_needed (draw path) = false
is_needed _ = true

unfoldable pub is_ok : {A : Type 0} → Outcome A → Bool
is_ok (ok a) = true
is_ok (failed e) = false
is_ok bad_pid_file = false
is_ok bad_config = false

-- A pid file that the start takes: none that can be read, or one with a number in it.
pub data IsPidFile (w : World) (pid_file : Bytes) : Type 0 where
  unreadable : w.read_to_string pid_file ≡ none → IsPidFile w pid_file
  numbered :
      (text : Bytes) (pid : ℕ)
      → w.read_to_string pid_file ≡ some text
      → parse u32_max (trim text) ≡ some pid
      → IsPidFile w pid_file

Works : {A : Type 0} → Action A → Type 0
Works m = is_ok m.0 ≡ true

bind-Works :
    {A B : Type 0} (m : Action A) (f : A → Action B)
    → Works m
    → ((a : A) → Works (f a))
    → Works (m >>= f)
unfolding Works is_ok
bind-Works (ok a, done) f h h' = h' a
bind-Works (failed e, done) f h h' = ground (arith, h)
bind-Works (bad_pid_file, done) f h h' = ground (arith, h)
bind-Works (bad_config, done) f h h' = ground (arith, h)

recover-Works :
    {A B : Type 0} (m : Action A) (k fallback : Action B)
    → Works k
    → Works fallback
    → Works (recover m k fallback)
unfolding Works
recover-Works (ok a, done) k fallback h h' = h
recover-Works (failed e, done) k fallback h h' = h'
recover-Works (bad_pid_file, done) k fallback h h' = h'
recover-Works (bad_config, done) k fallback h h' = h'

module _ (w : World) (works : (e : Effect) → is_needed e ≡ true → w.succeeds e ≡ true) where
  attempt-Works : (e : Effect) → is_needed e ≡ true → Works (attempt w e)
  unfolding Works attempt is_ok
  attempt-Works e h = rw (works e h) refl

  attempts-Works : (es : List Effect) → All (λ e. is_needed e ≡ true) es → Works (attempts w es)
  unfolding Works is_ok
  attempts-Works [] h = refl
  attempts-Works (e ∷ []) (h, h') = attempt-Works e h
  attempts-Works (e ∷ f ∷ es) (h, h') =
      bind-Works (attempt w e) (λ _. attempts w (f ∷ es)) (attempt-Works e h)
        (λ _. attempts-Works (f ∷ es) h')

  attach_probes-Works : Works (attach_probes w)
  unfolding attach_probes is_needed
  attach_probes-Works = attempts-Works probe_calls (ground arith)

  spawn_log_drain-Works : Works (spawn_log_drain w)
  unfolding spawn_log_drain is_needed Works is_ok
  spawn_log_drain-Works = elim (Bool-cases (w.succeeds init_logger)) [
    | inl t ↦ rw t (
        bind-Works (attempt w watch_logger) (λ _. perform spawn_log_task)
          (attempt-Works watch_logger refl) (λ _. refl))
    | inr t ↦ rw t refl
  ]

  pin_target_pid-Works :
      (pid_file : Bytes) → IsPidFile w pid_file → Works (pin_target_pid w pid_file)
  unfolding pin_target_pid is_needed Works is_ok attempt_or_ignore
  pin_target_pid-Works pid_file (unreadable t) = rw (t, pin_target_pid) refl
  pin_target_pid-Works pid_file (numbered text pid t t') =
      rw (t, t', pin_target_pid)
        (bind-Works (attempt w (open_map target_pid)) (λ _. attempt_or_ignore w (set_target pid))
          (attempt-Works (open_map target_pid) refl) (λ _. refl))

  redirect-Works :
      (later : List StackEvent) (output : Option Bytes) → Works (redirect w later output)
  unfolding redirect is_needed Works is_ok
  redirect-Works later none = refl
  redirect-Works later (some path) =
      bind-Works (attempt w (open_output path)) (λ _. perform (redirect_output path))
        (attempt-Works (open_output path) refl) (λ _. refl)

  start_readers-Works : (later : List StackEvent) (cfg : Config) → Works (start_readers w later cfg)
  unfolding start_readers is_needed Works is_ok
  start_readers-Works later cfg =
      bind-Works (attempt w (open_map latency_ringbuf))
        (λ _. attempt w spawn_ringbuf_reader >> perform (spawn_reporter cfg.interval_secs))
        (attempt-Works (open_map latency_ringbuf) refl)
        (λ _.
          bind-Works (attempt w spawn_ringbuf_reader)
            (λ _. perform (spawn_reporter cfg.interval_secs))
            (attempt-Works spawn_ringbuf_reader refl) (λ _. refl))

  take_samples-Works : (later : List StackEvent) → Works (take_samples w later)
  unfolding take_samples enable_flamegraph attempt_or_ignore is_needed Works is_ok
  take_samples-Works later =
      bind-Works (enable_flamegraph w)
        (λ _. attempt w (open_map stack_ringbuf) >> (attempt w spawn_stack_reader >> pure later))
        (bind-Works (attempt w (open_map flamegraph_on))
          (λ _. attempt_or_ignore w set_flamegraph_on) (attempt-Works (open_map flamegraph_on) refl)
          (λ _. refl))
        (λ _.
          bind-Works (attempt w (open_map stack_ringbuf))
            (λ _. attempt w spawn_stack_reader >> pure later)
            (attempt-Works (open_map stack_ringbuf) refl)
            (λ _.
              bind-Works (attempt w spawn_stack_reader) (λ _. pure later)
                (attempt-Works spawn_stack_reader refl) (λ _. refl)))

  start_sampler-Works : (later : List StackEvent) (cfg : Config) → Works (start_sampler w later cfg)
  unfolding start_sampler Works is_ok
  start_sampler-Works later cfg =
      recover-Works (attach_perf_event w (resolve_redis_pid w cfg.pid_file) cfg.frequency_hz)
        (take_samples w later) (pure []) (take_samples-Works later) refl

  draw_samples-Works :
      (later : List StackEvent) (cfg : Config) (samples : List StackEvent)
      → Works (draw_samples w later cfg samples)
  unfolding draw_samples attempt_or_ignore Works is_ok
  draw_samples-Works later cfg [] = refl
  draw_samples-Works later cfg (ev ∷ samples) = refl

  raise_memlock-Works : Works (Bootstrap.raise_memlock w)
  unfolding Bootstrap.raise_memlock attempt_or_ignore Works is_ok
  raise_memlock-Works = refl

  pub start-Works :
      (later : List StackEvent) (cfg : Config)
      → IsPidFile w cfg.pid_file
      → is_ok (start w later cfg).0 ≡ true
  unfolding start is_needed Works
  start-Works later cfg h =
      bind-Works (redirect w later cfg.output_file) _ (redirect-Works later cfg.output_file) (λ _.
        bind-Works (Bootstrap.raise_memlock w) _ raise_memlock-Works (λ _.
          bind-Works (attempt w load_ebpf) _ (attempt-Works load_ebpf refl) (λ _.
            bind-Works (spawn_log_drain w) _ spawn_log_drain-Works (λ _.
              bind-Works (pin_target_pid w cfg.pid_file) _ (pin_target_pid-Works cfg.pid_file h)
                (λ _. bind-Works (attach_probes w) _ attach_probes-Works (λ _.
                  bind-Works (start_readers w later cfg) _ (start_readers-Works later cfg) (λ _.
                    bind-Works (start_sampler w later cfg) _ (start_sampler-Works later cfg)
                      (λ samples.
                        bind-Works (attempt w wait_ctrl_c) _ (attempt-Works wait_ctrl_c refl)
                          (λ _. draw_samples-Works later cfg samples)))))))))

  ok-tt : (r : Outcome (Unit {0})) → is_ok r ≡ true → r ≡ ok tt
  unfolding is_ok
  ok-tt (ok tt) h = refl
  ok-tt (failed e) h = absurd (ground (arith, h))
  ok-tt bad_pid_file h = absurd (ground (arith, h))
  ok-tt bad_config h = absurd (ground (arith, h))

  beside_tasks-returned :
      (interval_secs first_poll : ℕ) (later_panic : Option ℕ) (m : Action (Unit {0}))
      → 1 ≤ interval_secs
      → later_panic ≡ none
      → (beside_tasks interval_secs first_poll later_panic m).0 ≡ returned m.0
  unfolding beside_tasks
  beside_tasks-returned interval_secs first_poll later_panic m ticks quiet =
      rw quiet (ground (arith, ticks))

  -- The program runs to its end without an error if its settings load, with an interval of at least a
  -- second, its pid file cannot be read or has a number in it, no task panics, and the effects succeed
  -- that are needed: the memory limit, the log, the write of the filter, the attaching of the sampler,
  -- its switch and the drawing may fail.
  pub main-Works :
      (later : List StackEvent) (files : Files) (cli : Cli) (cfg : Config)
      → load files cli ≡ loaded cfg
      → 1 ≤ cfg.interval_secs
      → IsPidFile w cfg.pid_file
      → w.later_panic ≡ none
      → (main w later files cli).0 ≡ returned (ok tt)
  unfolding main start_if_loaded start_with_tasks
  main-Works later files cli cfg e ticks h quiet =
      rw (e, start_if_loaded)
        (beside_tasks-returned cfg.interval_secs w.first_poll w.later_panic (start w later cfg)
            ticks quiet
          ∙ ap returned (ok-tt (start w later cfg).0 (start-Works later cfg h)))
