-- ===== src/Startup/Agreed.antt =====
-- What the start does to the process of the pid file (aya-test/src/main.rs, bootstrap.rs and probes.rs).
use aya_e_bpf.Prelude.{
  ℕ, ◌≡◌, refl, Bool, true, ◌&&◌, ◌==◌, arith, List, [], ◌∷◌, Option, none, some, All, All-append,
  Bool-cases, inl, inr,
}
use aya_e_bpf.Prelude.Bytes.{Bytes}
use aya_e_bpf.Common.Event.{StackEvent}
use aya_e_bpf.Config.{Config}
use aya_e_bpf.Ebpf.Step.{on_cpu_sample}
use aya_e_bpf.Startup.{
  target_pid, flamegraph_on, latency_ringbuf, stack_ringbuf, Effect, open_output, redirect_output,
  raise_memlock, load_ebpf, init_logger, watch_logger, spawn_log_task, open_map, set_target,
  as_program, load_sampler, attach_sampler, set_flamegraph_on, spawn_ringbuf_reader, spawn_reporter,
  spawn_stack_reader, wait_ctrl_c, draw, World, ok, failed, bad_pid_file, bad_config, Action, pure,
  ◌>>=◌, ◌>>◌, perform, attempt, attempt_or_ignore, recover,
}
use aya_e_bpf.Startup.Bootstrap.{spawn_log_drain, pin_target_pid}
use aya_e_bpf.Startup.Bootstrap
use aya_e_bpf.Startup.Main.{
  redirect, start_readers, take_samples, start_sampler, draw_samples, start,
}
use aya_e_bpf.Startup.Probes.{attach_probes, attach_perf_event, enable_flamegraph}
use aya_e_bpf.Startup.Stages.{probe_calls, attempts}
use aya_e_bpf.Startup.Pinned.{Holds, pin_target_pid-set_target, resolve_redis_pid_held}

-- The effect concerns no other process; a write of the filter is one that succeeded.
unfoldable pub agrees : World → ℕ → Effect → Bool
agrees w pid (set_target p) = p == pid && w.succeeds (set_target pid)
agrees w pid (attach_sampler p hz) = p == pid
agrees w pid _ = true

abbrev pub Agreed : {A : Type 0} → World → ℕ → Action A → Type 0
Agreed w pid m = All (λ e. agrees w pid e ≡ true) m.1

bind-Agreed :
    {A B : Type 0} (w : World) (pid : ℕ) (m : Action A) (f : A → Action B)
    → Agreed w pid m
    → ((a : A) → Agreed w pid (f a))
    → Agreed w pid (m >>= f)
bind-Agreed w pid (ok a, done) f h h' =
    All-append (λ e. agrees w pid e ≡ true) done (f a).1 h (h' a)
bind-Agreed w pid (failed e, done) f h h' = h
bind-Agreed w pid (bad_pid_file, done) f h h' = h
bind-Agreed w pid (bad_config, done) f h h' = h

recover-Agreed :
    {A B : Type 0} (w : World) (pid : ℕ) (m : Action A) (k fallback : Action B)
    → Agreed w pid m
    → Agreed w pid k
    → Agreed w pid fallback
    → Agreed w pid (recover m k fallback)
recover-Agreed w pid (ok a, done) k fallback h h' h'' =
    All-append (λ e. agrees w pid e ≡ true) done k.1 h h'
recover-Agreed w pid (failed e, done) k fallback h h' h'' =
    All-append (λ e. agrees w pid e ≡ true) done fallback.1 h h''
recover-Agreed w pid (bad_pid_file, done) k fallback h h' h'' =
    All-append (λ e. agrees w pid e ≡ true) done fallback.1 h h''
recover-Agreed w pid (bad_config, done) k fallback h h' h'' =
    All-append (λ e. agrees w pid e ≡ true) done fallback.1 h h''

module _ (w : World) (pid : ℕ) where
  attempt-Agreed : (e : Effect) → agrees w pid e ≡ true → Agreed w pid (attempt w e)
  unfolding attempt
  attempt-Agreed e h = elim (Bool-cases (w.succeeds e)) [ inl t ↦ rw t (h, tt) | inr t ↦ rw t tt ]

  attempt_or_ignore-Agreed :
      (e : Effect)
      → (w.succeeds e ≡ true → agrees w pid e ≡ true)
      → Agreed w pid (attempt_or_ignore w e)
  unfolding attempt_or_ignore
  attempt_or_ignore-Agreed e h = elim (Bool-cases (w.succeeds e)) [
    | inl t ↦ rw t (h t, tt)
    | inr t ↦ rw t tt
  ]

  attempts-Agreed :
      (es : List Effect) → All (λ e. agrees w pid e ≡ true) es → Agreed w pid (attempts w es)
  attempts-Agreed [] h = tt
  attempts-Agreed (e ∷ []) (h, h') = attempt-Agreed e h
  attempts-Agreed (e ∷ f ∷ es) (h, h') =
      bind-Agreed w pid (attempt w e) (λ _. attempts w (f ∷ es)) (attempt-Agreed e h)
        (λ _. attempts-Agreed (f ∷ es) h')

  pin_target_pid-Agreed :
      (pid_file : Bytes) → Holds w pid_file pid → Agreed w pid (pin_target_pid w pid_file)
  unfolding agrees
  pin_target_pid-Agreed pid_file h = rw (pin_target_pid-set_target w pid_file pid h) (
      bind-Agreed w pid (attempt w (open_map target_pid))
        (λ _. attempt_or_ignore w (set_target pid)) (attempt-Agreed (open_map target_pid) refl)
        (λ _. attempt_or_ignore-Agreed (set_target pid) (λ t. ground (arith, t))))

  redirect-Agreed :
      (later : List StackEvent) (output : Option Bytes) → Agreed w pid (redirect w later output)
  unfolding redirect agrees
  redirect-Agreed later none = tt
  redirect-Agreed later (some path) =
      bind-Agreed w pid (attempt w (open_output path)) (λ _. perform (redirect_output path))
        (attempt-Agreed (open_output path) refl) (λ _. (refl, tt))

  spawn_log_drain-Agreed : Agreed w pid (spawn_log_drain w)
  unfolding spawn_log_drain agrees
  spawn_log_drain-Agreed = elim (Bool-cases (w.succeeds init_logger)) [
    | inl t ↦ rw t (
        (
          refl,
          bind-Agreed w pid (attempt w watch_logger) (λ _. perform spawn_log_task)
              (attempt-Agreed watch_logger refl) (λ _. (refl, tt)),
        ))
    | inr t ↦ rw t tt
  ]

  start_readers-Agreed :
      (later : List StackEvent) (cfg : Config) → Agreed w pid (start_readers w later cfg)
  unfolding start_readers agrees
  start_readers-Agreed later cfg =
      bind-Agreed w pid (attempt w (open_map latency_ringbuf))
        (λ _. attempt w spawn_ringbuf_reader >> perform (spawn_reporter cfg.interval_secs))
        (attempt-Agreed (open_map latency_ringbuf) refl)
        (λ _.
          bind-Agreed w pid (attempt w spawn_ringbuf_reader)
            (λ _. perform (spawn_reporter cfg.interval_secs))
            (attempt-Agreed spawn_ringbuf_reader refl) (λ _. (refl, tt)))

  take_samples-Agreed : (later : List StackEvent) → Agreed w pid (take_samples w later)
  unfolding take_samples enable_flamegraph agrees
  take_samples-Agreed later =
      bind-Agreed w pid (enable_flamegraph w)
        (λ _. attempt w (open_map stack_ringbuf) >> (attempt w spawn_stack_reader >> pure later))
        (bind-Agreed w pid (attempt w (open_map flamegraph_on))
          (λ _. attempt_or_ignore w set_flamegraph_on)
          (attempt-Agreed (open_map flamegraph_on) refl)
          (λ _. attempt_or_ignore-Agreed set_flamegraph_on (λ t. refl)))
        (λ _.
          bind-Agreed w pid (attempt w (open_map stack_ringbuf))
            (λ _. attempt w spawn_stack_reader >> pure later)
            (attempt-Agreed (open_map stack_ringbuf) refl)
            (λ _.
              bind-Agreed w pid (attempt w spawn_stack_reader) (λ _. pure later)
                (attempt-Agreed spawn_stack_reader refl) (λ _. tt)))

  start_sampler-Agreed :
      (later : List StackEvent) (cfg : Config)
      → Holds w cfg.pid_file pid
      → Agreed w pid (start_sampler w later cfg)
  unfolding start_sampler attach_perf_event agrees
  start_sampler-Agreed later cfg h = rw (resolve_redis_pid_held w cfg.pid_file pid h) (
      recover-Agreed w pid (attach_perf_event w pid cfg.frequency_hz) (take_samples w later)
        (pure [])
        (attempts-Agreed
          (as_program on_cpu_sample ∷ load_sampler ∷ attach_sampler pid cfg.frequency_hz ∷ [])
          (ground arith))
        (take_samples-Agreed later) tt)

  draw_samples-Agreed :
      (later : List StackEvent) (cfg : Config) (samples : List StackEvent)
      → Agreed w pid (draw_samples w later cfg samples)
  unfolding draw_samples agrees
  draw_samples-Agreed later cfg [] = tt
  draw_samples-Agreed later cfg (ev ∷ samples) =
      attempt_or_ignore-Agreed (draw cfg.flamegraph_output) (λ t. refl)

  finish-Agreed :
      (later : List StackEvent) (cfg : Config) (samples : List StackEvent)
      → Agreed w pid (attempt w wait_ctrl_c >> draw_samples w later cfg samples)
  unfolding draw_samples agrees
  finish-Agreed later cfg samples =
      bind-Agreed w pid (attempt w wait_ctrl_c) (λ _. draw_samples w later cfg samples)
        (attempt-Agreed wait_ctrl_c refl) (λ _. draw_samples-Agreed later cfg samples)

  pub start-Agreed :
      (later : List StackEvent) (cfg : Config)
      → Holds w cfg.pid_file pid
      → Agreed w pid (start w later cfg)
  unfolding start Bootstrap.raise_memlock attach_probes agrees
  start-Agreed later cfg h =
      bind-Agreed w pid (redirect w later cfg.output_file) _ (redirect-Agreed later cfg.output_file)
        (λ _.
          bind-Agreed w pid (Bootstrap.raise_memlock w) _
            (attempt_or_ignore-Agreed raise_memlock (λ t. refl))
            (λ _. bind-Agreed w pid (attempt w load_ebpf) _ (attempt-Agreed load_ebpf refl) (λ _.
              bind-Agreed w pid (spawn_log_drain w) _ spawn_log_drain-Agreed (λ _.
                bind-Agreed w pid (pin_target_pid w cfg.pid_file) _
                  (pin_target_pid-Agreed cfg.pid_file h)
                  (λ _.
                    bind-Agreed w pid (attach_probes w) _
                      (attempts-Agreed probe_calls (ground arith))
                      (λ _.
                        bind-Agreed w pid (start_readers w later cfg) _
                          (start_readers-Agreed later cfg)
                          (λ _.
                            bind-Agreed w pid (start_sampler w later cfg) _
                              (start_sampler-Agreed later cfg h)
                              (λ samples. finish-Agreed later cfg samples))))))))
