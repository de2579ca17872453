-- ===== src/Startup/Filter.antt =====
-- The filter and the sampler (aya-test/src/main.rs and bootstrap.rs).
use aya_e_bpf.Prelude.{ℕ, ◌≡◌, ◌⊎◌, false, refl, true, List, [], ◌∷◌, All, Bool-cases, inl, inr}
use aya_e_bpf.Prelude.Bytes.{Bytes}
use aya_e_bpf.Common.Event.{StackEvent}
use aya_e_bpf.Config.{Config}
use aya_e_bpf.Startup.{
  target_pid, load_ebpf, open_map, set_target, World, attempt, attempt_or_ignore,
}
use aya_e_bpf.Startup.Bootstrap.{spawn_log_drain, pin_target_pid}
use aya_e_bpf.Startup.Bootstrap
use aya_e_bpf.Startup.Main.{redirect, start}
use aya_e_bpf.Startup.Agreed.{agrees, start-Agreed}
use aya_e_bpf.Startup.Done.{IsSegment, Ensures, first-Ensures, then-Ensures}
use aya_e_bpf.Startup.Pinned.{Holds, pin_target_pid-set_target}
use aya_e_bpf.Startup.Started.{is_ok}

module _ (w : World) (pid : ℕ) where
  pin_target_pid-Ensures :
      (pid_file : Bytes)
      → Holds w pid_file pid
      → w.succeeds (set_target pid) ≡ true
      → Ensures (set_target pid ∷ []) (pin_target_pid w pid_file)
  unfolding attempt_or_ignore Ensures
  pin_target_pid-Ensures pid_file h written = rw (pin_target_pid-set_target w pid_file pid h) (
      then-Ensures (set_target pid ∷ []) (attempt w (open_map target_pid))
        (λ _. attempt_or_ignore w (set_target pid))
        (λ _.
          rw (written, attempt_or_ignore)
            (λ all_well. record { before = []; after = []; split = refl })))

  start_sets :
      (later : List StackEvent) (cfg : Config)
      → Holds w cfg.pid_file pid
      → w.succeeds (set_target pid) ≡ true
      → is_ok (start w later cfg).0 ≡ true
      → IsSegment (set_target pid ∷ []) (start w later cfg).1
  unfolding start Ensures
  start_sets later cfg h written =
      then-Ensures (set_target pid ∷ []) (redirect w later cfg.output_file) _ (λ _.
        then-Ensures (set_target pid ∷ []) (Bootstrap.raise_memlock w) _ (λ _.
          then-Ensures (set_target pid ∷ []) (attempt w load_ebpf) _ (λ _.
            then-Ensures (set_target pid ∷ []) (spawn_log_drain w) _ (λ _.
              first-Ensures (set_target pid ∷ []) (pin_target_pid w cfg.pid_file) _
                (pin_target_pid-Ensures cfg.pid_file h written)))))

-- The filter and the sampler agree on the process: when the pid file holds the number of a process that
-- runs, other than 0 and 1, with spaces or line ends round it, then whatever `/proc` lists and whatever
-- fails, the start writes no other number to the filter and attaches the sampler to no other process.
-- The write itself may fail, and then it is not among what was done; if it succeeds, a start that
-- ends without an error has done it.
pub filter_agrees :
    (w : World) (later : List StackEvent) (cfg : Config) (pid : ℕ)
    → Holds w cfg.pid_file pid
    → All (λ e. agrees w pid e ≡ true) (start w later cfg).1
      × ((w.succeeds (set_target pid) ≡ false)
          ⊎ (is_ok (start w later cfg).0 ≡ false)
          ⊎ IsSegment (set_target pid ∷ []) (start w later cfg).1)
filter_agrees w later cfg pid h = (
  start-Agreed w pid later cfg h,
  elim (Bool-cases (w.succeeds (set_target pid))) [
    | inr unwritten ↦ inl unwritten
    | inl written ↦ elim (Bool-cases (is_ok (start w later cfg).0)) [
      | inr failing ↦ inr (inl failing)
      | inl all_well ↦ inr (inr (start_sets w pid later cfg h written all_well))
    ]
  ],
)
