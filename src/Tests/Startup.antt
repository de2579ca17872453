-- ===== src/Tests/Startup.antt =====
-- The start of the collector (aya-test/src/main.rs, bootstrap.rs and probes.rs) on small worlds.
use aya_e_bpf.Prelude.{All, ◌⊎◌, ◌≡◌, refl, Bool, true, false, [], ◌∷◌, none, some, arith}
use aya_e_bpf.Prelude.Bytes.{codes, same}
use aya_e_bpf.Prelude.Decimal.{display, digit_value, read_digits, from_radix}
use aya_e_bpf.Prelude.Text.{is_space, trim_start, trim_end, trim}
use aya_e_bpf.Config.{Config, default_config}
use aya_e_bpf.Config.Priority.{load_without_file}
use aya_e_bpf.Startup.{returned, ok, Effect, set_target, attach_sampler, World}
use aya_e_bpf.Startup.Detected.{IsTarget, resolve_redis_pid-IsTarget}
use aya_e_bpf.Startup.Main.{main, start}
use aya_e_bpf.Startup.Order.{main_ordered}
use aya_e_bpf.Startup.Pinned.{Holds}
use aya_e_bpf.Startup.Filter.{filter_agrees}
use aya_e_bpf.Startup.Agreed.{agrees}
use aya_e_bpf.Startup.Done.{IsSegment}
use aya_e_bpf.Startup.Resolve.{is_server, pid_of_entry, scan_proc, pid_of_file, resolve_redis_pid}
use aya_e_bpf.Startup.Stages.{IsInOrder}
use aya_e_bpf.Startup.Started.{is_needed, is_ok, unreadable, main-Works}
use aya_e_bpf.Tests.Instances.{no_files}
use aya_e_bpf.Tests.Settings.{cli}

-- A world in which the sampler cannot be attached.
abbrev allows : Effect → Bool
allows (attach_sampler pid hz) = false
allows _ = true

-- No pid file; a shell and a server run.
abbrev world : World
world = record {
  succeeds = allows;
  read_to_string = λ path. none;
  exists = λ pid. true;
  read_proc =
      some ((codes "41", some (codes "sh\n")) ∷ (codes "42", some (codes "redis-server\n")) ∷ []);
  first_poll = 0;
  later_panic = none;
}

-- A pid file, with a line end.
abbrev pinned : World
pinned = record world { read_to_string = λ path. some (codes "1203\n") }

main_ordered_example : IsInOrder 0 40 (main world [] no_files cli).1
main_ordered_example = main_ordered world [] no_files cli

allowed : (e : Effect) → is_needed e ≡ true → world.succeeds e ≡ true
unfolding is_needed
allowed (attach_sampler pid hz) h = absurd (ground (arith, h))
allowed _ h = refl

main-Works_example : (main world [] no_files cli).0 ≡ returned (ok tt)
main-Works_example =
    main-Works world allowed [] no_files cli (record default_config { interval_secs = 5 })
      (load_without_file no_files cli refl) (ground arith) (unreadable refl) refl

abbrev pinned_config : Config
pinned_config = record default_config { pid_file = codes "redis.pid" }

pinned-Holds : Holds pinned (codes "redis.pid") 1203
unfolding display is_space
pinned-Holds = record {
  before = [];
  behind = codes "\n";
  read = refl;
  blank_before = tt;
  blank_behind = (refl, tt);
  above_one = ground arith;
  fits = ground arith;
  runs = refl;
}

filter_agrees_example :
    All (λ e. agrees pinned 1203 e ≡ true) (start pinned [] pinned_config).1
    × ((pinned.succeeds (set_target 1203) ≡ false)
        ⊎ (is_ok (start pinned [] pinned_config).0 ≡ false)
        ⊎ IsSegment (set_target 1203 ∷ []) (start pinned [] pinned_config).1)
filter_agrees_example = filter_agrees pinned [] pinned_config 1203 pinned-Holds

resolve_redis_pid-IsTarget_example : IsTarget world (codes "redis.pid") 42
unfolding resolve_redis_pid pid_of_file scan_proc is_server pid_of_entry is_space same trim_start
    trim_end trim from_radix read_digits digit_value
resolve_redis_pid-IsTarget_example = resolve_redis_pid-IsTarget world (codes "redis.pid")
