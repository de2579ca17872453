-- ===== src/Startup/Pinned.antt =====
-- The process of the pid file (aya-test/src/bootstrap.rs and main.rs): the filter and the sampler.
use aya_e_bpf.Prelude.{
  ℕ, ◌≡◌, ◌≤◌, ◌<◌, refl, true, false, ◌++◌, some, arith, All, All-map, ◌∙◌, ap,
}
use aya_e_bpf.Prelude.Bytes.{Bytes, is_digit}
use aya_e_bpf.Prelude.Decimal.{
  parse, u32_max, display, parse-display, display-AreDigits, display-ne-nil,
}
use aya_e_bpf.Prelude.Text.{is_space, trim, trim_word}
use aya_e_bpf.Startup.{target_pid, open_map, set_target, World, ◌>>◌, attempt, attempt_or_ignore}
use aya_e_bpf.Startup.Bootstrap.{pin_target_pid}
use aya_e_bpf.Startup.Resolve.{pid_of_file, resolve_redis_pid}

is_space-is_digit : (c : ℕ) → is_digit c ≡ true → is_space c ≡ false
unfolding is_digit is_space
is_space-is_digit c h = ground arith

-- A number with spaces and line ends round it is read.
parse-trim :
    (pid : ℕ) (before behind : Bytes)
    → pid ≤ u32_max
    → All (λ c. is_space c ≡ true) before
    → All (λ c. is_space c ≡ true) behind
    → parse u32_max (trim (before ++ (display pid ++ behind))) ≡ some pid
parse-trim pid before behind fits h h' =
    ap (parse u32_max) (
      trim_word before (display pid) behind h (display-ne-nil pid)
        (All-map is_space-is_digit (display pid) (display-AreDigits pid)) h')
    ∙ parse-display u32_max pid fits

-- The pid file holds the number of a process that runs, other than 0 and 1, with spaces or line ends round
-- it.
pub record Holds (w : World) (pid_file : Bytes) (pid : ℕ) : Type 0 where
  pub before : Bytes
  pub behind : Bytes
  pub read : w.read_to_string pid_file ≡ some (before ++ (display pid ++ behind))
  pub blank_before : All (λ c. is_space c ≡ true) before
  pub blank_behind : All (λ c. is_space c ≡ true) behind
  pub above_one : 1 < pid
  pub fits : pid ≤ u32_max
  pub runs : w.exists pid ≡ true

pub pin_target_pid-set_target :
    (w : World) (pid_file : Bytes) (pid : ℕ)
    → Holds w pid_file pid
    → pin_target_pid w pid_file
      ≡ (attempt w (open_map target_pid) >> attempt_or_ignore w (set_target pid))
unfolding pin_target_pid
pin_target_pid-set_target w pid_file pid h =
    rw
      (
        h.read,
        parse-trim pid h.before h.behind h.fits h.blank_before h.blank_behind,
        pin_target_pid,
      )
      refl

pub resolve_redis_pid_held :
    (w : World) (pid_file : Bytes) (pid : ℕ)
    → Holds w pid_file pid
    → resolve_redis_pid w pid_file ≡ pid
unfolding resolve_redis_pid pid_of_file
resolve_redis_pid_held w pid_file pid h =
    rw
      (
        h.read,
        parse-trim pid h.before h.behind h.fits h.blank_before h.blank_behind,
        h.runs,
        resolve_redis_pid,
        pid_of_file,
      )
      (ground (arith, h.above_one))
