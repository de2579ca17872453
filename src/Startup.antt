-- ===== src/Startup.antt =====
-- The start of the collector (aya-test/src/main.rs, bootstrap.rs and probes.rs), as the sequence of the
-- effects that it has on the world outside.
pub mod Probes
pub mod Bootstrap
pub mod Resolve
pub mod Main
pub mod Pinned
pub mod Detected
pub mod Stages
pub mod Order
pub mod Started
pub mod Done
pub mod Agreed
pub mod Filter
use aya_e_bpf.Prelude.{ℕ, Bool, true, false, List, [], ◌∷◌, ◌++◌, Option, none, some, if◌then◌else◌}
use aya_e_bpf.Prelude.Bytes.{Bytes}
use aya_e_bpf.Ebpf.Step.{Program}

-- The hooked functions, and the maps that the collector opens.
pub data Hook : Type 0 where
  tcp_recvmsg tcp_sendmsg : Hook

pub data MapName : Type 0 where
  target_pid flamegraph_on latency_ringbuf stack_ringbuf : MapName

-- What the start does with the operating system, `aya`, `tokio` and `libc`.
pub data Effect : Type 0 where
  open_output redirect_output : Bytes → Effect
  raise_memlock load_ebpf init_logger watch_logger spawn_log_task read_btf : Effect
  open_map : MapName → Effect
  set_target : ℕ → Effect
  as_program : Program → Effect
  load_program : Program → Hook → Effect
  attach : Program → Effect
  load_sampler : Effect
  attach_sampler : ℕ → ℕ → Effect
  set_flamegraph_on spawn_ringbuf_reader : Effect
  spawn_reporter : ℕ → Effect
  spawn_stack_reader wait_ctrl_c : Effect
  draw : Bytes → Effect

-- Which calls succeed, what the files hold, and the entries of `/proc`, in the order of the listing:
-- a name, and the content of its `comm` file; `none` for what cannot be read. The programs and maps
-- that the start asks for by name are taken to be in the object that was loaded. A panic of any task ends
-- the process (`panic = "abort"`): `first_poll` is how many effects `main` has still had, behind the
-- start of the reporter, when the reporter first runs, and `later_panic` when a task panics after that.
pub record World : Type 0 where
  pub succeeds : Effect → Bool
  pub read_to_string : Bytes → Option Bytes
  pub exists : ℕ → Bool
  pub read_proc : Option (List (Bytes × Option Bytes))
  pub first_poll : ℕ
  pub later_panic : Option ℕ

-- `anyhow::Result`, and what was done until then.
pub data Outcome (A : Type 0) : Type 0 where
  ok : A → Outcome A
  failed : Effect → Outcome A
  bad_pid_file bad_config : Outcome A

-- How the program ends: `main` returns, or a panic of a task ends the process before it does.
pub data Ending : Type 0 where
  returned : Outcome (Unit {0}) → Ending
  aborted : Ending

abbrev pub Action : Type 0 → Type 0
Action A = Outcome A × List Effect

abbrev pub pure : {A : Type 0} → A → Action A
pure a = (ok a, [])

infixl 5 ◌>>=◌ ◌>>◌
abbrev pub ◌>>=◌ : {A B : Type 0} → Action A → (A → Action B) → Action B
(ok a, done) >>= f = let (r, more) = f a in (r, done ++ more)
(failed e, done) >>= f = (failed e, done)
(bad_pid_file, done) >>= f = (bad_pid_file, done)
(bad_config, done) >>= f = (bad_config, done)

abbrev pub ◌>>◌ : {B : Type 0} → Action (Unit {0}) → Action B → Action B
m >> k = m >>= λ _. k

-- `match`: the second action goes on from a success, the third from an error.
abbrev pub recover : {A B : Type 0} → Action A → Action B → Action B → Action B
recover (ok a, done) k fallback = (ok tt, done) >> k
recover (failed e, done) k fallback = (ok tt, done) >> fallback
recover (bad_pid_file, done) k fallback = (ok tt, done) >> fallback
recover (bad_config, done) k fallback = (ok tt, done) >> fallback

-- A call whose error cannot be seen.
abbrev pub perform : Effect → Action (Unit {0})
perform e = (ok tt, e ∷ [])

module _ (w : World) where
  -- A call with `?` or `expect` behind it: an error ends the program, a panic like an error.
  unfoldable pub attempt : Effect → Action (Unit {0})
  attempt e = if w.succeeds e then (ok tt, e ∷ []) else (failed e, [])

  -- A call whose error is dropped or only logged.
  unfoldable pub attempt_or_ignore : Effect → Action (Unit {0})
  attempt_or_ignore e = (ok tt, if w.succeeds e then e ∷ [] else [])
