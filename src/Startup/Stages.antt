-- ===== src/Startup/Stages.antt =====
-- The places of the effects in the order of the start (aya-test/src/main.rs, bootstrap.rs and probes.rs).
use aya_e_bpf.Prelude.{ℕ, suc, ◌+◌, ◌*◌, ◌≤◌, List, [], ◌∷◌, ◌++◌, arith, Bool-cases, inl, inr}
use aya_e_bpf.Ebpf.Step.{
  Program, on_tcp_recvmsg, on_tcp_recvmsg_ret, on_tcp_sendmsg, on_tcp_connect, on_cpu_sample,
}
use aya_e_bpf.Startup.{
  tcp_recvmsg, tcp_sendmsg, target_pid, flamegraph_on, latency_ringbuf, stack_ringbuf, Effect,
  open_output, redirect_output, raise_memlock, load_ebpf, init_logger, watch_logger, spawn_log_task,
  read_btf, open_map, set_target, as_program, load_program, attach, load_sampler, attach_sampler,
  set_flamegraph_on, spawn_ringbuf_reader, spawn_reporter, spawn_stack_reader, wait_ctrl_c, draw,
  World, ok, failed, bad_pid_file, bad_config, Action, pure, ◌>>=◌, ◌>>◌, attempt,
  attempt_or_ignore, recover,
}

-- The place of a program among those that are attached.
unfoldable pub place : Program → ℕ
place on_tcp_recvmsg = 0
place on_tcp_recvmsg_ret = 1
place on_tcp_sendmsg = 2
place on_cpu_sample = 7
place on_tcp_connect = 9

-- The place of an effect in the order of the start.
unfoldable pub stage : Effect → ℕ
unfolding place
stage (open_output path) = 0
stage (redirect_output path) = 1
stage raise_memlock = 2
stage load_ebpf = 3
stage init_logger = 4
stage watch_logger = 5
stage spawn_log_task = 6
stage (open_map target_pid) = 7
stage (set_target pid) = 8
stage read_btf = 9
stage (as_program p) = 10 + 3 * place p
stage (load_program p h) = 11 + 3 * place p
stage (attach p) = 12 + 3 * place p
stage (open_map latency_ringbuf) = 20
stage spawn_ringbuf_reader = 21
stage (spawn_reporter secs) = 22
stage load_sampler = 32
stage (attach_sampler pid hz) = 33
stage (open_map flamegraph_on) = 34
stage set_flamegraph_on = 35
stage (open_map stack_ringbuf) = 36
stage spawn_stack_reader = 37
stage wait_ctrl_c = 38
stage (draw path) = 39

-- The effects come in the order of their stages, none twice, from `lo` on and before `hi`.
unfoldable pub IsInOrder : ℕ → ℕ → List Effect → Type 0
IsInOrder lo hi [] = lo ≤ hi
IsInOrder lo hi (e ∷ es) = (lo ≤ stage e) × IsInOrder (suc (stage e)) hi es

IsInOrder-append :
    (lo mid hi : ℕ) (xs ys : List Effect)
    → IsInOrder lo mid xs
    → IsInOrder mid hi ys
    → IsInOrder lo hi (xs ++ ys)
unfolding IsInOrder
IsInOrder-append lo mid hi [] [] h h' = omega arith
IsInOrder-append lo mid hi [] (e ∷ ys) h (low, h') = (omega arith, h')
IsInOrder-append lo mid hi (e ∷ xs) ys (low, h) h' =
    (low, IsInOrder-append (suc (stage e)) mid hi xs ys h h')

IsInOrder-wider :
    (lo hi hi' : ℕ) (xs : List Effect) → hi ≤ hi' → IsInOrder lo hi xs → IsInOrder lo hi' xs
unfolding IsInOrder
IsInOrder-wider lo hi hi' [] wide h = omega arith
IsInOrder-wider lo hi hi' (e ∷ xs) wide (low, h) =
    (low, IsInOrder-wider (suc (stage e)) hi hi' xs wide h)

pub IsInOrder-bounds : (lo hi : ℕ) (xs : List Effect) → IsInOrder lo hi xs → lo ≤ hi
unfolding IsInOrder
IsInOrder-bounds lo hi [] h = h
IsInOrder-bounds lo hi (e ∷ xs) (low, h) = ground (arith, IsInOrder-bounds (suc (stage e)) hi xs h)

-- What an action has done is in order.
unfoldable pub Ordered : {A : Type 0} → ℕ → ℕ → Action A → Type 0
unfolding IsInOrder
Ordered lo hi m = IsInOrder lo hi m.1

pub bind-Ordered :
    {A B : Type 0} (lo mid hi : ℕ) (m : Action A) (f : A → Action B)
    → mid ≤ hi
    → Ordered lo mid m
    → ((a : A) → Ordered mid hi (f a))
    → Ordered lo hi (m >>= f)
unfolding Ordered
bind-Ordered lo mid hi (ok a, done) f wide h h' = IsInOrder-append lo mid hi done (f a).1 h (h' a)
bind-Ordered lo mid hi (failed e, done) f wide h h' = IsInOrder-wider lo mid hi done wide h
bind-Ordered lo mid hi (bad_pid_file, done) f wide h h' = IsInOrder-wider lo mid hi done wide h
bind-Ordered lo mid hi (bad_config, done) f wide h h' = IsInOrder-wider lo mid hi done wide h

pub recover-Ordered :
    {A B : Type 0} (lo mid hi : ℕ) (m : Action A) (k fallback : Action B)
    → Ordered lo mid m
    → Ordered mid hi k
    → Ordered mid hi fallback
    → Ordered lo hi (recover m k fallback)
unfolding Ordered
recover-Ordered lo mid hi (ok a, done) k fallback h h' h'' =
    IsInOrder-append lo mid hi done k.1 h h'
recover-Ordered lo mid hi (failed e, done) k fallback h h' h'' =
    IsInOrder-append lo mid hi done fallback.1 h h''
recover-Ordered lo mid hi (bad_pid_file, done) k fallback h h' h'' =
    IsInOrder-append lo mid hi done fallback.1 h h''
recover-Ordered lo mid hi (bad_config, done) k fallback h h' h'' =
    IsInOrder-append lo mid hi done fallback.1 h h''

-- The calls that attach the three probes.
abbrev pub probe_calls : List Effect
probe_calls =
    read_btf
    ∷ as_program on_tcp_recvmsg
    ∷ load_program on_tcp_recvmsg tcp_recvmsg
    ∷ attach on_tcp_recvmsg
    ∷ as_program on_tcp_recvmsg_ret
    ∷ load_program on_tcp_recvmsg_ret tcp_recvmsg
    ∷ attach on_tcp_recvmsg_ret
    ∷ as_program on_tcp_sendmsg
    ∷ load_program on_tcp_sendmsg tcp_sendmsg
    ∷ attach on_tcp_sendmsg
    ∷ []

-- Calls with `?` behind each.
abbrev pub attempts : World → List Effect → Action (Unit {0})
attempts w [] = pure tt
attempts w (e ∷ []) = attempt w e
attempts w (e ∷ f ∷ es) = attempt w e >> attempts w (f ∷ es)

module _ (w : World) where
  pub attempt-Ordered :
      (lo hi : ℕ) (e : Effect) → lo ≤ stage e → suc (stage e) ≤ hi → Ordered lo hi (attempt w e)
  unfolding Ordered attempt IsInOrder
  attempt-Ordered lo hi e low high = elim (Bool-cases (w.succeeds e)) [
    | inl t ↦ rw t (low, high)
    | inr t ↦ rw t (omega arith)
  ]

  pub attempt_or_ignore-Ordered :
      (lo hi : ℕ) (e : Effect)
      → lo ≤ stage e
      → suc (stage e) ≤ hi
      → Ordered lo hi (attempt_or_ignore w e)
  unfolding Ordered attempt_or_ignore IsInOrder
  attempt_or_ignore-Ordered lo hi e low high = elim (Bool-cases (w.succeeds e)) [
    | inl t ↦ rw t (low, high)
    | inr t ↦ rw t (omega arith)
  ]

  pub attempts-Ordered :
      (lo hi : ℕ) (es : List Effect) → IsInOrder lo hi es → Ordered lo hi (attempts w es)
  unfolding Ordered IsInOrder
  attempts-Ordered lo hi [] h = h
  attempts-Ordered lo hi (e ∷ []) (low, high) = attempt-Ordered lo hi e low high
  attempts-Ordered lo hi (e ∷ f ∷ es) (low, next) =
      bind-Ordered lo (suc (stage e)) hi (attempt w e) (λ _. attempts w (f ∷ es))
        (IsInOrder-bounds (suc (stage e)) hi (f ∷ es) next)
        (attempt-Ordered lo (suc (stage e)) e low (omega arith))
        (λ _. attempts-Ordered (suc (stage e)) hi (f ∷ es) next)
