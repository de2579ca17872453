-- ===== src/Ebpf/Overlap/Effect.antt =====
-- What the accesses of a call and the whole call do to the contexts (aya-test-ebpf/src/main.rs).
use aya_e_bpf.Prelude.{
  ℕ, ◌≡◌, refl, List, [], ◌∷◌, Option, none, some, arith, ltb, ◌==◌, Bool-cases, Option-cases, inl,
  inr, if◌then◌else◌,
}
use aya_e_bpf.Ebpf.Access.{
  Pc, starting, inserting, looking, storing, taking, removing, counting, setting, pushing, enabling,
  sampling, done, access, admitted, tested_id, taken, removed, counted, sampled, looked,
  store_bytes,
}
use aya_e_bpf.Ebpf.Isolation.{report-req_ctx, sample_frame}
use aya_e_bpf.Ebpf.Kernel.{Kernel, Call, State}
use aya_e_bpf.Ebpf.Overlap.Knows.{under_way, Knows}
use aya_e_bpf.Ebpf.Probe.{
  is_target_pid, new_ctx, zeros, max_latency, wrapping_sub, try_on_recvmsg, try_on_recvmsg_ret,
  store_request, try_on_sendmsg, try_on_connect,
}
use aya_e_bpf.Ebpf.Step.{
  Program, on_tcp_recvmsg, on_tcp_recvmsg_ret, on_tcp_sendmsg, on_tcp_connect, on_cpu_sample,
  handler, enter,
}

-- A call takes effect at its last access to a context.
abbrev pub effect : Option (Program × Call) → Option (Program × Call) → List (Program × Call)
effect none next = []
effect (some call) none = call ∷ []
effect (some call) (some same) = []

module _ (k : Kernel) where
  -- What a call does to the contexts.
  abbrev pub contexts : Program → Call → Option ℕ → k.requests.Map → k.requests.Map
  contexts on_tcp_recvmsg c target m =
      if is_target_pid target c.pid then k.requests.insert m c.tgid (new_ctx k c) else m
  contexts on_tcp_recvmsg_ret c target m =
      if is_target_pid target c.pid
      then (elim (k.requests.get m c.tgid) [
        | none ↦ m
        | some ctx ↦
            if ctx.iov_base == 0
            then m
            else k.requests.write m c.tgid
                (record ctx { req_data = k.read_user c ctx.iov_base zeros; iov_base = 0 })
      ])
      else m
  contexts on_tcp_sendmsg c target m =
      if is_target_pid target c.pid
      then (elim (k.requests.get m c.tgid) [ none ↦ m | some ctx ↦ k.requests.remove m c.tgid ])
      else m
  contexts on_tcp_connect c target m = m
  contexts on_cpu_sample c target m = m

  pub enter-contexts :
      (p : Program) (c : Call) (s : State k)
      → (enter k p c s).0.req_ctx ≡ contexts p c s.target_pid s.req_ctx
  unfolding enter handler try_on_recvmsg try_on_recvmsg_ret store_request try_on_sendmsg
      try_on_connect
  enter-contexts on_tcp_recvmsg c s = elim (Bool-cases (is_target_pid s.target_pid c.pid)) [
    | inl target ↦ rw target refl
    | inr refused ↦ rw refused refl
  ]
  enter-contexts on_tcp_recvmsg_ret c s = elim (Bool-cases (is_target_pid s.target_pid c.pid)) [
    | inr refused ↦ rw refused refl
    | inl target ↦ elim (Option-cases (k.requests.get s.req_ctx c.tgid)) [
      | inl missing ↦ rw (target, missing) refl
      | inr (ctx, found) ↦ elim (Bool-cases (ctx.iov_base == 0)) [
        | inl no_buffer ↦ rw (target, found, no_buffer) refl
        | inr buffer ↦ rw (target, found, buffer) (rw (found, store_request) refl)
      ]
    ]
  ]
  enter-contexts on_tcp_sendmsg c s = elim (Bool-cases (is_target_pid s.target_pid c.pid)) [
    | inr refused ↦ rw refused refl
    | inl target ↦ elim (Option-cases (k.requests.get s.req_ctx c.tgid)) [
      | inl missing ↦ rw (target, missing) refl
      | inr (ctx, found) ↦
          rw (target, found)
            ((report-req_ctx k c (record s { req_ctx = k.requests.remove s.req_ctx c.tgid }) ctx).0)
    ]
  ]
  enter-contexts on_tcp_connect c s = ground arith
  enter-contexts on_cpu_sample c s = (sample_frame k c s).0

  abbrev pub applied : List (Program × Call) → Option ℕ → k.requests.Map → k.requests.Map
  applied [] target m = m
  applied ((p, c) ∷ calls) target m = applied calls target (contexts p c target m)

  -- An access does to the contexts what the calls that it completes do.
  pub access-contexts :
      (pc : Pc) (s : State k)
      → Knows k s pc
      → (access k pc s).0.req_ctx
        ≡ applied (effect (under_way pc) (under_way (access k pc s).1)) s.target_pid s.req_ctx
  unfolding access admitted tested_id taken removed counted sampled looked store_bytes
  access-contexts (starting on_tcp_recvmsg c) s h =
      elim (Bool-cases (is_target_pid s.target_pid c.pid)) [
        | inl target ↦ rw target refl
        | inr refused ↦ rw refused (rw refused refl)
      ]
  access-contexts (starting on_tcp_recvmsg_ret c) s h =
      elim (Bool-cases (is_target_pid s.target_pid c.pid)) [
        | inl target ↦ rw target refl
        | inr refused ↦ rw refused (rw refused refl)
      ]
  access-contexts (starting on_tcp_sendmsg c) s h =
      elim (Bool-cases (is_target_pid s.target_pid c.pid)) [
        | inl target ↦ rw target refl
        | inr refused ↦ rw refused (rw refused refl)
      ]
  access-contexts (starting on_tcp_connect c) s h = ground arith
  access-contexts (starting on_cpu_sample c) s h =
      elim (Bool-cases (is_target_pid s.target_pid c.tgid)) [
        | inl target ↦ rw target refl
        | inr refused ↦ rw refused refl
      ]
  access-contexts (inserting c) s h = rw h refl
  access-contexts (looking c) s h = elim (Option-cases (k.requests.get s.req_ctx c.tgid)) [
    | inl missing ↦ rw missing (rw (h, missing) refl)
    | inr (ctx, found) ↦ elim (Bool-cases (ctx.iov_base == 0)) [
      | inl no_buffer ↦ rw (found, no_buffer) (rw (h, found, no_buffer) refl)
      | inr buffer ↦ rw (found, buffer) refl
    ]
  ]
  access-contexts (storing c bytes) s (ctx, accepted, found, buffer, read) =
      rw (accepted, found, store_bytes) (rw (buffer, read) refl)
  access-contexts (taking c) s h = elim (Option-cases (k.requests.get s.req_ctx c.tgid)) [
    | inl missing ↦ rw missing (rw (h, missing) refl)
    | inr (ctx, found) ↦ rw found refl
  ]
  access-contexts (removing c ctx) s (accepted, found) =
      elim (Bool-cases (ltb max_latency (wrapping_sub c.now_ns ctx.start_ns))) [
        | inl late ↦ rw late (rw (accepted, found) refl)
        | inr soon ↦ rw soon (rw (accepted, found) refl)
      ]
  access-contexts (counting c event) s h = refl
  access-contexts (setting c event next) s h = refl
  access-contexts (pushing event flags) s h = refl
  access-contexts (enabling c) s h = refl
  access-contexts (sampling event) s h = refl
  access-contexts (done ret) s h = refl
