-- ===== src/Ebpf/Overlap/Knows.antt =====
-- What a call that is under way knows of the maps (aya-test-ebpf/src/main.rs).
use aya_e_bpf.Prelude.{
  ℕ, ◌≡◌, refl, ◌∙◌, true, false, Option, none, some, arith, ◌==◌, Bool-cases, Option-cases, inl,
  inr,
}
use aya_e_bpf.Ebpf.Access.{
  Pc, starting, inserting, looking, storing, taking, removing, counting, setting, pushing, enabling,
  sampling, done, access, admitted, tested_id, taken, removed, counted, sampled, looked,
  store_bytes,
}
use aya_e_bpf.Ebpf.Isolation.{get-insert_ne}
use aya_e_bpf.Ebpf.Kernel.{ReqCtx, Kernel, Call, State}
use aya_e_bpf.Ebpf.Overlap.Reports.{access-target_pid}
use aya_e_bpf.Ebpf.Probe.{is_target_pid, new_ctx, zeros}
use aya_e_bpf.Ebpf.Step.{
  Program, on_tcp_recvmsg, on_tcp_recvmsg_ret, on_tcp_sendmsg, on_tcp_connect, on_cpu_sample,
}

-- The call that has yet to make its last access to a context.
abbrev pub under_way : Pc → Option (Program × Call)
under_way (starting p c) = some (p, c)
under_way (inserting c) = some (on_tcp_recvmsg, c)
under_way (looking c) = some (on_tcp_recvmsg_ret, c)
under_way (storing c bytes) = some (on_tcp_recvmsg_ret, c)
under_way (taking c) = some (on_tcp_sendmsg, c)
under_way (removing c ctx) = some (on_tcp_sendmsg, c)
under_way pc = none

abbrev pub Serves : Option (Program × Call) → ℕ → Type 0
Serves none tgid = ⊥
Serves (some (p, c)) tgid = c.tgid ≡ tgid

module _ (k : Kernel) where
  -- What a call knows of the maps: it was accepted, and the context that it looked up is still there.
  abbrev pub Knows : State k → Pc → Type 0
  Knows s (inserting c) = is_target_pid s.target_pid c.pid ≡ true
  Knows s (looking c) = is_target_pid s.target_pid c.pid ≡ true
  Knows s (storing c bytes) =
      (ctx : ReqCtx) × (is_target_pid s.target_pid c.pid ≡ true)
      × (k.requests.get s.req_ctx c.tgid ≡ some ctx)
      × ((ctx.iov_base == 0) ≡ false)
      × (bytes ≡ k.read_user c ctx.iov_base zeros)
  Knows s (taking c) = is_target_pid s.target_pid c.pid ≡ true
  Knows s (removing c ctx) =
      (is_target_pid s.target_pid c.pid ≡ true) × (k.requests.get s.req_ctx c.tgid ≡ some ctx)
  Knows s pc = Unit

  -- An access leaves the contexts of the processes that it does not serve alone.
  access-other :
      (pc : Pc) (s : State k) (tgid : ℕ)
      → ¬ Serves (under_way pc) tgid
      → k.requests.get (access k pc s).0.req_ctx tgid ≡ k.requests.get s.req_ctx tgid
  unfolding access store_bytes
  access-other (inserting c) s tgid ne =
      get-insert_ne k.requests s.req_ctx c.tgid tgid (new_ctx k c) ne
  access-other (storing c bytes) s tgid ne = elim (Option-cases (k.requests.get s.req_ctx c.tgid)) [
    | inl missing ↦ rw (missing, store_bytes) refl
    | inr (ctx, found) ↦ ground (
      arith,
      k.requests.get-write s.req_ctx c.tgid tgid (record ctx { req_data = bytes; iov_base = 0 }) ctx
          found,
    )
  ]
  access-other (removing c ctx) s tgid ne =
      ground (arith, k.requests.get-remove s.req_ctx c.tgid tgid)
  access-other pc s tgid ne = refl

  -- What a call knows stays true when another process's call makes an access.
  pub kept-Knows :
      (pc pc' : Pc) (s : State k)
      → ((tgid : ℕ) → Serves (under_way pc) tgid → ¬ Serves (under_way pc') tgid)
      → Knows s pc'
      → Knows (access k pc s).0 pc'
  kept-Knows pc (inserting c) s ne h = rw (access-target_pid k pc s) h
  kept-Knows pc (looking c) s ne h = rw (access-target_pid k pc s) h
  kept-Knows pc (storing c bytes) s ne (ctx, accepted, found, buffer, read) = (
    ctx,
    rw (access-target_pid k pc s) accepted,
    access-other pc s c.tgid (λ serves. ne c.tgid serves refl) ∙ found,
    buffer,
    read,
  )
  kept-Knows pc (taking c) s ne h = rw (access-target_pid k pc s) h
  kept-Knows pc (removing c ctx) s ne (accepted, found) = (
    rw (access-target_pid k pc s) accepted,
    access-other pc s c.tgid (λ serves. ne c.tgid serves refl) ∙ found,
  )
  kept-Knows pc (starting p c) s ne h = tt
  kept-Knows pc (counting c event) s ne h = tt
  kept-Knows pc (setting c event next) s ne h = tt
  kept-Knows pc (pushing event flags) s ne h = tt
  kept-Knows pc (enabling c) s ne h = tt
  kept-Knows pc (sampling event) s ne h = tt
  kept-Knows pc (done ret) s ne h = tt

  -- What a call knows after its own access.
  pub own-Knows : (pc : Pc) (s : State k) → Knows s pc → Knows (access k pc s).0 (access k pc s).1
  unfolding access admitted tested_id taken removed counted sampled looked
  own-Knows (starting on_tcp_recvmsg c) s h = elim (Bool-cases (is_target_pid s.target_pid c.pid)) [
    | inl target ↦ rw target target
    | inr refused ↦ rw refused tt
  ]
  own-Knows (starting on_tcp_recvmsg_ret c) s h =
      elim (Bool-cases (is_target_pid s.target_pid c.pid)) [
        | inl target ↦ rw target target
        | inr refused ↦ rw refused tt
      ]
  own-Knows (starting on_tcp_sendmsg c) s h = elim (Bool-cases (is_target_pid s.target_pid c.pid)) [
    | inl target ↦ rw target target
    | inr refused ↦ rw refused tt
  ]
  own-Knows (starting on_tcp_connect c) s h = ground arith
  own-Knows (starting on_cpu_sample c) s h = ground arith
  own-Knows (inserting c) s h = tt
  own-Knows (looking c) s h = elim (Option-cases (k.requests.get s.req_ctx c.tgid)) [
    | inl missing ↦ rw missing tt
    | inr (ctx, found) ↦ rw found (elim (Bool-cases (ctx.iov_base == 0)) [
      | inl no_buffer ↦ rw no_buffer tt
      | inr buffer ↦ rw buffer (ctx, h, found, buffer, refl)
    ])
  ]
  own-Knows (storing c bytes) s h = tt
  own-Knows (taking c) s h = elim (Option-cases (k.requests.get s.req_ctx c.tgid)) [
    | inl missing ↦ rw missing tt
    | inr (ctx, found) ↦ rw found (h, found)
  ]
  own-Knows (removing c ctx) s h = ground arith
  own-Knows (counting c event) s h = elim (Option-cases (s.batch_cnt c.cpu)) [
    | inl missing ↦ rw missing tt
    | inr (cur, found) ↦ rw found tt
  ]
  own-Knows (setting c event next) s h = tt
  own-Knows (pushing event flags) s h = tt
  own-Knows (enabling c) s h = ground arith
  own-Knows (sampling event) s h = tt
  own-Knows (done ret) s h = tt
