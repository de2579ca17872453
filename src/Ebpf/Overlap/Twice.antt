-- ===== src/Ebpf/Overlap/Twice.antt =====
-- Two threads of one process, whose sends overlap (aya-test-ebpf/src/main.rs).
use aya_e_bpf.Prelude.{
  ℕ, ◌≡◌, ◌≢◌, refl, sym, ap, ◌∙◌, true, false, [], ◌∷◌, ◌≤◌, some, none, arith, ltb, ==_refl,
}
use aya_e_bpf.Ebpf.Access.{Pc, taking, removing, counting, access, taken, removed}
use aya_e_bpf.Ebpf.Kernel.{ReqCtx, Kernel, Call}
use aya_e_bpf.Ebpf.Overlap.{go, set_pc, System, advance, turn, turns}
use aya_e_bpf.Ebpf.Overlap.Serial.{answers}
use aya_e_bpf.Ebpf.Isolation.{enter_switches}
use aya_e_bpf.Ebpf.Probe.{is_target_pid, max_latency, wrapping_sub, latency_event}
use aya_e_bpf.Ebpf.Request.{send_removes}
use aya_e_bpf.Ebpf.Step.{on_tcp_sendmsg, enter}

module _ (k : Kernel) where
  set_pc-same : (pcs : ℕ → Pc) (i : ℕ) (pc : Pc) → set_pc pcs i pc i ≡ pc
  unfolding set_pc
  set_pc-same pcs i pc = rw (==_refl i) refl

  set_pc-other : (pcs : ℕ → Pc) (i j : ℕ) (pc : Pc) → i ≢ j → set_pc pcs i pc j ≡ pcs j
  unfolding set_pc
  set_pc-other pcs i j pc ne = ground arith

  -- An access of one slot leaves the place of the others.
  advance-other : (y : System k) (i j : ℕ) → i ≢ j → (advance k y i).pcs j ≡ y.pcs j
  unfolding advance
  advance-other y i j ne = set_pc-other y.pcs i j (access k (y.pcs i) y.maps).1 ne

  -- The lookup of a send.
  advance-taking :
      (y : System k) (i : ℕ) (c : Call) (ctx : ReqCtx)
      → y.pcs i ≡ taking c
      → k.requests.get y.maps.req_ctx c.tgid ≡ some ctx
      → ((advance k y i).pcs i ≡ removing c ctx) × ((advance k y i).maps ≡ y.maps)
  unfolding advance access taken
  advance-taking y i c ctx at found = (
    set_pc-same y.pcs i (access k (y.pcs i) y.maps).1
        ∙ (λ l. (access k (at l) y.maps).1)
        ∙ ap (taken c) found,
    λ l. (access k (at l) y.maps).0,
  )

  -- Its removal of the context.
  advance-removing :
      (y : System k) (i : ℕ) (c : Call) (ctx : ReqCtx)
      → y.pcs i ≡ removing c ctx
      → wrapping_sub c.now_ns ctx.start_ns ≤ max_latency
      → (advance k y i).pcs i ≡ counting c (latency_event c ctx)
  unfolding advance access removed
  advance-removing y i c ctx at in_time =
      set_pc-same y.pcs i (access k (y.pcs i) y.maps).1
      ∙ (λ l. (access k (at l) y.maps).1)
      ∙ ground (arith, in_time)

  -- When the sends of two threads of one process both look up its context before either removes it,
  -- and it began at most 10 s before both, each of them makes an event of the one request; one after the
  -- other, only the first does.
  pub sends_answer_twice :
      (y : System k) (i j : ℕ) (c c' : Call) (ctx : ReqCtx)
      → i ≢ j
      → c.tgid ≡ c'.tgid
      → y.pcs i ≡ taking c
      → y.pcs j ≡ taking c'
      → is_target_pid y.maps.target_pid c.pid ≡ true
      → is_target_pid y.maps.target_pid c'.pid ≡ true
      → k.requests.get y.maps.req_ctx c.tgid ≡ some ctx
      → wrapping_sub c.now_ns ctx.start_ns ≤ max_latency
      → wrapping_sub c'.now_ns ctx.start_ns ≤ max_latency
      → ((turns k (go i ∷ go j ∷ go i ∷ go j ∷ []) y).pcs i ≡ counting c (latency_event c ctx))
        × ((turns k (go i ∷ go j ∷ go i ∷ go j ∷ []) y).pcs j ≡ counting c' (latency_event c' ctx))
        × (answers k ((on_tcp_sendmsg, c) ∷ (on_tcp_sendmsg, c') ∷ []) y.maps
            ≡ latency_event c ctx ∷ [])
  unfolding turns turn answers
  sends_answer_twice y i j c c' ctx ne same at at' target target' found in_time in_time' =
      let back : j ≢ i = λ e. ne (sym e) in
      let y1 : System k = advance k y i in
      let y2 : System k = advance k y1 j in
      let y3 : System k = advance k y2 i in
      let found' : k.requests.get y.maps.req_ctx c'.tgid ≡ some ctx =
        ap (k.requests.get y.maps.req_ctx) (sym same) ∙ found in
      let (first, kept) = advance-taking y i c ctx at found in
      let (second, kept') =
        advance-taking y1 j c' ctx (advance-other y i j ne ∙ at')
          (ap (λ m. k.requests.get m.req_ctx c'.tgid) kept ∙ found') in
      let third = advance-removing y2 i c ctx (advance-other y1 j i back ∙ first) in_time in
      let fourth = advance-removing y3 j c' ctx (advance-other y2 i j ne ∙ second) in_time' in
      let gone : k.requests.get (enter k on_tcp_sendmsg c y.maps).0.req_ctx c'.tgid ≡ none =
        ap (k.requests.get (enter k on_tcp_sendmsg c y.maps).0.req_ctx) (sym same)
        ∙ send_removes k c y.maps target in
      let late : ltb max_latency (wrapping_sub c.now_ns ctx.start_ns) ≡ false = ground arith in
      let accepted : is_target_pid (enter k on_tcp_sendmsg c y.maps).0.target_pid c'.pid ≡ true =
        rw (enter_switches k on_tcp_sendmsg c y.maps).0 target' in
      (
        advance-other y3 j i back ∙ third,
        fourth,
        rw (target, found, late) (rw (accepted, gone) refl),
      )
