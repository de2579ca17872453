-- ===== src/Ebpf/Phase.antt =====
-- What the probes promise for one process, as a machine with three phases, and that each call
-- implements it (aya-test-ebpf/src/main.rs).
use aya_e_bpf.Prelude.{
  ℕ, ◌≡◌, refl, sym, ap, ◌∙◌, Bool, true, false, Option, none, some, arith, ◌==◌, ==_refl,
  if◌then◌else◌, Bool-cases, Option-cases, inl, inr,
}
use aya_e_bpf.Prelude.Bytes.{Bytes}
use aya_e_bpf.Ebpf.Kernel.{ReqCtx, Kernel, Call, State}
use aya_e_bpf.Ebpf.Probe.{
  is_target_pid, read_client, read_iov_base, new_ctx, zeros, try_on_recvmsg, try_on_recvmsg_ret,
  store_request, try_on_sendmsg, try_on_connect,
}
use aya_e_bpf.Ebpf.Sample.{try_cpu_sample, push_sample}
use aya_e_bpf.Ebpf.Step.{
  Program, on_tcp_recvmsg, on_tcp_recvmsg_ret, on_tcp_sendmsg, on_tcp_connect, on_cpu_sample,
  handler, enter,
}
use aya_e_bpf.Ebpf.Request.{send_removes}

-- The request that a process serves: when it came, from whom, and its bytes.
pub record Served : Type 0 where
  pub start_ns : ℕ
  pub client_packed : ℕ
  pub req_data : Bytes

-- No request; one that is being received into a buffer; one whose bytes are there.
pub data Phase : Type 0 where
  quiet : Phase
  receiving : Served → ℕ → Phase
  received : Served → Phase

-- A request whose buffer is at `base`, where 0 stands for none.
abbrev pub begun : Served → ℕ → Phase
begun r base = if base == 0 then received r else receiving r base

-- The phase that a context stands for.
abbrev pub phase_of : Option ReqCtx → Phase
phase_of none = quiet
phase_of (some ctx) =
    begun
      (record {
        start_ns = ctx.start_ns;
        client_packed = ctx.client_packed;
        req_data = ctx.req_data;
      })
      ctx.iov_base

module _ (k : Kernel) where
  -- A receive begins a request, if there is room; its end reads the bytes, once; a send ends the request.
  abbrev pub next_phase : Program → Call → Bool → Phase → Phase
  next_phase on_tcp_recvmsg c room ph =
      if room
      then (begun
          (record { start_ns = c.now_ns; client_packed = read_client k c; req_data = zeros })
          (read_iov_base k c))
      else ph
  next_phase on_tcp_recvmsg_ret c room quiet = quiet
  next_phase on_tcp_recvmsg_ret c room (receiving r base) =
      received (record r { req_data = k.read_user c base zeros })
  next_phase on_tcp_recvmsg_ret c room (received r) = received r
  next_phase on_tcp_sendmsg c room ph = quiet
  next_phase on_tcp_connect c room ph = ph
  next_phase on_cpu_sample c room ph = ph

  -- The filter.
  abbrev pub filtered : Option ℕ → Program → Call → Bool → Phase → Phase
  filtered target p c room ph = if is_target_pid target c.pid then next_phase p c room ph else ph

  -- The phase of the process that a call belongs to.
  abbrev pub phase_at : State k → ℕ → Phase
  phase_at s tgid = phase_of (k.requests.get s.req_ctx tgid)

  phase-recvmsg :
      (c : Call) (s : State k)
      → is_target_pid s.target_pid c.pid ≡ true
      → phase_at (enter k on_tcp_recvmsg c s).0 c.tgid
        ≡ next_phase on_tcp_recvmsg c (k.requests.accepts s.req_ctx c.tgid) (phase_at s c.tgid)
  unfolding enter handler try_on_recvmsg
  phase-recvmsg c s target = elim (Bool-cases (k.requests.accepts s.req_ctx c.tgid)) [
    | inl room ↦
        rw
          (
            target,
            room,
            k.requests.get-insert s.req_ctx c.tgid c.tgid (new_ctx k c) room,
            ==_refl c.tgid,
          )
          refl
    | inr full ↦
        rw (target, full, k.requests.get-insert_refused s.req_ctx c.tgid c.tgid (new_ctx k c) full)
          refl
  ]

  phase-recvmsg_ret :
      (c : Call) (s : State k) (room : Bool)
      → is_target_pid s.target_pid c.pid ≡ true
      → phase_at (enter k on_tcp_recvmsg_ret c s).0 c.tgid
        ≡ next_phase on_tcp_recvmsg_ret c room (phase_at s c.tgid)
  unfolding enter handler try_on_recvmsg_ret store_request
  phase-recvmsg_ret c s room target = elim (Option-cases (k.requests.get s.req_ctx c.tgid)) [
    | inl missing ↦ rw (target, missing) (rw missing refl)
    | inr (ctx, found) ↦ elim (Bool-cases (ctx.iov_base == 0)) [
      | inl no_buffer ↦ rw (target, found, no_buffer) (rw (found, no_buffer) refl)
      | inr buffer ↦
          rw (target, found, buffer)
            (rw (found, store_request)
              (rw
                (
                  k.requests.get-write s.req_ctx c.tgid c.tgid
                      (record ctx { req_data = k.read_user c ctx.iov_base zeros; iov_base = 0 }) ctx
                      found,
                  ==_refl c.tgid,
                )
                refl))
    ]
  ]

  -- A call in the process itself moves its phase as the machine does, if the filter accepts it.
  phase-enter :
      (p : Program) (c : Call) (s : State k)
      → is_target_pid s.target_pid c.pid ≡ true
      → phase_at (enter k p c s).0 c.tgid
        ≡ next_phase p c (k.requests.accepts s.req_ctx c.tgid) (phase_at s c.tgid)
  unfolding enter handler try_on_connect try_cpu_sample push_sample
  phase-enter on_tcp_recvmsg c s target = phase-recvmsg c s target
  phase-enter on_tcp_recvmsg_ret c s target =
      phase-recvmsg_ret c s (k.requests.accepts s.req_ctx c.tgid) target
  phase-enter on_tcp_sendmsg c s target = ap phase_of (send_removes k c s target)
  phase-enter on_tcp_connect c s target =
      let same : k.requests.get (enter k on_tcp_connect c s).0.req_ctx c.tgid
          ≡ k.requests.get s.req_ctx c.tgid =
        ground arith in
      ap phase_of same
  phase-enter on_cpu_sample c s target =
      let same : k.requests.get (enter k on_cpu_sample c s).0.req_ctx c.tgid
          ≡ k.requests.get s.req_ctx c.tgid =
        ground arith in
      ap phase_of same

  phase-refused :
      (p : Program) (c : Call) (s : State k)
      → is_target_pid s.target_pid c.pid ≡ false
      → phase_at (enter k p c s).0 c.tgid ≡ phase_at s c.tgid
  unfolding enter handler try_on_recvmsg try_on_recvmsg_ret try_on_sendmsg try_on_connect
      try_cpu_sample push_sample
  phase-refused on_tcp_recvmsg c s target = rw target refl
  phase-refused on_tcp_recvmsg_ret c s target = rw target refl
  phase-refused on_tcp_sendmsg c s target = rw target refl
  phase-refused on_tcp_connect c s target = rw target refl
  phase-refused on_cpu_sample c s target =
      let same : k.requests.get (enter k on_cpu_sample c s).0.req_ctx c.tgid
          ≡ k.requests.get s.req_ctx c.tgid =
        ground arith in
      ap phase_of same

  pub phase-filtered :
      (p : Program) (c : Call) (s : State k)
      → phase_at (enter k p c s).0 c.tgid
        ≡ filtered s.target_pid p c (k.requests.accepts s.req_ctx c.tgid) (phase_at s c.tgid)
  phase-filtered p c s = elim (Bool-cases (is_target_pid s.target_pid c.pid)) [
    | inl target ↦
        phase-enter p c s target
        ∙ sym (
            ap
              (λ t.
                if t
                then next_phase p c (k.requests.accepts s.req_ctx c.tgid) (phase_at s c.tgid)
                else phase_at s c.tgid)
              target)
    | inr other ↦
        phase-refused p c s other
        ∙ sym (
            ap
              (λ t.
                if t
                then next_phase p c (k.requests.accepts s.req_ctx c.tgid) (phase_at s c.tgid)
                else phase_at s c.tgid)
              other)
  ]
