-- ===== src/Ebpf/Access.antt =====
-- The handlers (aya-test-ebpf/src/main.rs) cut into their accesses to the maps, between which the calls
-- of other tasks and CPUs go on. Step C of `try_on_recvmsg_ret`, a lookup and two stores through its
-- pointer, is one access.
use aya_e_bpf.Prelude.{
  ℕ, zero, suc, ◌+◌, ◌%◌, ◌^◌, ◌||◌, Option, none, some, ltb, leb, ◌==◌, if◌then◌else◌,
}
use aya_e_bpf.Prelude.Bytes.{Bytes}
use aya_e_bpf.Prelude.Int.{is_pos}
use aya_e_bpf.Common.Event.{LatencyEvent, StackEvent}
use aya_e_bpf.Ebpf.Kernel.{ReqCtx, Kernel, Call, State, Ret, ok}
use aya_e_bpf.Ebpf.Probe.{
  is_target_pid, new_ctx, zeros, set_counter, batch_size, no_wakeup, force_wakeup, max_latency,
  wrapping_sub, latency_event,
}
use aya_e_bpf.Ebpf.Sample.{flamegraph_enabled, stack_event}
use aya_e_bpf.Ebpf.Step.{
  Program, on_tcp_recvmsg, on_tcp_recvmsg_ret, on_tcp_sendmsg, on_tcp_connect, on_cpu_sample,
}

-- The access that a call makes next, with what it has in its registers.
pub data Pc : Type 0 where
  -- `TARGET_PID.get(0)`
  starting : Program → Call → Pc
  -- `REQ_CTX.insert(&tid, &ctx_val, 0)` of a receive
  inserting : Call → Pc
  -- `REQ_CTX.get(&tid)` of the end of a receive
  looking : Call → Pc
  -- `REQ_CTX.get_ptr_mut(&tid)`, and the stores
  storing : Call → Bytes → Pc
  -- `REQ_CTX.get(&tid).copied()` of a send
  taking : Call → Pc
  -- `REQ_CTX.remove(&tid)`
  removing : Call → ReqCtx → Pc
  -- `BATCH_CNT.get_ptr_mut(0)` and `*cnt_ptr`
  counting : Call → LatencyEvent → Pc
  -- `*cnt_ptr = ...`
  setting : Call → LatencyEvent → ℕ → Pc
  -- `LATENCY_RINGBUF.output(&event, flags)`
  pushing : LatencyEvent → ℕ → Pc
  -- `FLAMEGRAPH_ON.get(&0)`
  enabling : Call → Pc
  -- `STACK_RINGBUF.output(&event, 0)`
  sampling : StackEvent → Pc
  -- The handler has returned.
  done : Ret → Pc

-- The id that the filter tests: of the process for a sample, of the thread for the others.
unfoldable pub tested_id : Program → Call → ℕ
tested_id on_cpu_sample c = c.tgid
tested_id p c = c.pid

-- What follows the filter.
unfoldable pub admitted : Program → Call → Pc
admitted on_tcp_recvmsg c = inserting c
admitted on_tcp_recvmsg_ret c = looking c
admitted on_tcp_sendmsg c = taking c
admitted on_tcp_connect c = done (ok 0)
admitted on_cpu_sample c = enabling c

-- What follows the lookup of a send.
unfoldable pub taken : Call → Option ReqCtx → Pc
taken c none = done (ok 0)
taken c (some ctx) = removing c ctx

-- What follows the removal: a request of more than 10 s is not reported.
unfoldable pub removed : Call → ReqCtx → Pc
removed c ctx =
    if ltb max_latency (wrapping_sub c.now_ns ctx.start_ns)
    then done (ok 0)
    else counting c (latency_event c ctx)

-- What follows the lookup of the counter.
unfoldable pub counted : Call → LatencyEvent → Option ℕ → Pc
counted c event none = done (ok 0)
counted c event (some cur) = setting c event ((cur + 1) % 2 ^ 32)

-- What follows the walks of the stacks.
unfoldable pub sampled : StackEvent → Pc
sampled event =
    if is_pos event.kstack_len || is_pos event.ustack_len then sampling event else done (ok 0)

module _ (k : Kernel) where
  -- What follows the lookup of the end of a receive: the read of the bytes, from the task's own memory.
  unfoldable pub looked : Call → Option ReqCtx → Pc
  looked c none = done (ok 0)
  looked c (some ctx) =
      if ctx.iov_base == 0 then done (ok 0) else storing c (k.read_user c ctx.iov_base zeros)

  -- Step C of the end of a receive.
  unfoldable pub store_bytes : Call → State k → Bytes → State k
  store_bytes c s bytes = elim (k.requests.get s.req_ctx c.tgid) [
    | none ↦ s
    | some ctx ↦ record s {
      req_ctx = k.requests.write s.req_ctx c.tgid (record ctx { req_data = bytes; iov_base = 0 });
    }
  ]

  -- One access: the maps after it, and where the call then stands.
  unfoldable pub access : Pc → State k → State k × Pc
  access (starting p c) s =
      (s, if is_target_pid s.target_pid (tested_id p c) then admitted p c else done (ok 0))
  access (inserting c) s =
      (record s { req_ctx = k.requests.insert s.req_ctx c.tgid (new_ctx k c) }, done (ok 0))
  access (looking c) s = (s, looked c (k.requests.get s.req_ctx c.tgid))
  access (storing c bytes) s = (store_bytes c s bytes, done (ok 0))
  access (taking c) s = (s, taken c (k.requests.get s.req_ctx c.tgid))
  access (removing c ctx) s =
      (record s { req_ctx = k.requests.remove s.req_ctx c.tgid }, removed c ctx)
  access (counting c event) s = (s, counted c event (s.batch_cnt c.cpu))
  access (setting c event next) s = (
    record s {
      batch_cnt = set_counter s.batch_cnt c.cpu (if leb batch_size next then 0 else next);
    },
    pushing event (if leb batch_size next then force_wakeup else no_wakeup),
  )
  access (pushing event flags) s =
      (record s { latency_ringbuf = k.latencies.output s.latency_ringbuf event flags }, done (ok 0))
  access (enabling c) s =
      (s, if flamegraph_enabled s.flamegraph_on then sampled (stack_event k c) else done (ok 0))
  access (sampling event) s =
      (record s { stack_ringbuf = k.stacks.output s.stack_ringbuf event 0 }, done (ok 0))
  access (done ret) s = (s, done ret)

  -- A call that nothing interrupts, for a number of accesses.
  unfoldable pub alone : ℕ → Pc → State k → State k × Pc
  alone zero pc s = (s, pc)
  alone (suc n) pc s = let (t, next) = access pc s in alone n next t
