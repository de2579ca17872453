-- ===== src/Ebpf/Probe.antt =====
-- The handlers on `tcp_recvmsg`, `tcp_sendmsg` and `tcp_connect` (aya-test-ebpf/src/main.rs). A handler
-- takes the maps and gives them back with its result.
use aya_e_bpf.Prelude.{
  ℕ, ◌+◌, ◌-◌, ◌%◌, ◌^◌, Bool, true, not, replicate, Option, none, some, ltb, leb, ◌==◌,
  if◌then◌else◌,
}
use aya_e_bpf.Prelude.Bytes.{Bytes}
use aya_e_bpf.Prelude.Int.{ℤ, pos, is_neg, is_pos, to_bits}
use aya_e_bpf.Common.Event.{LatencyEvent}
use aya_e_bpf.Ebpf.Kernel.{ReqCtx, Kernel, Call, State, Ret, ok}
use aya_e_bpf.Ebpf.Word.{pack_client, client_ip_of, client_port_of}

abbrev pub batch_size : ℕ
batch_size = 16

abbrev pub no_wakeup : ℕ
no_wakeup = 1

abbrev pub force_wakeup : ℕ
force_wakeup = 2

-- Longer latencies are not reported: 10 s.
abbrev pub max_latency : ℕ
max_latency = 10_000_000_000

-- The default 0 means to trace everything.
unfoldable pub is_target_pid : Option ℕ → ℕ → Bool
is_target_pid none pid = true
is_target_pid (some target) pid = if target == 0 then true else pid == target

abbrev pub zeros : Bytes
zeros = replicate 32 0

-- `now.wrapping_sub(start)` in `u64`.
unfoldable pub wrapping_sub : ℕ → ℕ → ℕ
wrapping_sub now start = (now + 2 ^ 64 - start) % 2 ^ 64

unfoldable pub retval_of : Call → ℤ
retval_of c = elim c.retval [ none ↦ pos 0 | some r ↦ r ]

unfoldable pub latency_event : Call → ReqCtx → LatencyEvent
latency_event c ctx = record {
  pid = c.pid;
  tid = c.tgid;
  latency_ns = wrapping_sub c.now_ns ctx.start_ns;
  bytes = if is_pos (retval_of c) then to_bits 32 (retval_of c) else 0;
  client_ip = client_ip_of ctx.client_packed;
  client_port = client_port_of ctx.client_packed;
  command = 0;
  is_error = if is_neg (retval_of c) then 1 else 0;
  req_data = ctx.req_data;
}

abbrev pub set_counter : (ℕ → Option ℕ) → ℕ → ℕ → ℕ → Option ℕ
set_counter counters cpu n j = if cpu == j then some n else counters j

module _ (k : Kernel) where
  -- The peer's address and port, from the socket; 0 if there is none.
  unfoldable pub read_client : Call → ℕ
  read_client c =
      if c.sk == 0
      then 0
      else pack_client (k.read_kernel c 4 ((c.sk + 4) % 2 ^ 64) 0).0
          (k.read_kernel c 2 ((c.sk + 12) % 2 ^ 64) 0).0

  -- The address of the receive buffer; 0 if there is none, or if the read fails.
  unfoldable pub read_iov_base : Call → ℕ
  read_iov_base c =
      let (base, ret) = k.read_kernel c 8 ((c.msg + 32) % 2 ^ 64) 0 in
      if c.msg == 0 then 0 else if is_neg ret then 0 else base

  abbrev pub new_ctx : Call → ReqCtx
  new_ctx c = record {
    start_ns = c.now_ns;
    iov_base = read_iov_base c;
    client_packed = read_client c;
    req_data = zeros;
  }

  unfoldable pub try_on_recvmsg : Call → State k → State k × Ret
  try_on_recvmsg c s =
      if not (is_target_pid s.target_pid c.pid)
      then (s, ok 0)
      else (record s { req_ctx = k.requests.insert s.req_ctx c.tgid (new_ctx c) }, ok 0)

  -- Steps B and C of the handler: the context that was found, with the bytes that were read.
  unfoldable pub store_request : Call → State k → ReqCtx → State k
  store_request c s found =
      let bytes : Bytes = k.read_user c found.iov_base zeros in
      elim (k.requests.get s.req_ctx c.tgid) [
        | none ↦ s
        | some ctx ↦ record s {
          req_ctx =
              k.requests.write s.req_ctx c.tgid (record ctx { req_data = bytes; iov_base = 0 });
        }
      ]

  unfoldable pub try_on_recvmsg_ret : Call → State k → State k × Ret
  try_on_recvmsg_ret c s =
      if not (is_target_pid s.target_pid c.pid)
      then (s, ok 0)
      else elim (k.requests.get s.req_ctx c.tgid) [
        | none ↦ (s, ok 0)
        | some ctx ↦ if ctx.iov_base == 0 then (s, ok 0) else (store_request c s ctx, ok 0)
      ]

  -- The batched wake-up: the counter of this CPU, and the flag of the record.
  unfoldable pub push_event : Call → State k → LatencyEvent → State k
  push_event c s event = elim (s.batch_cnt c.cpu) [
    | none ↦ s
    | some cur ↦
        if leb batch_size ((cur + 1) % 2 ^ 32)
        then record s {
          batch_cnt = set_counter s.batch_cnt c.cpu 0;
          latency_ringbuf = k.latencies.output s.latency_ringbuf event force_wakeup;
        }
        else record s {
          batch_cnt = set_counter s.batch_cnt c.cpu ((cur + 1) % 2 ^ 32);
          latency_ringbuf = k.latencies.output s.latency_ringbuf event no_wakeup;
        }
  ]

  -- What the handler does with the context that it took out of the map.
  unfoldable pub report_request : Call → State k → ReqCtx → State k
  report_request c s ctx =
      if ltb max_latency (wrapping_sub c.now_ns ctx.start_ns)
      then s
      else push_event c s (latency_event c ctx)

  unfoldable pub try_on_sendmsg : Call → State k → State k × Ret
  try_on_sendmsg c s =
      if not (is_target_pid s.target_pid c.pid)
      then (s, ok 0)
      else elim (k.requests.get s.req_ctx c.tgid) [
        | none ↦ (s, ok 0)
        | some ctx ↦
            (report_request c (record s { req_ctx = k.requests.remove s.req_ctx c.tgid }) ctx, ok 0)
      ]

  unfoldable pub try_on_connect : Call → State k → State k × Ret
  try_on_connect c s = if not (is_target_pid s.target_pid c.pid) then (s, ok 0) else (s, ok 0)
