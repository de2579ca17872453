-- ===== src/Ebpf/Report.antt =====
-- What a report of the probes satisfies (aya-test-ebpf/src/main.rs).
use aya_e_bpf.Prelude.{ℕ, ◌^◌, ◌≤◌, ◌<◌, ◌≡◌, true, length, Option, arith, if◌then◌else◌}
use aya_e_bpf.Prelude.Int.{ℤ, pos, negsuc, is_neg, is_pos, to_bits}
use aya_e_bpf.Common.Event.{LatencyEvent}
use aya_e_bpf.Ebpf.Kernel.{ReqCtx, Call}
use aya_e_bpf.Ebpf.Word.{client_ip_of, client_port_of}
use aya_e_bpf.Ebpf.Probe.{is_target_pid, max_latency, wrapping_sub, retval_of, latency_event}

-- A report within the limits: its latency is at most 10 s, its numbers fit their fields, it carries 32
-- request bytes, it counts no bytes when the send failed, and its thread is the target, if one is set.
pub record IsReport (target : Option ℕ) (e : LatencyEvent) : Type 0 where
  pub in_time : e.latency_ns ≤ max_latency
  pub ip_fits : e.client_ip < 2 ^ 32
  pub port_fits : e.client_port < 2 ^ 16
  pub bytes_fit : e.bytes < 2 ^ 32
  pub error_flag : e.is_error ≤ 1
  pub error_empty : e.is_error ≡ 1 → e.bytes ≡ 0
  pub request_bytes : length e.req_data ≡ 32
  pub is_target : is_target_pid target e.pid ≡ true

client_port_of-lt : (packed : ℕ) → client_port_of packed < 2 ^ 16
unfolding client_port_of
client_port_of-lt packed = omega arith

client_ip_of-lt : (packed : ℕ) → client_ip_of packed < 2 ^ 32
unfolding client_ip_of
client_ip_of-lt packed = omega arith

bytes_fields :
    (r : ℤ)
    → ((if is_pos r then to_bits 32 r else 0) < 2 ^ 32)
      × ((if is_neg r then 1 else 0) ≤ 1)
      × (◌≡◌ {A = ℕ} (if is_neg r then 1 else 0) 1 → (if is_pos r then to_bits 32 r else 0) ≡ 0)
bytes_fields (pos n) = ground arith
bytes_fields (negsuc n) = ground arith

pub latency_event-IsReport :
    (c : Call) (ctx : ReqCtx) (target : Option ℕ)
    → wrapping_sub c.now_ns ctx.start_ns ≤ max_latency
    → length ctx.req_data ≡ 32
    → is_target_pid target c.pid ≡ true
    → IsReport target (latency_event c ctx)
unfolding latency_event
latency_event-IsReport c ctx target in_time full accepted =
    let (fit, flag, empty) = bytes_fields (retval_of c) in
    record {
      in_time = in_time;
      ip_fits = client_ip_of-lt ctx.client_packed;
      port_fits = client_port_of-lt ctx.client_packed;
      bytes_fit = fit;
      error_flag = flag;
      error_empty = empty;
      request_bytes = full;
      is_target = accepted;
    }
