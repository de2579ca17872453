-- ===== src/Ebpf/Overlap/Flight.antt =====
-- The events that calls under way have made and not yet written (aya-test-ebpf/src/main.rs).
use aya_e_bpf.Prelude.{
  ℕ, zero, suc, ◌+◌, ◌≤◌, ◌<◌, ◌≡◌, refl, ap, ◌∙◌, Bool, true, false, List, [], ◌∷◌, ◌++◌, map,
  map-append, some, arith, ltb, ◌==◌, ==_iff, ◌||◌, Bool-cases, Option-cases, inl, inr,
  if◌then◌else◌,
}
use aya_e_bpf.Prelude.Int.{is_pos}
use aya_e_bpf.Common.Event.{LatencyEvent}
use aya_e_bpf.Ebpf.Access.{
  Pc, starting, inserting, looking, storing, taking, removing, counting, setting, pushing, enabling,
  sampling, done, access, admitted, tested_id, taken, removed, counted, sampled, looked,
  store_bytes,
}
use aya_e_bpf.Ebpf.Kernel.{Kernel, Call, State}
use aya_e_bpf.Ebpf.Overlap.{set_pc}
use aya_e_bpf.Ebpf.Overlap.Answers.{made}
use aya_e_bpf.Ebpf.Probe.{is_target_pid, max_latency, wrapping_sub}
use aya_e_bpf.Ebpf.Sample.{flamegraph_enabled, stack_event}
use aya_e_bpf.Ebpf.Step.{
  Program, on_tcp_recvmsg, on_tcp_recvmsg_ret, on_tcp_sendmsg, on_tcp_connect, on_cpu_sample,
}

-- How many of the events pass a test.
abbrev pub tally : (LatencyEvent → Bool) → List LatencyEvent → ℕ
tally test [] = 0
tally test (e ∷ events) = (if test e then 1 else 0) + tally test events

pub tally-append :
    (test : LatencyEvent → Bool) (events more : List LatencyEvent)
    → tally test (events ++ more) ≡ tally test events + tally test more
tally-append test [] more = omega arith
tally-append test (e ∷ events) more = omega (arith, tally-append test events more)

-- Whether a call holds such an event.
abbrev pub carried : (LatencyEvent → Bool) → Pc → ℕ
carried test (counting c event) = if test event then 1 else 0
carried test (setting c event next) = if test event then 1 else 0
carried test (pushing event flags) = if test event then 1 else 0
carried test pc = 0

abbrev pub sum_below : ℕ → (ℕ → ℕ) → ℕ
sum_below zero f = 0
sum_below (suc n) f = f n + sum_below n f

-- Those of the first `n` slots.
abbrev pub in_flight : (LatencyEvent → Bool) → ℕ → (ℕ → Pc) → ℕ
in_flight test n pcs = sum_below n (λ i. carried test (pcs i))

set_pc-beyond :
    (test : LatencyEvent → Bool) (n i : ℕ) (pcs : ℕ → Pc) (pc : Pc)
    → n ≤ i
    → in_flight test n (set_pc pcs i pc) ≡ in_flight test n pcs
unfolding set_pc
set_pc-beyond test zero i pcs pc h = refl
set_pc-beyond test (suc n) i pcs pc h =
    let other : (i == n) ≡ false = ground (arith, h) in
    rw other
      (ap (λ rest. carried test (pcs n) + rest) (set_pc-beyond test n i pcs pc (omega (arith, h))))

pub set_pc-within :
    (test : LatencyEvent → Bool) (n i : ℕ) (pcs : ℕ → Pc) (pc : Pc)
    → i < n
    → in_flight test n (set_pc pcs i pc) + carried test (pcs i)
      ≡ in_flight test n pcs + carried test pc
unfolding set_pc
set_pc-within test zero i pcs pc h = absurd (omega (arith, h))
set_pc-within test (suc n) i pcs pc h = elim (Bool-cases (i == n)) [
  | inl last ↦
      let here : i ≡ n = (==_iff i n).0 last in
      let new : carried test (set_pc pcs i pc n) ≡ carried test pc = rw (last, set_pc) refl in
      let old : carried test (pcs i) ≡ carried test (pcs n) = ap (λ j. carried test (pcs j)) here in
      omega (arith, new, old, set_pc-beyond test n i pcs pc (omega (arith, here)))
  | inr earlier ↦
      let same : carried test (set_pc pcs i pc n) ≡ carried test (pcs n) =
        rw (earlier, set_pc) refl in
      omega (arith, same, set_pc-within test n i pcs pc (ground (arith, h, earlier)))
]

admitted_lem :
    (test : LatencyEvent → Bool) (p : Program) (c : Call)
    → (carried test (admitted p c) ≡ 0) × (tally test (made (admitted p c)) ≡ 0)
unfolding admitted
admitted_lem test on_tcp_recvmsg c = (refl, refl)
admitted_lem test on_tcp_recvmsg_ret c = (refl, refl)
admitted_lem test on_tcp_sendmsg c = (refl, refl)
admitted_lem test on_tcp_connect c = (refl, refl)
admitted_lem test on_cpu_sample c = (refl, refl)

module _ (k : Kernel) where
  -- The records of the buffer that pass a test.
  abbrev pub written : (LatencyEvent → Bool) → State k → ℕ
  written test s = tally test (map (λ r. r.0) (k.latencies.records s.latency_ringbuf))

  -- Every CPU has its counter.
  abbrev pub AllCounters : State k → Type 0
  AllCounters s = (cpu : ℕ) → (cur : ℕ) × (s.batch_cnt cpu ≡ some cur)

  pub access-AllCounters : (pc : Pc) (s : State k) → AllCounters s → AllCounters (access k pc s).0
  unfolding access store_bytes
  access-AllCounters (setting c event next) s h cpu = elim (Bool-cases (c.cpu == cpu)) [
    | inl here ↦ rw here (_, refl)
    | inr there ↦ rw there (h cpu)
  ]
  access-AllCounters (storing c bytes) s h cpu =
      elim (Option-cases (k.requests.get s.req_ctx c.tgid)) [
        | inl missing ↦ rw (missing, store_bytes) (h cpu)
        | inr (ctx, found) ↦ rw (found, store_bytes) (h cpu)
      ]
  access-AllCounters pc s h cpu = h cpu

  -- An access makes events, keeps them, or writes them to a buffer that has room.
  pub access-written :
      (test : LatencyEvent → Bool) (pc : Pc) (s : State k)
      → ((b : k.latencies.Buffer) → k.latencies.fits b ≡ true)
      → AllCounters s
      → written test s + carried test pc + tally test (made (access k pc s).1)
        ≡ written test (access k pc s).0 + carried test (access k pc s).1
  unfolding access admitted tested_id taken removed counted sampled looked store_bytes
  access-written test (starting p c) s room counters =
      let (none_held, none_made) = admitted_lem test p c in
      elim (Bool-cases (is_target_pid s.target_pid (tested_id p c))) [
        | inl target ↦ rw target (omega (arith, none_held, none_made))
        | inr refused ↦ rw refused (omega arith)
      ]
  access-written test (inserting c) s room counters = omega arith
  access-written test (looking c) s room counters =
      elim (Option-cases (k.requests.get s.req_ctx c.tgid)) [
        | inl missing ↦ rw missing (omega arith)
        | inr (ctx, found) ↦ elim (Bool-cases (ctx.iov_base == 0)) [
          | inl no_buffer ↦ rw (found, no_buffer) (omega arith)
          | inr buffer ↦ rw (found, buffer) (omega arith)
        ]
      ]
  access-written test (storing c bytes) s room counters =
      elim (Option-cases (k.requests.get s.req_ctx c.tgid)) [
        | inl missing ↦ rw (missing, store_bytes) (omega arith)
        | inr (ctx, found) ↦ rw (found, store_bytes) (omega arith)
      ]
  access-written test (taking c) s room counters =
      elim (Option-cases (k.requests.get s.req_ctx c.tgid)) [
        | inl missing ↦ rw missing (omega arith)
        | inr (ctx, found) ↦ rw found (omega arith)
      ]
  access-written test (removing c ctx) s room counters =
      elim (Bool-cases (ltb max_latency (wrapping_sub c.now_ns ctx.start_ns))) [
        | inl late ↦ rw late (omega arith)
        | inr soon ↦ rw soon (omega arith)
      ]
  access-written test (counting c event) s room counters =
      let (cur, found) = counters c.cpu in rw found (omega arith)
  access-written test (setting c event next) s room counters = omega arith
  access-written test (pushing event flags) s room counters =
      let records : List (LatencyEvent × ℕ) = k.latencies.records s.latency_ringbuf in
      let output =
        ap (λ rs. tally test (map (λ r. r.0) rs))
          (k.latencies.records-output s.latency_ringbuf event flags (room s.latency_ringbuf))
        ∙ ap (tally test) (map-append (λ r. r.0) records ((event, flags) ∷ []))
        ∙ tally-append test (map (λ r. r.0) records) (event ∷ []) in
      omega (arith, output)
  access-written test (enabling c) s room counters =
      elim (Bool-cases (flamegraph_enabled s.flamegraph_on)) [
        | inr off ↦ rw off (omega arith)
        | inl on ↦
            elim (Bool-cases
              (is_pos (stack_event k c).kstack_len || is_pos (stack_event k c).ustack_len)) [
                | inl frames ↦ rw (on, frames) (omega arith)
                | inr empty ↦ rw (on, empty) (omega arith)
              ]
      ]
  access-written test (sampling event) s room counters = omega arith
  access-written test (done ret) s room counters = omega arith
