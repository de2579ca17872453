-- ===== src/Ebpf/Overlap/Answers.antt =====
-- The events that the accesses of a call make, and those that the whole call answers with
-- (aya-test-ebpf/src/main.rs).
use aya_e_bpf.Prelude.{
  ℕ, ◌≡◌, refl, List, [], ◌∷◌, ◌++◌, Option, none, some, ◌||◌, ltb, ◌==◌, Bool-cases, Option-cases,
  inl, inr, if◌then◌else◌,
}
use aya_e_bpf.Common.Event.{LatencyEvent}
use aya_e_bpf.Ebpf.Access.{
  Pc, starting, inserting, looking, storing, taking, removing, counting, setting, pushing, enabling,
  sampling, done, access, admitted, tested_id, taken, removed, counted, sampled, looked,
  store_bytes,
}
use aya_e_bpf.Ebpf.Kernel.{Kernel, Call, State}
use aya_e_bpf.Ebpf.Overlap.Knows.{under_way, Knows}
use aya_e_bpf.Ebpf.Sample.{flamegraph_enabled, stack_event}
use aya_e_bpf.Prelude.Int.{is_pos}
use aya_e_bpf.Ebpf.Overlap.Effect.{effect, contexts}
use aya_e_bpf.Ebpf.Probe.{is_target_pid, max_latency, wrapping_sub, latency_event}
use aya_e_bpf.Ebpf.Step.{
  Program, on_tcp_recvmsg, on_tcp_recvmsg_ret, on_tcp_sendmsg, on_tcp_connect, on_cpu_sample,
}

-- The event that a call has just made.
abbrev pub made : Pc → List LatencyEvent
made (counting c event) = event ∷ []
made pc = []

module _ (k : Kernel) where
  -- The event of the request that a call answers.
  abbrev pub answer : Program → Call → Option ℕ → k.requests.Map → List LatencyEvent
  answer on_tcp_sendmsg c target m =
      if is_target_pid target c.pid
      then (elim (k.requests.get m c.tgid) [
        | none ↦ []
        | some ctx ↦
            if ltb max_latency (wrapping_sub c.now_ns ctx.start_ns)
            then []
            else latency_event c ctx ∷ []
      ])
      else []
  answer p c target m = []

  abbrev pub answered : List (Program × Call) → Option ℕ → k.requests.Map → List LatencyEvent
  answered [] target m = []
  answered ((p, c) ∷ calls) target m =
      answer p c target m ++ answered calls target (contexts k p c target m)

  -- An access makes the events that the calls that it completes answer with.
  pub access-answers :
      (pc : Pc) (s : State k)
      → Knows k s pc
      → made (access k pc s).1
        ≡ answered (effect (under_way pc) (under_way (access k pc s).1)) s.target_pid s.req_ctx
  unfolding access admitted tested_id taken removed counted sampled looked store_bytes
  access-answers (starting on_tcp_recvmsg c) s h =
      elim (Bool-cases (is_target_pid s.target_pid c.pid)) [
        | inl target ↦ rw target refl
        | inr refused ↦ rw refused refl
      ]
  access-answers (starting on_tcp_recvmsg_ret c) s h =
      elim (Bool-cases (is_target_pid s.target_pid c.pid)) [
        | inl target ↦ rw target refl
        | inr refused ↦ rw refused refl
      ]
  access-answers (starting on_tcp_sendmsg c) s h =
      elim (Bool-cases (is_target_pid s.target_pid c.pid)) [
        | inl target ↦ rw target refl
        | inr refused ↦ rw refused (rw refused refl)
      ]
  access-answers (starting on_tcp_connect c) s h =
      elim (Bool-cases (is_target_pid s.target_pid c.pid)) [
        | inl target ↦ rw target refl
        | inr refused ↦ rw refused refl
      ]
  access-answers (starting on_cpu_sample c) s h =
      elim (Bool-cases (is_target_pid s.target_pid c.tgid)) [
        | inl target ↦ rw target refl
        | inr refused ↦ rw refused refl
      ]
  access-answers (inserting c) s h = refl
  access-answers (looking c) s h = elim (Option-cases (k.requests.get s.req_ctx c.tgid)) [
    | inl missing ↦ rw missing refl
    | inr (ctx, found) ↦ elim (Bool-cases (ctx.iov_base == 0)) [
      | inl no_buffer ↦ rw (found, no_buffer) refl
      | inr buffer ↦ rw (found, buffer) refl
    ]
  ]
  access-answers (storing c bytes) s h = refl
  access-answers (taking c) s h = elim (Option-cases (k.requests.get s.req_ctx c.tgid)) [
    | inl missing ↦ rw missing (rw (h, missing) refl)
    | inr (ctx, found) ↦ rw found refl
  ]
  access-answers (removing c ctx) s (accepted, found) =
      elim (Bool-cases (ltb max_latency (wrapping_sub c.now_ns ctx.start_ns))) [
        | inl late ↦ rw late (rw (accepted, found, late) refl)
        | inr soon ↦ rw soon (rw (accepted, found, soon) refl)
      ]
  access-answers (counting c event) s h = elim (Option-cases (s.batch_cnt c.cpu)) [
    | inl missing ↦ rw missing refl
    | inr (cur, found) ↦ rw found refl
  ]
  access-answers (setting c event next) s h = refl
  access-answers (pushing event flags) s h = refl
  access-answers (enabling c) s h = elim (Bool-cases (flamegraph_enabled s.flamegraph_on)) [
    | inr off ↦ rw off refl
    | inl on ↦
        elim (Bool-cases
          (is_pos (stack_event k c).kstack_len || is_pos (stack_event k c).ustack_len)) [
            | inl frames ↦ rw (on, frames) refl
            | inr empty ↦ rw (on, empty) refl
          ]
  ]
  access-answers (sampling event) s h = refl
  access-answers (done ret) s h = refl
