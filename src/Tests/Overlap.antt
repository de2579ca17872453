-- ===== src/Tests/Overlap.antt =====
-- Calls of the probes (aya-test-ebpf/src/main.rs) that overlap, on a simple kernel: receives of the
-- processes 7 and 8, and sends of two threads of the process 7.
use aya_e_bpf.Prelude.{
  true, ◌+◌, ℕ, ◌≡◌, refl, List, [], ◌∷◌, none, some, arith, ◌==◌, Bool-cases, inl, inr,
  if◌then◌else◌,
}
use aya_e_bpf.Prelude.Assoc.{lookup, insert}
use aya_e_bpf.Prelude.Int.{pos}
use aya_e_bpf.Ebpf.Access.{
  taking, counting, done, access, tested_id, admitted, taken, removed, counted,
}
use aya_e_bpf.Ebpf.Kernel.{Call, State, ok}
use aya_e_bpf.Ebpf.Overlap.{Turn, begin, go, set_pc, begun_at, System, advance, turn, turns}
use aya_e_bpf.Ebpf.Overlap.Delivered.{AtRest, calls_deliver}
use aya_e_bpf.Ebpf.Overlap.Flight.{written, tally}
use aya_e_bpf.Ebpf.Overlap.Knows.{under_way, Serves}
use aya_e_bpf.Ebpf.Overlap.Reports.{SystemInv, turns-SystemInv}
use aya_e_bpf.Ebpf.Overlap.Serial.{Overlapped, stop, begins, goes, answers, overlap_serial}
use aya_e_bpf.Ebpf.Overlap.Twice.{sends_answer_twice}
use aya_e_bpf.Ebpf.Probe.{is_target_pid, latency_event, new_ctx, wrapping_sub}
use aya_e_bpf.Ebpf.Step.{on_tcp_recvmsg, on_tcp_sendmsg, Program, run}
use aya_e_bpf.Tests.Instances.{kernel}
use aya_e_bpf.Tests.Probes.{idle, idle-Inv, call_of, recv, send}

abbrev at_rest : System kernel
at_rest = record { maps = idle; pcs = λ i. done (ok 0) }

abbrev recv8 : Call
recv8 = call_of 8 8 2000 none

abbrev waiting : State kernel
waiting = record idle { req_ctx = (7, new_ctx kernel recv) ∷ [] }

turns-SystemInv_example : SystemInv kernel (
    turns kernel
      (begin 0 on_tcp_recvmsg recv ∷ begin 1 on_tcp_recvmsg recv8 ∷ go 0 ∷ go 1 ∷ go 0 ∷ [])
      at_rest)
turns-SystemInv_example =
    turns-SystemInv kernel
      (begin 0 on_tcp_recvmsg recv ∷ begin 1 on_tcp_recvmsg recv8 ∷ go 0 ∷ go 1 ∷ go 0 ∷ []) at_rest
      (record { maps_inv = idle-Inv; carries = λ i. tt })

-- The send of the process 7 and a receive of the process 8, which begins second and takes effect first.
abbrev resting : System kernel
resting = record { maps = waiting; pcs = λ i. done (ok 0) }

abbrev interleaved : List Turn
interleaved =
    begin 0 on_tcp_sendmsg send
    ∷ begin 1 on_tcp_recvmsg recv8
    ∷ go 0
    ∷ go 1
    ∷ go 0
    ∷ go 1
    ∷ go 0
    ∷ []

abbrev serial : List (Program × Call)
serial = (on_tcp_recvmsg, recv8) ∷ (on_tcp_sendmsg, send) ∷ []

free_of_8 :
    (j : ℕ) → ¬ Serves (under_way ((turn kernel resting (begin 0 on_tcp_sendmsg send)).pcs j)) 8
unfolding turn set_pc begun_at
free_of_8 j = elim (Bool-cases (0 == j)) [
  | inl here ↦ rw here (λ e. cc)
  | inr there ↦ rw there (λ e. e)
]

overlap :
    Overlapped kernel resting serial
      (latency_event send (new_ctx kernel recv) ∷ [])
      (turns kernel interleaved resting)
unfolding turns turn advance set_pc begun_at access tested_id admitted is_target_pid taken removed
    lookup insert wrapping_sub
overlap =
    begins 0 on_tcp_sendmsg send (λ j e. e)
      (begins 1 on_tcp_recvmsg recv8 free_of_8 (goes 0 (goes 1 (goes 0 (goes 1 (goes 0 stop))))))

overlap_serial_example :
    ((turns kernel interleaved resting).maps.req_ctx ≡ (run kernel serial waiting).req_ctx)
    × ((latency_event send (new_ctx kernel recv) ∷ []) ≡ answers kernel serial waiting)
overlap_serial_example =
    overlap_serial kernel resting (turns kernel interleaved resting) serial
      (latency_event send (new_ctx kernel recv) ∷ []) overlap
      (record { knows = λ i. tt; apart = λ i j tgid ne serves. absurd serves })

-- Both calls to their end.
abbrev to_the_end : List Turn
to_the_end =
    begin 0 on_tcp_sendmsg send
    ∷ begin 1 on_tcp_recvmsg recv8
    ∷ go 0
    ∷ go 1
    ∷ go 0
    ∷ go 1
    ∷ go 0
    ∷ go 0
    ∷ go 0
    ∷ go 0
    ∷ []

overlap_ended :
    Overlapped kernel resting serial
      (latency_event send (new_ctx kernel recv) ∷ [])
      (turns kernel to_the_end resting)
unfolding turns turn advance set_pc begun_at access tested_id admitted is_target_pid taken removed
    counted lookup insert wrapping_sub
overlap_ended =
    begins 0 on_tcp_sendmsg send (λ j e. e)
      (begins 1 on_tcp_recvmsg recv8 free_of_8
        (goes 0 (goes 1 (goes 0 (goes 1 (goes 0 (goes 0 (goes 0 (goes 0 stop)))))))))

ended-AtRest : AtRest kernel (turns kernel to_the_end resting)
unfolding turns turn advance set_pc begun_at access tested_id admitted is_target_pid taken removed
    counted lookup insert wrapping_sub
ended-AtRest i = elim (Bool-cases (0 == i)) [
  | inl first ↦ rw first (ok 0, refl)
  | inr not_first ↦ elim (Bool-cases (1 == i)) [
    | inl second ↦ rw (not_first, second) (ok 0, refl)
    | inr neither ↦ rw (not_first, neither) (ok 0, refl)
  ]
]

calls_deliver_example :
    written kernel (λ e. true) (turns kernel to_the_end resting).maps
    ≡ 0 + tally (λ e. true) (answers kernel serial waiting)
unfolding overlap_ended
calls_deliver_example =
    calls_deliver kernel (λ e. true) 2 resting (turns kernel to_the_end resting) serial
      (latency_event send (new_ctx kernel recv) ∷ []) overlap_ended
      (
        ground arith,
        (
          ground arith,
          (
            ground arith,
            (
              ground arith,
              (
                ground arith,
                (ground arith, (ground arith, (ground arith, (ground arith, (ground arith, tt))))),
              ),
            ),
          ),
        ),
      )
      (λ i. (ok 0, refl)) ended-AtRest (λ b. refl) (λ cpu. (0, refl))

abbrev send71 : Call
send71 = call_of 71 7 3500 (some (pos 7))

abbrev two_sends : System kernel
two_sends = record { maps = waiting; pcs = λ i. if i == 0 then taking send else taking send71 }

sends_answer_twice_example :
    ((turns kernel (go 0 ∷ go 1 ∷ go 0 ∷ go 1 ∷ []) two_sends).pcs 0
      ≡ counting send (latency_event send (new_ctx kernel recv)))
    × ((turns kernel (go 0 ∷ go 1 ∷ go 0 ∷ go 1 ∷ []) two_sends).pcs 1
        ≡ counting send71 (latency_event send71 (new_ctx kernel recv)))
    × (answers kernel ((on_tcp_sendmsg, send) ∷ (on_tcp_sendmsg, send71) ∷ []) waiting
        ≡ latency_event send (new_ctx kernel recv) ∷ [])
unfolding is_target_pid lookup wrapping_sub
sends_answer_twice_example =
    sends_answer_twice kernel two_sends 0 1 send send71 (new_ctx kernel recv) (λ e. cc) refl refl
      refl refl refl refl (ground arith) (ground arith)
