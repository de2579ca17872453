-- ===== src/Ebpf/Overlap/Delivered.antt =====
-- Every answer is written, though calls overlap (aya-test-ebpf/src/main.rs).
use mathlib.Core.Path.{subst}
use aya_e_bpf.Prelude.{ℕ, zero, suc, ◌+◌, ◌<◌, ◌≡◌, refl, sym, ap, Bool, true, List, arith}
use aya_e_bpf.Common.Event.{LatencyEvent}
use aya_e_bpf.Ebpf.Access.{Pc, done}
use aya_e_bpf.Ebpf.Kernel.{Kernel, Call, Ret}
use aya_e_bpf.Ebpf.Overlap.{begin, begun_at, System, advance, turn}
use aya_e_bpf.Ebpf.Overlap.Answers.{made}
use aya_e_bpf.Ebpf.Overlap.Flight.{
  tally, tally-append, carried, in_flight, set_pc-within, written, AllCounters, access-AllCounters,
  access-written,
}
use aya_e_bpf.Ebpf.Overlap.Knows.{under_way, Knows, Serves}
use aya_e_bpf.Ebpf.Overlap.Serial.{answers, next_of, Overlapped, stop, begins, goes, overlap_serial}
use aya_e_bpf.Ebpf.Overlap.Sound.{Sound}
use aya_e_bpf.Ebpf.Step.{Program}

begun_at-carried :
    (test : LatencyEvent → Bool) (p : Program) (c : Call) (pc : Pc)
    → carried test (begun_at p c pc) ≡ carried test pc
unfolding begun_at
begun_at-carried test p c (done ret) = refl
begun_at-carried test p c pc = refl

module _ (k : Kernel) where
  -- Only the first `n` slots have turns.
  abbrev pub Below :
      ℕ
      → {y z : System k} {calls : List (Program × Call)} {events : List LatencyEvent}
      → Overlapped k y calls events z
      → Type 0
  Below n stop = Unit
  Below n (begins i p c free rest) = (i < n) × Below n rest
  Below n (goes i rest) = (i < n) × Below n rest

  -- No call is under way.
  abbrev pub AtRest : System k → Type 0
  AtRest y = (i : ℕ) → (ret : Ret) × (y.pcs i ≡ done ret)

  conserved :
      (test : LatencyEvent → Bool) (n : ℕ) (y z : System k) (calls : List (Program × Call))
      (events : List LatencyEvent) (path : Overlapped k y calls events z)
      → Below n path
      → ((b : k.latencies.Buffer) → k.latencies.fits b ≡ true)
      → AllCounters k y.maps
      → written k test y.maps + in_flight test n y.pcs + tally test events
        ≡ written k test z.maps + in_flight test n z.pcs
  unfolding turn advance
  conserved test n y _ _ _ stop below room counters = omega arith
  conserved test n y z calls events (begins i p c free rest) (within, below) room counters =
      let same = begun_at-carried test p c (y.pcs i) in
      let held = set_pc-within test n i y.pcs (begun_at p c (y.pcs i)) within in
      let later =
        conserved test n (turn k y (begin i p c)) z calls events rest below room counters in
      omega (arith, same, held, later)
  conserved test n y z _ _ (goes {calls = calls} {events = events} i rest) (within, below) room
        counters =
      let now = access-written k test (y.pcs i) y.maps room counters in
      let held = set_pc-within test n i y.pcs (next_of k y i) within in
      let split = tally-append test (made (next_of k y i)) events in
      let later =
        conserved test n (advance k y i) z calls events rest below room
          (access-AllCounters k (y.pcs i) y.maps counters) in
      omega (arith, now, held, split, later)

  nothing_held :
      (test : LatencyEvent → Bool) (n : ℕ) (y : System k) → AtRest y → in_flight test n y.pcs ≡ 0
  nothing_held test zero y rest = refl
  nothing_held test (suc n) y rest =
      let (ret, at) = rest n in
      let none_here : carried test (y.pcs n) ≡ 0 = ap (carried test) at in
      omega (arith, none_here, nothing_held test n y rest)

  AtRest-Sound : (y : System k) → AtRest y → Sound k y
  AtRest-Sound y rest = record {
    knows = λ i. subst (Knows k y.maps) (sym (rest i).1) tt;
    apart =
        λ i j tgid ne serves. absurd (subst (λ pc. Serves (under_way pc) tgid) (rest i).1 serves);
  }

  -- When calls overlap, of which no two are of one process, and all have returned, then the records
  -- that were added to the buffer are the events with which the same calls answer one after the other:
  -- of those with any property there are as many. The buffer must have room, and each CPU its counter.
  pub calls_deliver :
      (test : LatencyEvent → Bool) (n : ℕ) (y z : System k) (calls : List (Program × Call))
      (events : List LatencyEvent) (path : Overlapped k y calls events z)
      → Below n path
      → AtRest y
      → AtRest z
      → ((b : k.latencies.Buffer) → k.latencies.fits b ≡ true)
      → AllCounters k y.maps
      → written k test z.maps ≡ written k test y.maps + tally test (answers k calls y.maps)
  calls_deliver test n y z calls events path below rest rest' room counters =
      let (_, serial) = overlap_serial k y z calls events path (AtRest-Sound y rest) in
      let same : tally test events ≡ tally test (answers k calls y.maps) = ap (tally test) serial in
      omega (
        arith,
        conserved test n y z calls events path below room counters,
        nothing_held test n y rest,
        nothing_held test n z rest',
        same,
      )
