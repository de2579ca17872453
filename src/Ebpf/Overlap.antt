-- ===== src/Ebpf/Overlap.antt =====
-- Calls of the probes (aya-test-ebpf/src/main.rs) that overlap: each slot has at most one call under way,
-- and the calls make their accesses in any order. A CPU or a task is a slot.
pub mod Reports
pub mod Knows
pub mod Sound
pub mod Effect
pub mod Answers
pub mod Serial
pub mod Flight
pub mod Delivered
pub mod Twice
use aya_e_bpf.Prelude.{ℕ, List, [], ◌∷◌, ◌==◌, if◌then◌else◌}
use aya_e_bpf.Ebpf.Access.{Pc, starting, done, access}
use aya_e_bpf.Ebpf.Kernel.{Kernel, Call, State}
use aya_e_bpf.Ebpf.Step.{Program}

-- A slot whose call has returned takes the next one; the others go on with theirs.
pub data Turn : Type 0 where
  begin : ℕ → Program → Call → Turn
  go : ℕ → Turn

unfoldable pub set_pc : (ℕ → Pc) → ℕ → Pc → ℕ → Pc
set_pc pcs i pc j = if i == j then pc else pcs j

unfoldable pub begun_at : Program → Call → Pc → Pc
begun_at p c (done ret) = starting p c
begun_at p c pc = pc

-- The maps, and where the call of each slot stands.
pub record System (k : Kernel) : Type 0 where
  pub maps : State k
  pub pcs : ℕ → Pc

module _ (k : Kernel) where
  unfoldable pub advance : System k → ℕ → System k
  advance y i = record {
    maps = (access k (y.pcs i) y.maps).0;
    pcs = set_pc y.pcs i (access k (y.pcs i) y.maps).1;
  }

  unfoldable pub turn : System k → Turn → System k
  turn y (begin i p c) = record y { pcs = set_pc y.pcs i (begun_at p c (y.pcs i)) }
  turn y (go i) = advance y i

  unfoldable pub turns : List Turn → System k → System k
  turns [] y = y
  turns (t ∷ ts) y = turns ts (turn y t)
