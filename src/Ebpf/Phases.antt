-- ===== src/Ebpf/Phases.antt =====
-- The context of each process goes through the phases of a request, over any calls
-- (aya-test-ebpf/src/main.rs).
use mathlib.Core.Path.{subst}
use aya_e_bpf.Prelude.{
  ℕ, ◌≡◌, ◌≢◌, ap, Bool, List, [], ◌∷◌, Option, arith, ◌==◌, Bool-cases, inl, inr, ==_iff,
}
use aya_e_bpf.Ebpf.Isolation.{enter_other, enter_switches}
use aya_e_bpf.Ebpf.Kernel.{Kernel, Call, State}
use aya_e_bpf.Ebpf.Step.{Program, enter, run}
use aya_e_bpf.Ebpf.Phase.{Phase, phase_of, filtered, phase_at, phase-filtered}

module _ (k : Kernel) where
  -- The machine of one process over the calls of all: it moves on its own calls, with room or without, and
  -- stays on those of the others.
  pub data Moves (target : Option ℕ) (tgid : ℕ)
      : Phase → List (Program × Call) → Phase → Type 0 where
    stop : {ph : Phase} → Moves target tgid ph [] ph
    own :
        {ph ph' : Phase} {calls : List (Program × Call)} (p : Program) (c : Call) (room : Bool)
        → c.tgid ≡ tgid
        → Moves target tgid (filtered k target p c room ph) calls ph'
        → Moves target tgid ph ((p, c) ∷ calls) ph'
    other :
        {ph ph' : Phase} {calls : List (Program × Call)} (p : Program) (c : Call)
        → c.tgid ≢ tgid
        → Moves target tgid ph calls ph'
        → Moves target tgid ph ((p, c) ∷ calls) ph'

  first-Moves :
      (p : Program) (c : Call) (calls : List (Program × Call)) (s : State k) (tgid : ℕ)
      (last : Phase)
      → Moves s.target_pid tgid (phase_at k (enter k p c s).0 tgid) calls last
      → Moves s.target_pid tgid (phase_at k s tgid) ((p, c) ∷ calls) last
  first-Moves p c calls s tgid last rest = elim (Bool-cases (c.tgid == tgid)) [
    | inl here ↦
        let mine : c.tgid ≡ tgid = (==_iff c.tgid tgid).0 here in
        let moved =
          subst
            (λ i.
              phase_at k (enter k p c s).0 i
              ≡ filtered k s.target_pid p c (k.requests.accepts s.req_ctx c.tgid) (phase_at k s i))
            mine (phase-filtered k p c s) in
        own p c (k.requests.accepts s.req_ctx c.tgid) mine
          (subst (λ ph. Moves s.target_pid tgid ph calls last) moved rest)
    | inr there ↦
        let apart : c.tgid ≢ tgid = λ e. absurd (ground (arith, there, e)) in
        other p c apart (
          subst (λ ph. Moves s.target_pid tgid ph calls last)
            (ap phase_of (enter_other k p c s tgid apart)) rest)
  ]

  -- The map of contexts implements, for each process, the machine with three phases: whatever calls the
  -- kernel makes, of all processes and in any order, the context of a process goes from the phase that it
  -- had to one that the machine reaches over the same calls.
  pub run-Moves :
      (calls : List (Program × Call)) (s : State k) (tgid : ℕ)
      → Moves s.target_pid tgid
          (phase_of (k.requests.get s.req_ctx tgid))
          calls
          (phase_of (k.requests.get (run k calls s).req_ctx tgid))
  unfolding run
  run-Moves [] s tgid = stop
  run-Moves ((p, c) ∷ calls) s tgid =
      let rest = run-Moves calls (enter k p c s).0 tgid in
      first-Moves p c calls s tgid
        (phase_of (k.requests.get (run k calls (enter k p c s).0).req_ctx tgid))
        (subst
          (λ target.
            Moves target tgid (phase_at k (enter k p c s).0 tgid) calls
              (phase_of (k.requests.get (run k calls (enter k p c s).0).req_ctx tgid)))
          (enter_switches k p c s).0 rest)
