-- ===== src/Ebpf/Overlap/Sound.antt =====
-- Calls that overlap, one at a time for each process (aya-test-ebpf/src/main.rs).
use mathlib.Core.Path.{subst}
use aya_e_bpf.Prelude.{
  ℕ, ◌≡◌, ◌≢◌, refl, sym, ◌∙◌, none, arith, ◌==◌, ==_iff, Bool-cases, Option-cases, ◌⊎◌, inl, inr,
}
use aya_e_bpf.Ebpf.Access.{
  Pc, starting, inserting, looking, storing, taking, removing, counting, setting, pushing, enabling,
  sampling, done, access, admitted, tested_id, taken, removed, counted, sampled, looked,
}
use aya_e_bpf.Ebpf.Kernel.{Kernel, Call, State}
use aya_e_bpf.Ebpf.Overlap.{begin, set_pc, begun_at, System, advance, turn}
use aya_e_bpf.Ebpf.Probe.{is_target_pid}
use aya_e_bpf.Ebpf.Step.{
  Program, on_tcp_recvmsg, on_tcp_recvmsg_ret, on_tcp_sendmsg, on_tcp_connect, on_cpu_sample,
}
use aya_e_bpf.Ebpf.Overlap.Knows.{under_way, Serves, Knows, kept-Knows, own-Knows}

module _ (k : Kernel) where
  -- No two slots serve one process.
  pub record Sound (y : System k) : Type 0 where
    pub knows : (i : ℕ) → Knows k y.maps (y.pcs i)
    pub apart :
        (i j tgid : ℕ)
        → i ≢ j
        → Serves (under_way (y.pcs i)) tgid
        → ¬ Serves (under_way (y.pcs j)) tgid

  -- An access is the last of its call to a context, or the call is still under way.
  pub access-under_way :
      (pc : Pc) (s : State k)
      → (under_way (access k pc s).1 ≡ none) ⊎ (under_way (access k pc s).1 ≡ under_way pc)
  unfolding access admitted tested_id taken removed counted sampled looked
  access-under_way (starting on_tcp_recvmsg c) s =
      elim (Bool-cases (is_target_pid s.target_pid c.pid)) [
        | inl target ↦ rw target (inr refl)
        | inr refused ↦ rw refused (inl refl)
      ]
  access-under_way (starting on_tcp_recvmsg_ret c) s =
      elim (Bool-cases (is_target_pid s.target_pid c.pid)) [
        | inl target ↦ rw target (inr refl)
        | inr refused ↦ rw refused (inl refl)
      ]
  access-under_way (starting on_tcp_sendmsg c) s =
      elim (Bool-cases (is_target_pid s.target_pid c.pid)) [
        | inl target ↦ rw target (inr refl)
        | inr refused ↦ rw refused (inl refl)
      ]
  access-under_way (starting on_tcp_connect c) s = inl (ground arith)
  access-under_way (starting on_cpu_sample c) s = inl (ground arith)
  access-under_way (inserting c) s = inl refl
  access-under_way (looking c) s = elim (Option-cases (k.requests.get s.req_ctx c.tgid)) [
    | inl missing ↦ rw missing (inl refl)
    | inr (ctx, found) ↦ elim (Bool-cases (ctx.iov_base == 0)) [
      | inl no_buffer ↦ rw (found, no_buffer) (inl refl)
      | inr buffer ↦ rw (found, buffer) (inr refl)
    ]
  ]
  access-under_way (storing c bytes) s = inl refl
  access-under_way (taking c) s = elim (Option-cases (k.requests.get s.req_ctx c.tgid)) [
    | inl missing ↦ rw missing (inl refl)
    | inr (ctx, found) ↦ rw found (inr refl)
  ]
  access-under_way (removing c ctx) s = inl (ground arith)
  access-under_way (counting c event) s = elim (Option-cases (s.batch_cnt c.cpu)) [
    | inl missing ↦ rw missing (inl refl)
    | inr (cur, found) ↦ rw found (inl refl)
  ]
  access-under_way (setting c event next) s = inl refl
  access-under_way (pushing event flags) s = inl refl
  access-under_way (enabling c) s = inl (ground arith)
  access-under_way (sampling event) s = inl refl
  access-under_way (done ret) s = inl refl

  -- A call serves one process throughout.
  access-Serves :
      (pc : Pc) (s : State k) (tgid : ℕ)
      → Serves (under_way (access k pc s).1) tgid
      → Serves (under_way pc) tgid
  access-Serves pc s tgid h = elim (access-under_way pc s) [
    | inl ended ↦ absurd (subst (λ call. Serves call tgid) ended h)
    | inr same ↦ subst (λ call. Serves call tgid) same h
  ]

  -- A slot's change that brings in no process but its own, or one that no other slot serves.
  pub set_pc-apart :
      (pcs : ℕ → Pc) (i : ℕ) (pc : Pc)
      → ((j l tgid : ℕ)
          → j ≢ l
          → Serves (under_way (pcs j)) tgid
          → ¬ Serves (under_way (pcs l)) tgid)
      → ((j tgid : ℕ) → j ≢ i → Serves (under_way pc) tgid → ¬ Serves (under_way (pcs j)) tgid)
      → (j l tgid : ℕ) → j ≢ l
      → Serves (under_way (set_pc pcs i pc j)) tgid
      → ¬ Serves (under_way (set_pc pcs i pc l)) tgid
  unfolding set_pc
  set_pc-apart pcs i pc apart alone j l tgid ne = elim (Bool-cases (i == j)) [
    | inl here ↦ elim (Bool-cases (i == l)) [
      | inl here' ↦ absurd (ne (sym ((==_iff i j).0 here) ∙ (==_iff i l).0 here'))
      | inr there' ↦ rw (here, there') (alone l tgid (λ e. absurd (ground (arith, there', e))))
    ]
    | inr there ↦ elim (Bool-cases (i == l)) [
      | inl here' ↦
          rw (there, here')
            (λ serves served. alone j tgid (λ e. absurd (ground (arith, there, e))) served serves)
      | inr there' ↦ rw (there, there') (apart j l tgid ne)
    ]
  ]

  -- Every access keeps this.
  pub advance-Sound : (y : System k) (i : ℕ) → Sound y → Sound (advance k y i)
  unfolding advance set_pc
  advance-Sound y i sound = record {
    knows = λ j. moved j;
    apart = set_pc-apart y.pcs i (access k (y.pcs i) y.maps).1 sound.apart (λ j tgid ne serves.
        sound.apart i j tgid (λ e. ne (sym e)) (access-Serves (y.pcs i) y.maps tgid serves));
  }
    where
      moved :
          (j : ℕ)
          → Knows k (access k (y.pcs i) y.maps).0 (set_pc y.pcs i (access k (y.pcs i) y.maps).1 j)
      moved j = elim (Bool-cases (i == j)) [
        | inl here ↦ rw here (own-Knows k (y.pcs i) y.maps (sound.knows i))
        | inr there ↦ rw there (
            kept-Knows k (y.pcs i) (y.pcs j) y.maps
              (λ tgid. sound.apart i j tgid (λ e. absurd (ground (arith, there, e))))
              (sound.knows j))
      ]

  begun_at-Knows :
      (p : Program) (c : Call) (s : State k) (pc : Pc) → Knows k s pc → Knows k s (begun_at p c pc)
  unfolding begun_at
  begun_at-Knows p c s (done ret) h = tt
  begun_at-Knows p c s pc h = h

  begun_at-Serves :
      (p : Program) (c : Call) (pc : Pc) (tgid : ℕ)
      → Serves (under_way (begun_at p c pc)) tgid
      → (c.tgid ≡ tgid) ⊎ Serves (under_way pc) tgid
  unfolding begun_at
  begun_at-Serves p c (done ret) tgid h = inl h
  begun_at-Serves p c pc tgid h = inr h

  -- So does a call that begins, if no other one serves its process.
  pub begin-Sound :
      (y : System k) (i : ℕ) (p : Program) (c : Call)
      → Sound y
      → ((j : ℕ) → ¬ Serves (under_way (y.pcs j)) c.tgid)
      → Sound (turn k y (begin i p c))
  unfolding turn set_pc
  begin-Sound y i p c sound free = record {
    knows = λ j. known j;
    apart = set_pc-apart y.pcs i (begun_at p c (y.pcs i)) sound.apart (λ j tgid ne serves.
        elim (begun_at-Serves p c (y.pcs i) tgid serves) [
          | inl own ↦ subst (λ tgid. ¬ Serves (under_way (y.pcs j)) tgid) own (free j)
          | inr before ↦ sound.apart i j tgid (λ e. ne (sym e)) before
        ]);
  }
    where
      known : (j : ℕ) → Knows k y.maps (set_pc y.pcs i (begun_at p c (y.pcs i)) j)
      known j = elim (Bool-cases (i == j)) [
        | inl here ↦ rw here (begun_at-Knows p c y.maps (y.pcs i) (sound.knows i))
        | inr there ↦ rw there (sound.knows j)
      ]
