-- ===== src/Ebpf/Overlap/Reports.antt =====
-- The invariant of the maps, with calls that overlap (aya-test-ebpf/src/main.rs).
use mathlib.Core.Path.{subst}
use aya_e_bpf.Prelude.{
  ℕ, ◌≡◌, refl, sym, true, List, [], ◌∷◌, length, Option, arith, ltb, ◌==◌, Bool-cases,
  Option-cases, inl, inr,
}
use aya_e_bpf.Ebpf.Access.{
  Pc, starting, inserting, looking, storing, taking, removing, counting, setting, pushing, enabling,
  sampling, done, access, admitted, tested_id, taken, removed, counted, sampled, looked,
  store_bytes,
}
use aya_e_bpf.Ebpf.Kernel.{Kernel, Call, State}
use aya_e_bpf.Ebpf.Overlap.{Turn, begin, go, set_pc, begun_at, System, advance, turn, turns}
use aya_e_bpf.Ebpf.Probe.{is_target_pid, new_ctx, zeros, max_latency, wrapping_sub}
use aya_e_bpf.Ebpf.Records.{Inv, changed_full, insert_full, removed_full}
use aya_e_bpf.Ebpf.Report.{IsReport, latency_event-IsReport}
use aya_e_bpf.Ebpf.Step.{
  Program, on_tcp_recvmsg, on_tcp_recvmsg_ret, on_tcp_sendmsg, on_tcp_connect, on_cpu_sample,
}
use aya_e_bpf.Ebpf.Written.{output-All}

-- What a call holds is fit for the map, or for the buffer.
abbrev pub Carries : Option ℕ → Pc → Type 0
Carries target (storing c bytes) = length bytes ≡ 32
Carries target (taking c) = is_target_pid target c.pid ≡ true
Carries target (removing c ctx) = (is_target_pid target c.pid ≡ true) × (length ctx.req_data ≡ 32)
Carries target (counting c event) = IsReport target event
Carries target (setting c event next) = IsReport target event
Carries target (pushing event flags) = IsReport target event
Carries target pc = Unit

module _ (k : Kernel) where
  -- The invariant of the maps, and of every call that is under way.
  pub record SystemInv (y : System k) : Type 0 where
    pub maps_inv : Inv k y.maps
    pub carries : (i : ℕ) → Carries y.maps.target_pid (y.pcs i)

  pub access-target_pid : (pc : Pc) (s : State k) → (access k pc s).0.target_pid ≡ s.target_pid
  unfolding access store_bytes
  access-target_pid (storing c bytes) s = ground arith
  access-target_pid pc s = ground arith

  access-Inv : (pc : Pc) (s : State k) → Carries s.target_pid pc → Inv k s → Inv k (access k pc s).0
  unfolding access store_bytes
  access-Inv (starting p c) s h inv = inv
  access-Inv (inserting c) s h inv = record {
    full_bytes = insert_full k s.req_ctx c.tgid (new_ctx k c) refl inv.full_bytes;
    reports = inv.reports;
  }
  access-Inv (looking c) s h inv = inv
  access-Inv (storing c bytes) s h inv = elim (Option-cases (k.requests.get s.req_ctx c.tgid)) [
    | inl missing ↦ rw (missing, store_bytes) inv
    | inr (old, found) ↦
        rw (found, store_bytes)
          (record {
            full_bytes =
                changed_full k s.req_ctx _ c.tgid _
                  (λ j. k.requests.get-write s.req_ctx c.tgid j _ old found) h inv.full_bytes;
            reports = inv.reports;
          })
  ]
  access-Inv (taking c) s h inv = inv
  access-Inv (removing c ctx) s h inv = record {
    full_bytes = removed_full k s.req_ctx c.tgid inv.full_bytes;
    reports = inv.reports;
  }
  access-Inv (counting c event) s h inv = inv
  access-Inv (setting c event next) s h inv = record {
    full_bytes = inv.full_bytes;
    reports = inv.reports;
  }
  access-Inv (pushing event flags) s h inv = record {
    full_bytes = inv.full_bytes;
    reports = output-All k (IsReport s.target_pid) s.latency_ringbuf event flags inv.reports h;
  }
  access-Inv (enabling c) s h inv = inv
  access-Inv (sampling event) s h inv = record {
    full_bytes = inv.full_bytes;
    reports = inv.reports;
  }
  access-Inv (done ret) s h inv = inv

  access-Carries :
      (pc : Pc) (s : State k)
      → Carries s.target_pid pc
      → Inv k s
      → Carries s.target_pid (access k pc s).1
  unfolding access admitted tested_id taken removed counted sampled looked
  access-Carries (starting on_tcp_recvmsg c) s h inv = ground arith
  access-Carries (starting on_tcp_recvmsg_ret c) s h inv = ground arith
  access-Carries (starting on_tcp_sendmsg c) s h inv =
      elim (Bool-cases (is_target_pid s.target_pid c.pid)) [
        | inl target ↦ rw target target
        | inr refused ↦ rw refused tt
      ]
  access-Carries (starting on_tcp_connect c) s h inv = ground arith
  access-Carries (starting on_cpu_sample c) s h inv = ground arith
  access-Carries (inserting c) s h inv = tt
  access-Carries (looking c) s h inv = elim (Option-cases (k.requests.get s.req_ctx c.tgid)) [
    | inl missing ↦ rw missing tt
    | inr (ctx, found) ↦ rw found (elim (Bool-cases (ctx.iov_base == 0)) [
      | inl no_buffer ↦ rw no_buffer tt
      | inr buffer ↦ rw buffer (k.read_user_length c ctx.iov_base zeros)
    ])
  ]
  access-Carries (storing c bytes) s h inv = tt
  access-Carries (taking c) s h inv = elim (Option-cases (k.requests.get s.req_ctx c.tgid)) [
    | inl missing ↦ rw missing tt
    | inr (ctx, found) ↦ rw found (h, inv.full_bytes c.tgid ctx found)
  ]
  access-Carries (removing c ctx) s (accepted, full) inv =
      elim (Bool-cases (ltb max_latency (wrapping_sub c.now_ns ctx.start_ns))) [
        | inl late ↦ rw late tt
        | inr soon ↦
            rw soon (latency_event-IsReport c ctx s.target_pid (ground arith) full accepted)
      ]
  access-Carries (counting c event) s h inv = elim (Option-cases (s.batch_cnt c.cpu)) [
    | inl missing ↦ rw missing tt
    | inr (cur, found) ↦ rw found h
  ]
  access-Carries (setting c event next) s h inv = h
  access-Carries (pushing event flags) s h inv = tt
  access-Carries (enabling c) s h inv = ground arith
  access-Carries (sampling event) s h inv = tt
  access-Carries (done ret) s h inv = tt

  set_pc-Carries :
      (target : Option ℕ) (pcs : ℕ → Pc) (i : ℕ) (pc : Pc)
      → ((j : ℕ) → Carries target (pcs j))
      → Carries target pc
      → (j : ℕ) → Carries target (set_pc pcs i pc j)
  unfolding set_pc
  set_pc-Carries target pcs i pc old fresh j = elim (Bool-cases (i == j)) [
    | inl here ↦ rw here fresh
    | inr there ↦ rw there (old j)
  ]

  begun_at-Carries :
      (target : Option ℕ) (p : Program) (c : Call) (pc : Pc)
      → Carries target pc
      → Carries target (begun_at p c pc)
  unfolding begun_at
  begun_at-Carries target p c (done ret) h = tt
  begun_at-Carries target p c pc h = h

  turn-SystemInv : (y : System k) (t : Turn) → SystemInv y → SystemInv (turn k y t)
  unfolding turn advance
  turn-SystemInv y (begin i p c) inv = record {
    maps_inv = inv.maps_inv;
    carries =
        set_pc-Carries y.maps.target_pid y.pcs i (begun_at p c (y.pcs i)) inv.carries
          (begun_at-Carries y.maps.target_pid p c (y.pcs i) (inv.carries i));
  }
  turn-SystemInv y (go i) inv = record {
    maps_inv = access-Inv (y.pcs i) y.maps (inv.carries i) inv.maps_inv;
    carries =
        subst (λ target. (j : ℕ) → Carries target (set_pc y.pcs i (access k (y.pcs i) y.maps).1 j))
          (sym (access-target_pid (y.pcs i) y.maps))
          (set_pc-Carries y.maps.target_pid y.pcs i (access k (y.pcs i) y.maps).1 inv.carries
            (access-Carries (y.pcs i) y.maps (inv.carries i) inv.maps_inv));
  }

  -- However the accesses of overlapping calls are interleaved, also of threads that share a context, every
  -- context keeps its 32 request bytes, and every record in the buffer is a report within the limits, if
  -- this and what the calls under way hold was so before.
  pub turns-SystemInv : (ts : List Turn) (y : System k) → SystemInv y → SystemInv (turns k ts y)
  unfolding turns
  turns-SystemInv [] y inv = inv
  turns-SystemInv (t ∷ ts) y inv = turns-SystemInv ts (turn k y t) (turn-SystemInv y t inv)
