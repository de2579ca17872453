-- ===== src/Ebpf/Samples.antt =====
-- The stack sampler (aya-test-ebpf/src/main.rs).
use aya_e_bpf.Prelude.{
  ℕ, ◌/◌, ◌*◌, ◌≤◌, ◌≡◌, refl, ◌⊎◌, inl, inr, Bool, true, false, ◌&&◌, ◌||◌, List, [], ◌∷◌, ◌++◌,
  arith, if◌then◌else◌, replicate,
}
use aya_e_bpf.Prelude.Int.{ℤ, pos, negsuc, is_pos}
use aya_e_bpf.Common.Event.{max_stack_frames}
use aya_e_bpf.Ebpf.Kernel.{Kernel, Call, State}
use aya_e_bpf.Ebpf.Probe.{is_target_pid}
use aya_e_bpf.Ebpf.Sample.{flamegraph_enabled, frames_of, stack_event, push_sample, try_cpu_sample}
use aya_e_bpf.Ebpf.Step.{on_cpu_sample, handler, enter}

-- -1 for a failed walk, or a number of frames that fits the arrays.
abbrev pub IsDepth : ℤ → Type 0
IsDepth z = (z ≡ negsuc 0) ⊎ ((n : ℕ) × (z ≡ pos n) × (n ≤ max_stack_frames))

-- The stack helper gives an error, or at most the size of the array, 160 bytes.
abbrev pub IsSize : ℤ → Type 0
IsSize (pos n) = n ≤ max_stack_frames * 8
IsSize (negsuc n) = Unit

pub frames_of-IsDepth : (ret : ℤ) → IsSize ret → IsDepth (frames_of ret)
unfolding frames_of
frames_of-IsDepth (pos n) h = inr (n / 8, ground arith, omega arith)
frames_of-IsDepth (negsuc n) h = inl refl

module _ (k : Kernel) where
  -- If the stack helper keeps to the arrays, so do both lengths of a sample.
  pub stack_event-IsDepth :
      (c : Call)
      → ((c : Call) (user : Bool) (old : List ℕ) → IsSize (k.get_stack c user old).1)
      → IsDepth (stack_event k c).kstack_len × IsDepth (stack_event k c).ustack_len
  unfolding stack_event
  stack_event-IsDepth c sizes = (
    frames_of-IsDepth _ (sizes c false (replicate max_stack_frames 0)),
    frames_of-IsDepth _ (sizes c true (replicate max_stack_frames 0)),
  )

  -- If the buffer has room, a sample is written exactly when the process is the target, sampling
  -- is on, and one of the stacks has a frame.
  pub sample_written :
      (c : Call) (s : State k)
      → k.stacks.fits s.stack_ringbuf ≡ true
      → k.stacks.records (enter k on_cpu_sample c s).0.stack_ringbuf ≡ (
          if (is_target_pid s.target_pid c.tgid && flamegraph_enabled s.flamegraph_on)
            && (is_pos (stack_event k c).kstack_len || is_pos (stack_event k c).ustack_len)
          then k.stacks.records s.stack_ringbuf ++ (stack_event k c, 0) ∷ []
          else k.stacks.records s.stack_ringbuf)
  unfolding enter handler try_cpu_sample push_sample
  sample_written c s room =
      ground (arith, k.stacks.records-output s.stack_ringbuf (stack_event k c) 0 room)
