-- ===== src/Flamegraph.antt =====
-- aya-test/src/flamegraph.rs: the samples, folded to stacks with their counts. The drawing is the crate
-- `inferno`.
pub mod Folding
pub mod Svg
pub mod Drawing
use aya_e_bpf.Prelude.{
  ℕ, ◌+◌, ◌%◌, ◌^◌, min, Bool, not, List, [], ◌∷◌, ◌++◌, map, keep, take, Option, none, some, ◌==◌,
}
use aya_e_bpf.Prelude.Assoc.{bytes_eq, lookup, insert}
use aya_e_bpf.Prelude.Bytes.{Bytes, codes}
use aya_e_bpf.Prelude.Decimal.{display}
use aya_e_bpf.Prelude.Int.{ℤ, clamp_nat}
use aya_e_bpf.Common.Event.{StackEvent, max_stack_frames}
use aya_e_bpf.Symbolizer.{resolve_kernel}
use aya_e_bpf.Symbolizer.Cached.{resolve_all}
use aya_e_bpf.Symbolizer.Search.{BinarySearch}
use aya_e_bpf.Symbolizer.User.{Binaries, Symbolizer}

-- `iter().rev()`
abbrev pub rev : List ℕ → List ℕ
rev [] = []
rev (x ∷ xs) = rev xs ++ x ∷ []

-- `(len.max(0) as usize).min(MAX_STACK_FRAMES)`
unfoldable pub depth : ℤ → ℕ
depth len = min (clamp_nat len) max_stack_frames

-- The addresses of a stack from the outermost frame on, without zeros.
unfoldable pub addresses_of : List ℕ → ℤ → List ℕ
addresses_of ips len = keep (λ ip. not (ip == 0)) (rev (take (depth len) ips))

-- `frames.join(";")`
unfoldable pub join : List Bytes → Bytes
join [] = []
join (f ∷ []) = f
join (f ∷ g ∷ fs) = f ++ (b';' ∷ join (g ∷ fs))

-- `HashMap<String, u64>`
abbrev pub Folded : Type 0
Folded = List (Bytes × ℕ)

-- The count of a stack; `or_default`.
unfoldable pub count_of : Bytes → Folded → ℕ
count_of key folded = elim (lookup key folded) [ none ↦ 0 | some n ↦ n ]

-- Counts a stack; a sample without frames is passed over.
unfoldable pub add_stack : List Bytes → Folded → Folded
add_stack [] folded = folded
add_stack (f ∷ fs) folded =
    let key : Bytes = join (f ∷ fs) in insert key ((count_of key folded + 1) % 2 ^ 64) folded

module _ (b : BinarySearch) (bins : Binaries) where
  unfoldable pub frames_of_sample : Symbolizer → StackEvent → Symbolizer × List Bytes
  frames_of_sample s ev =
      let (t, user) = resolve_all b bins s (addresses_of ev.ustack_ips ev.ustack_len) in
      (t, map (resolve_kernel b s.ksyms) (addresses_of ev.kstack_ips ev.kstack_len) ++ user)

  -- The loop over the samples.
  unfoldable pub fold_samples : List StackEvent → Symbolizer → Folded → Folded
  fold_samples [] s folded = folded
  fold_samples (ev ∷ samples) s folded =
      let (t, frames) = frames_of_sample s ev in fold_samples samples t (add_stack frames folded)

-- One line for each stack, in the order of iteration.
unfoldable pub serialise : Folded → Bytes
serialise [] = []
serialise ((stack, count) ∷ rest) = stack ++ (b' ' ∷ (display count ++ (b'\n' ∷ serialise rest)))
