-- ===== src/Flamegraph/Folding.antt =====
-- What folding counts (aya-test/src/flamegraph.rs).
use aya_e_bpf.Prelude.{
  ℕ, ◌+◌, ◌%◌, ◌^◌, ◌≡◌, ap, List, [], ◌∷◌, ◌++◌, map, arith, if◌then◌else◌, List,
}
use aya_e_bpf.Prelude.Assoc.{bytes_eq, lookup-insert}
use aya_e_bpf.Prelude.Bytes.{Bytes, same, same_iff}
use aya_e_bpf.Common.Event.{StackEvent}
use aya_e_bpf.Flamegraph.{
  addresses_of, join, Folded, count_of, frames_of_sample, add_stack, fold_samples,
}
use aya_e_bpf.Symbolizer.{Symbols, resolve_kernel}
use aya_e_bpf.Symbolizer.Cached.{name_of, IsCoherent, Keeps, resolve_all-IsCoherent}
use aya_e_bpf.Symbolizer.Search.{BinarySearch}
use aya_e_bpf.Symbolizer.User.{MemMapping, Binaries, Symbolizer}

module _ (b : BinarySearch) (bins : Binaries) where
  -- The frames of a sample when every file is read anew.
  abbrev pub stack_of : List MemMapping → Symbols → StackEvent → List Bytes
  stack_of mappings ksyms ev =
      map (resolve_kernel b ksyms) (addresses_of ev.kstack_ips ev.kstack_len)
      ++ map (name_of b bins mappings) (addresses_of ev.ustack_ips ev.ustack_len)

  -- A stack counts for its own key, unless it is empty.
  abbrev pub counts_for : Bytes → List Bytes → ℕ
  counts_for key [] = 0
  counts_for key (f ∷ fs) = if same (join (f ∷ fs)) key then 1 else 0

  -- The samples whose frames, joined, are the key.
  abbrev pub occurrences : List MemMapping → Symbols → Bytes → List StackEvent → ℕ
  occurrences mappings ksyms key [] = 0
  occurrences mappings ksyms key (ev ∷ samples) =
      counts_for key (stack_of mappings ksyms ev) + occurrences mappings ksyms key samples

  frames_of_sample-stack_of :
      (s : Symbolizer) (ev : StackEvent)
      → IsCoherent bins s
      → IsCoherent bins (frames_of_sample b bins s ev).0
        × ((frames_of_sample b bins s ev).1 ≡ stack_of s.mappings s.ksyms ev)
        × Keeps s (frames_of_sample b bins s ev).0
  unfolding frames_of_sample
  frames_of_sample-stack_of s ev h =
      let (kept, names, still) =
        resolve_all-IsCoherent b bins s (addresses_of ev.ustack_ips ev.ustack_len) h in
      (
        kept,
        ap
            (λ user.
              map (resolve_kernel b s.ksyms) (addresses_of ev.kstack_ips ev.kstack_len) ++ user)
            names,
        still,
      )

  count_of-add_stack :
      (key : Bytes) (frames : List Bytes) (folded : Folded)
      → count_of key (add_stack frames folded) % 2 ^ 64
        ≡ (count_of key folded + counts_for key frames) % 2 ^ 64
  unfolding count_of add_stack
  count_of-add_stack key [] folded = omega arith
  count_of-add_stack key (f ∷ fs) folded =
      let stack : Bytes = join (f ∷ fs) in
      let counted = lookup-insert stack key ((count_of stack folded + 1) % 2 ^ 64) folded in
      ground (arith, counted, same_iff stack key)

  -- However the samples share the cache, each stack's count grows by the number of samples whose names,
  -- read anew, joined, are that stack; samples without a frame count for none. The count is in `u64`,
  -- and the cache must agree with the files.
  pub fold_samples-occurrences :
      (samples : List StackEvent) (s : Symbolizer) (folded : Folded) (key : Bytes)
      → IsCoherent bins s
      → count_of key (fold_samples b bins samples s folded) % 2 ^ 64
        ≡ (count_of key folded + occurrences s.mappings s.ksyms key samples) % 2 ^ 64
  unfolding fold_samples
  fold_samples-occurrences [] s folded key h = omega arith
  fold_samples-occurrences (ev ∷ samples) s folded key h =
      let (kept, frames, (maps, ksyms)) = frames_of_sample-stack_of s ev h in
      let t : Symbolizer = (frames_of_sample b bins s ev).0 in
      let added : Folded = add_stack (frames_of_sample b bins s ev).1 folded in
      let rest = fold_samples-occurrences samples t added key kept in
      let one = count_of-add_stack key (frames_of_sample b bins s ev).1 folded in
      let same_frames = ap (counts_for key) frames in
      let same_maps = ap (λ m. occurrences m t.ksyms key samples) maps in
      let same_ksyms = ap (λ k. occurrences s.mappings k key samples) ksyms in omega arith
