-- ===== src/Reader/Stacks.antt =====
-- `spawn_stack_reader` (aya-test/src/reader.rs): the task that drains the buffer of stack samples.
use aya_e_bpf.Prelude.{
  ◌≡◌, sym, ap, ◌∙◌, refl, false, List, [], ◌∷◌, ◌++◌, append-nil, append_assoc, map, length, ltb,
  arith, All, if◌then◌else◌,
}
use aya_e_bpf.Prelude.Bytes.{Bytes}
use aya_e_bpf.Common.Event.{StackEvent}
use aya_e_bpf.Common.StackLayout.{
  stack_size, encode_stack, decode_stack, IsStackImage, decode-encode_stack, length-encode_stack,
}

-- Phase 1: the items that are in the buffer at a wake-up, each long enough to be a sample.
unfoldable pub collect_stacks : List Bytes → List StackEvent → List StackEvent
collect_stacks [] batch = batch
collect_stacks (item ∷ items) batch =
    collect_stacks items
      (if ltb (length item) stack_size then batch else batch ++ decode_stack item ∷ [])

-- One round of the task; phase 2 appends the batch to the shared samples.
unfoldable pub stack_round : List Bytes → List StackEvent → List StackEvent
stack_round items samples = samples ++ collect_stacks items []

collect_stacks_long :
    (e : StackEvent) (item : Bytes) (items : List Bytes) (batch : List StackEvent)
    → length item ≡ stack_size
    → decode_stack item ≡ e
    → collect_stacks (item ∷ items) batch ≡ collect_stacks items (batch ++ e ∷ [])
unfolding collect_stacks
collect_stacks_long e item items batch sized read =
    let long : ltb (length item) stack_size ≡ false = ground arith in rw (long, read) refl

collect_stacks-encode :
    (evs batch : List StackEvent)
    → All IsStackImage evs
    → collect_stacks (map encode_stack evs) batch ≡ batch ++ evs
unfolding collect_stacks
collect_stacks-encode [] batch h = sym (append-nil batch)
collect_stacks-encode (e ∷ evs) batch (he, h) =
    collect_stacks_long e (encode_stack e) (map encode_stack evs) batch
      (length-encode_stack e he.kstack_full he.ustack_full) (decode-encode_stack e he)
    ∙ (collect_stacks-encode evs (batch ++ e ∷ []) h ∙ append_assoc batch (e ∷ []) evs)

-- A round over the memory images of samples appends exactly those samples, in their order, to the
-- shared ones. Their numbers must fit their fields, and their arrays have 20 words.
pub stack_round-encode :
    (evs samples : List StackEvent)
    → All IsStackImage evs
    → stack_round (map encode_stack evs) samples ≡ samples ++ evs
unfolding stack_round
stack_round-encode evs samples h = ap (λ b. samples ++ b) (collect_stacks-encode evs [] h)
