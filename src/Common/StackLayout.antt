-- ===== src/Common/StackLayout.antt =====
-- The memory image of a `StackEvent` (aya-test-common/src/lib.rs): `#[repr(C)]` on a little-endian
-- machine, 344 bytes without padding.
use aya_e_bpf.Prelude.{
  ℕ, zero, suc, ◌-◌, ◌*◌, ◌%◌, ◌^◌, ◌<◌, ◌≡◌, refl, sym, ap, ◌∙◌, List, [], ◌∷◌, ◌++◌, append-nil,
  take, drop, length, length-append, All, arith,
}
use aya_e_bpf.Prelude.Bytes.{Bytes}
use aya_e_bpf.Prelude.Int.{ℤ, pos, negsuc, to_bits, of_bits}
use aya_e_bpf.Common.Event.{StackEvent, max_stack_frames}
use aya_e_bpf.Common.Layout.{le_bytes, of_le, field, word4, word8}

-- `size_of::<StackEvent>()`
abbrev pub stack_size : ℕ
stack_size = 344

-- An array of `u64`.
unfoldable pub le_words : List ℕ → Bytes
le_words [] = []
le_words (x ∷ xs) = le_bytes 8 x ++ le_words xs

unfoldable pub words_of_le : ℕ → Bytes → List ℕ
words_of_le zero s = []
words_of_le (suc n) s = of_le (take 8 s) ∷ words_of_le n (drop 8 s)

unfoldable pub encode_stack : StackEvent → Bytes
encode_stack e =
    le_bytes 4 e.pid
    ++ (le_bytes 4 e.cpu
        ++ (le_bytes 4 (to_bits 32 e.kstack_len)
            ++ (le_bytes 4 (to_bits 32 e.ustack_len)
                ++ (le_bytes 8 e.timestamp_ns
                    ++ (le_words e.kstack_ips ++ le_words e.ustack_ips)))))

-- `read_unaligned` of an event.
unfoldable pub decode_stack : Bytes → StackEvent
decode_stack image = record {
  pid = of_le (field image 0 4);
  cpu = of_le (field image 4 4);
  kstack_len = of_bits 32 (of_le (field image 8 4));
  ustack_len = of_bits 32 (of_le (field image 12 4));
  timestamp_ns = of_le (field image 16 8);
  kstack_ips = words_of_le max_stack_frames (drop 24 image);
  ustack_ips = words_of_le max_stack_frames (drop 184 image);
}

-- Fits `i32`.
abbrev pub IsI32 : ℤ → Type 0
IsI32 (pos n) = n < 2 ^ 31
IsI32 (negsuc n) = n < 2 ^ 31

-- Every number fits its field, and both arrays have 20 words.
pub record IsStackImage (e : StackEvent) : Type 0 where
  pub pid_fits : e.pid < 2 ^ 32
  pub cpu_fits : e.cpu < 2 ^ 32
  pub kstack_len_fits : IsI32 e.kstack_len
  pub ustack_len_fits : IsI32 e.ustack_len
  pub timestamp_fits : e.timestamp_ns < 2 ^ 64
  pub kstack_fits : All (λ x. x < 2 ^ 64) e.kstack_ips
  pub ustack_fits : All (λ x. x < 2 ^ 64) e.ustack_ips
  pub kstack_full : length e.kstack_ips ≡ max_stack_frames
  pub ustack_full : length e.ustack_ips ≡ max_stack_frames

signed : (z : ℤ) → IsI32 z → of_bits 32 (of_le (le_bytes 4 (to_bits 32 z))) ≡ z
signed (pos n) h = rw (word4 (n % 2 ^ 32) (omega arith)) (ground arith)
signed (negsuc n) h = rw (word4 (2 ^ 32 - 1 - n % 2 ^ 32) (omega arith)) (ground arith)

words-le_words :
    (xs : List ℕ) (tail : Bytes)
    → All (λ x. x < 2 ^ 64) xs
    → words_of_le (length xs) (le_words xs ++ tail) ≡ xs
unfolding words_of_le le_words le_bytes
words-le_words [] tail h = refl
words-le_words (x ∷ xs) tail (hx, h) = λ i. word8 x hx i ∷ words-le_words xs tail h i

drop-le_words : (xs : List ℕ) (tail : Bytes) → drop (8 * length xs) (le_words xs ++ tail) ≡ tail
unfolding le_words le_bytes
drop-le_words [] tail = refl
drop-le_words (x ∷ xs) tail =
    let n : ℕ = 8 * length xs in
    let count : 8 * length {A = ℕ} (x ∷ xs) ≡ suc (suc (suc (suc (suc (suc (suc (suc n))))))) =
      omega arith in
    ap (λ n. drop n (le_words (x ∷ xs) ++ tail)) count ∙ drop-le_words xs tail

-- The collector reads back the sample that the sampler wrote, if its numbers fit their fields and both
-- of its arrays have 20 words.
pub decode-encode_stack : (e : StackEvent) → IsStackImage e → decode_stack (encode_stack e) ≡ e
unfolding decode_stack encode_stack le_bytes
decode-encode_stack e h = λ i. record {
  pid = word4 e.pid h.pid_fits i;
  cpu = word4 e.cpu h.cpu_fits i;
  kstack_len = signed e.kstack_len h.kstack_len_fits i;
  ustack_len = signed e.ustack_len h.ustack_len_fits i;
  timestamp_ns = word8 e.timestamp_ns h.timestamp_fits i;
  kstack_ips =
      (ap (λ n. words_of_le n (le_words e.kstack_ips ++ le_words e.ustack_ips)) (sym h.kstack_full)
          ∙ words-le_words e.kstack_ips (le_words e.ustack_ips) h.kstack_fits)
        i;
  ustack_ips =
      (ap
            (λ n.
              words_of_le max_stack_frames
                (drop (8 * n) (le_words e.kstack_ips ++ le_words e.ustack_ips)))
            (sym h.kstack_full)
          ∙ ap (words_of_le max_stack_frames) (drop-le_words e.kstack_ips (le_words e.ustack_ips))
          ∙ ap (λ n. words_of_le n (le_words e.ustack_ips)) (sym h.ustack_full)
          ∙ ap (words_of_le (length e.ustack_ips)) (sym (append-nil (le_words e.ustack_ips)))
          ∙ words-le_words e.ustack_ips [] h.ustack_fits)
        i;
}

length-le_words : (xs : List ℕ) → length (le_words xs) ≡ 8 * length xs
unfolding le_words le_bytes
length-le_words [] = refl
length-le_words (x ∷ xs) = omega (arith, length-le_words xs)

-- The image of a sample with two arrays of 20 words has the size of the type.
pub length-encode_stack :
    (e : StackEvent)
    → length e.kstack_ips ≡ max_stack_frames
    → length e.ustack_ips ≡ max_stack_frames
    → length (encode_stack e) ≡ stack_size
unfolding encode_stack le_bytes
length-encode_stack e full full' = omega (
  arith,
  length-append (le_words e.kstack_ips) (le_words e.ustack_ips),
  length-le_words e.kstack_ips,
  length-le_words e.ustack_ips,
)
