-- ===== src/Flamegraph/Drawing.antt =====
-- What a flame graph shows (aya-test/src/flamegraph.rs).
use aya_e_bpf.Prelude.{ℕ, ◌%◌, ◌^◌, ◌≡◌, true, false, List, Option, none, some, length}
use aya_e_bpf.Prelude.Bytes.{Bytes}
use aya_e_bpf.Prelude.Assoc.{bytes_eq}
use aya_e_bpf.Common.Event.{StackEvent}
use aya_e_bpf.Flamegraph.{Folded, count_of, serialise}
use aya_e_bpf.Flamegraph.Folding.{occurrences}
use aya_e_bpf.Flamegraph.Svg.{Output, Drawn, not_drawn, not_written, written, symbolizer_of, title}
use aya_e_bpf.Symbolizer.Search.{BinarySearch}
use aya_e_bpf.Symbolizer.User.{Binaries}

module _ (b : BinarySearch) (bins : Binaries) (out : Output) (samples : List StackEvent)
    (pid : ℕ) where
  -- Each stack has the number of samples whose names, read anew, joined, are that stack.
  abbrev pub HasCounts : Folded → Type 0
  HasCounts folded =
      (key : Bytes)
      → count_of key folded % 2 ^ 64
        ≡ occurrences b bins (symbolizer_of out pid).mappings (symbolizer_of out pid).ksyms key
            samples
          % 2 ^ 64

  abbrev pub drawing_of : Folded → Option Bytes
  drawing_of folded = out.from_reader (title pid (length samples)) (serialise folded)

  -- What a call may come to.
  pub data IsDrawing (output_path : Bytes) : Drawn → Type 0 where
    refused :
        (folded : Folded)
        → HasCounts folded
        → drawing_of folded ≡ none
        → IsDrawing output_path not_drawn
    lost :
        (folded : Folded) (svg : Bytes)
        → HasCounts folded
        → drawing_of folded ≡ some svg
        → out.write output_path svg ≡ false
        → IsDrawing output_path not_written
    kept :
        (folded : Folded) (svg : Bytes)
        → HasCounts folded
        → drawing_of folded ≡ some svg
        → out.write output_path svg ≡ true
        → IsDrawing output_path (written output_path svg)
