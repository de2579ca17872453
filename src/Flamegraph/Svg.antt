-- ===== src/Flamegraph/Svg.antt =====
-- aya-test/src/flamegraph.rs: `generate_flamegraph_svg`. The files of `/proc`, the crate `inferno` and
-- the file that is written are parameters.
use aya_e_bpf.Prelude.{ℕ, suc, Bool, List, [], ◌∷◌, ◌++◌, Option, none, some, length, if◌then◌else◌}
use aya_e_bpf.Prelude.Bytes.{Bytes, codes}
use aya_e_bpf.Prelude.Decimal.{display}
use aya_e_bpf.Prelude.Text.{lines}
use aya_e_bpf.Common.Event.{StackEvent}
use aya_e_bpf.Flamegraph.{fold_samples, serialise}
use aya_e_bpf.Symbolizer.Maps.{new_symbolizer}
use aya_e_bpf.Symbolizer.Search.{BinarySearch}
use aya_e_bpf.Symbolizer.User.{Binaries, Symbolizer}

-- `from_reader title folded` is what `inferno` draws; `write path content` tells whether it succeeds.
pub record Output : Type 0 where
  pub read_to_string : Bytes → Option Bytes
  pub from_reader : Bytes → Bytes → Option Bytes
  pub write : Bytes → Bytes → Bool

-- What a call has come to, and what it has written.
pub data Drawn : Type 0 where
  skipped : Drawn
  not_drawn : Drawn
  not_written : Drawn
  written : Bytes → Bytes → Drawn

-- `unwrap_or_default`
abbrev pub or_empty : Option Bytes → Bytes
or_empty none = []
or_empty (some text) = text

unfoldable pub maps_path : ℕ → Bytes
maps_path pid = codes "/proc/" ++ (display pid ++ codes "/maps")

unfoldable pub symbolizer_of : Output → ℕ → Symbolizer
symbolizer_of out pid =
    new_symbolizer (lines (or_empty (out.read_to_string (maps_path pid))))
      (lines (or_empty (out.read_to_string (codes "/proc/kallsyms"))))

unfoldable pub title : ℕ → ℕ → Bytes
title pid samples =
    codes "Redis CPU Flame Graph (PID "
    ++ (display pid ++ (codes ", " ++ (display samples ++ codes " samples)")))

-- The process is that of the first sample.
unfoldable pub generate_flamegraph_svg :
    BinarySearch → Binaries → Output → List StackEvent → Bytes → Drawn
generate_flamegraph_svg b bins out [] output_path = skipped
generate_flamegraph_svg b bins out (ev ∷ samples) output_path =
    let folded_buf : Bytes =
      serialise (fold_samples b bins (ev ∷ samples) (symbolizer_of out ev.pid) []) in
    elim (out.from_reader (title ev.pid (suc (length samples))) folded_buf) [
      | none ↦ not_drawn
      | some svg ↦ if out.write output_path svg then written output_path svg else not_written
    ]
