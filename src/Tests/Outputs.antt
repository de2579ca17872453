-- ===== src/Tests/Outputs.antt =====
-- The flame graph, the monitor and the layout of the events (aya-test/src/flamegraph.rs,
-- aya-test/src/monitor.rs, aya-test-common/src/lib.rs) on small inputs.
use aya_e_bpf.Prelude.{◌≡◌, refl, true, List, [], ◌∷◌, some, All, arith}
use aya_e_bpf.Prelude.Bytes.{Bytes, codes}
use aya_e_bpf.Prelude.Decimal.{display}
use aya_e_bpf.Prelude.Int.{pos}
use aya_e_bpf.Prelude.Text.{is_space}
use aya_e_bpf.Flamegraph.Svg.{Output}
use aya_e_bpf.Monitor.{stat, read_stat}
use aya_e_bpf.Monitor.Fields.{display_int, IsStatLine, stat_line, read_stat-stat_line}
use aya_e_bpf.Symbolizer.Words.{IsWord}

-- Kernel symbols, no maps, and a drawing that is the folded text.
abbrev output : Output
output = record {
  read_to_string = λ path. some (codes "14 T start\n");
  from_reader = λ title folded. some folded;
  write = λ path content. true;
}

abbrev fields : List Bytes
fields =
    codes "S"
    ∷ codes "1"
    ∷ codes "1"
    ∷ codes "1"
    ∷ codes "0"
    ∷ codes "-1"
    ∷ codes "0"
    ∷ codes "0"
    ∷ codes "0"
    ∷ codes "0"
    ∷ codes "0"
    ∷ codes "250"
    ∷ codes "50"
    ∷ codes "0"
    ∷ codes "0"
    ∷ codes "20"
    ∷ codes "0"
    ∷ codes "9"
    ∷ codes "0"
    ∷ codes "77"
    ∷ codes "8192"
    ∷ codes "3"
    ∷ []

fields-IsWord : All IsWord fields
unfolding is_space
fields-IsWord = ground arith

fields-IsStatLine : IsStatLine fields 250 50 (pos 9) 8192 (pos 3)
unfolding display display_int
fields-IsStatLine = record {
  are_words = fields-IsWord;
  utime_at = refl;
  stime_at = refl;
  threads_at = refl;
  vsize_at = refl;
  rss_at = refl;
  utime_fits = ground arith;
  stime_fits = ground arith;
  threads_fits = ground arith;
  vsize_fits = ground arith;
  rss_fits = ground arith;
}

read_stat-stat_line_example :
    read_stat (pos 4096) (some (stat_line 300 (codes "aya-test") fields))
    ≡ stat (record { utime = 250; stime = 50; threads = pos 9; vsize = 8192; rss = 12288 })
read_stat-stat_line_example =
    read_stat-stat_line (pos 4096) 300 (codes "aya-test") fields 250 50 (pos 9) 8192 (pos 3)
      (ground arith) fields-IsStatLine
