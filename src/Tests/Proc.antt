-- ===== src/Tests/Proc.antt =====
-- Lines of /proc as the kernel prints them (aya-test/src/symbolizer.rs).
use aya_e_bpf.Prelude.{◌≡◌, [], ◌∷◌, arith}
use aya_e_bpf.Prelude.Bytes.{codes}
use aya_e_bpf.Prelude.Text.{is_space, lines}
use aya_e_bpf.Symbolizer.Kallsyms.{load_kallsyms}
use aya_e_bpf.Symbolizer.Lines.{text_of}
use aya_e_bpf.Symbolizer.MapLine.{MapLine, map_line, mapping_of_line, IsMapLine}
use aya_e_bpf.Symbolizer.Maps.{parse_maps, is_special}
use aya_e_bpf.Symbolizer.Printed.{
  SymbolLine, symbol_line, symbol_of_line, IsSymbolLine, parse_maps-printed, load_kallsyms-printed,
}
use aya_e_bpf.Symbolizer.Sort.{sort_asc}

-- `00400000-004f1000 r-xp 0001a000 08:02 173521   /usr/bin/redis`
abbrev server : MapLine
server = record {
  start = 0 ∷ 0 ∷ 4 ∷ 0 ∷ 0 ∷ 0 ∷ 0 ∷ 0 ∷ [];
  end = 0 ∷ 0 ∷ 4 ∷ 15 ∷ 1 ∷ 0 ∷ 0 ∷ 0 ∷ [];
  perms = codes "r-xp";
  offset = 0 ∷ 0 ∷ 0 ∷ 1 ∷ 10 ∷ 0 ∷ 0 ∷ 0 ∷ [];
  dev = codes "08:02";
  inode = codes "173521";
  padding = 2;
  path = codes "/usr/bin/redis";
}

server-IsMapLine : IsMapLine server
unfolding is_space is_special
server-IsMapLine = ground arith

parse_maps-printed_example :
    parse_maps (lines (text_of (map_line server ∷ [])))
    ≡ sort_asc (λ m. m.start) (mapping_of_line server ∷ [])
parse_maps-printed_example = parse_maps-printed (server ∷ []) (server-IsMapLine, tt)

abbrev text_symbol : SymbolLine
text_symbol = record { addr = 15 ∷ 15 ∷ 8 ∷ 1 ∷ []; kind = codes "T"; name = codes "tcp_recvmsg" }

abbrev data_symbol : SymbolLine
data_symbol = record { addr = 15 ∷ 0 ∷ []; kind = codes "d"; name = codes "hosts" }

text_symbol-IsSymbolLine : IsSymbolLine text_symbol
unfolding is_space
text_symbol-IsSymbolLine = ground arith

data_symbol-IsSymbolLine : IsSymbolLine data_symbol
unfolding is_space
data_symbol-IsSymbolLine = ground arith

load_kallsyms-printed_example :
    load_kallsyms (lines (text_of (symbol_line text_symbol ∷ symbol_line data_symbol ∷ [])))
    ≡ sort_asc (λ s. s.0) (symbol_of_line text_symbol ∷ symbol_of_line data_symbol ∷ [])
load_kallsyms-printed_example =
    load_kallsyms-printed (text_symbol ∷ data_symbol ∷ [])
      (text_symbol-IsSymbolLine, (data_symbol-IsSymbolLine, tt))
