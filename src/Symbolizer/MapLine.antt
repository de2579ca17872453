-- ===== src/Symbolizer/MapLine.antt =====
-- A line of /proc/<pid>/maps as the kernel prints it, read back (aya-test/src/symbolizer.rs).
use aya_e_bpf.Prelude.{
  ℕ, zero, suc, ◌≡◌, ◌≢◌, refl, ap, ◌∙◌, Bool, true, false, List, [], ◌∷◌, ◌++◌, map, replicate,
  some, arith, All, All-append, ◌==◌,
}
use aya_e_bpf.Prelude.Bytes.{Bytes}
use aya_e_bpf.Prelude.Decimal.{u64_max}
use aya_e_bpf.Prelude.Text.{is_space}
use aya_e_bpf.Symbolizer.Hex.{
  hex_text, hex_value, IsHex, from_radix-hex, hex_text-All, hex_digit-no_space,
}
use aya_e_bpf.Symbolizer.Maps.{is_special, word_at, mapping_from, parse_mapping, parse_mappings}
use aya_e_bpf.Symbolizer.Text.{pieces, non_empty, words}
use aya_e_bpf.Symbolizer.User.{MemMapping}
use aya_e_bpf.Symbolizer.Words.{IsWord, words-cons}

-- A line of maps: the digits of three numbers, the other fields, and the spaces that align the path.
pub record MapLine : Type 0 where
  pub start : List ℕ
  pub end : List ℕ
  pub perms : Bytes
  pub offset : List ℕ
  pub dev : Bytes
  pub inode : Bytes
  pub padding : ℕ
  pub path : Bytes

abbrev pub map_line : MapLine → Bytes
map_line l =
    (hex_text l.start ++ b'-' ∷ hex_text l.end)
    ++ b' '
      ∷ (l.perms
          ++ b' '
            ∷ (hex_text l.offset
                ++ b' '
                  ∷ (l.dev ++ b' ' ∷ (l.inode ++ b' ' ∷ (replicate l.padding b' ' ++ l.path)))))

-- The mapping that it says.
abbrev pub mapping_of_line : MapLine → MemMapping
mapping_of_line l = record {
  start = hex_value 0 l.start;
  end = hex_value 0 l.end;
  offset = hex_value 0 l.offset;
  path = l.path;
}

-- Its numbers fit `u64`, its fields have no spaces, and it is of a file, above address 0.
pub record IsMapLine (l : MapLine) : Type 0 where
  pub start_hex : IsHex u64_max l.start
  pub end_hex : IsHex u64_max l.end
  pub offset_hex : IsHex u64_max l.offset
  pub perms_word : IsWord l.perms
  pub dev_word : IsWord l.dev
  pub inode_word : IsWord l.inode
  pub path_word : IsWord l.path
  pub above_zero : (hex_value 0 l.start == 0) ≡ false
  pub of_file : is_special l.path ≡ false

pieces_whole :
    (separates : ℕ → Bool) (w : Bytes)
    → All (λ c. separates c ≡ false) w
    → pieces separates w ≡ (w, [])
unfolding pieces
pieces_whole separates [] h = refl
pieces_whole separates (c ∷ w) (hc, h) = rw (pieces_whole separates w h) (rw hc refl)

pieces_two :
    (separates : ℕ → Bool) (w : Bytes) (c : ℕ) (v : Bytes)
    → All (λ c. separates c ≡ false) w
    → separates c ≡ true
    → All (λ c. separates c ≡ false) v
    → pieces separates (w ++ c ∷ v) ≡ (w, v ∷ [])
unfolding pieces
pieces_two separates [] c v h hc h' = rw hc (rw (pieces_whole separates v h') refl)
pieces_two separates (d ∷ w) c v (hd, h) hc h' =
    rw (pieces_two separates w c v h hc h') (rw hd refl)

words_one : (w : Bytes) → IsWord w → words w ≡ w ∷ []
unfolding words non_empty
words_one [] (some_byte, h) = absurd (some_byte refl)
words_one (c ∷ w) (some_byte, h) = rw (pieces_whole is_space (c ∷ w) h) refl

words_padded : (n : ℕ) (s : Bytes) → words (replicate n b' ' ++ s) ≡ words s
unfolding words pieces non_empty is_space
words_padded zero s = refl
words_padded (suc n) s = words_padded n s

pub hex-IsWord : (ds : List ℕ) → IsHex u64_max ds → IsWord (hex_text ds)
hex-IsWord [] h = absurd (h.some_digit refl)
hex-IsWord (d ∷ ds) h =
    ((λ e. cc), hex_text-All (λ c. is_space c ≡ false) (d ∷ ds) hex_digit-no_space h.digits)

hex_no_dash : (ds : List ℕ) → IsHex u64_max ds → All (λ c. (c == b'-') ≡ false) (hex_text ds)
hex_no_dash ds h =
    hex_text-All (λ c. (c == b'-') ≡ false) ds (λ d small. ground (arith, small)) h.digits

-- The range of addresses.
abbrev pub range_text : MapLine → Bytes
range_text l = hex_text l.start ++ b'-' ∷ hex_text l.end

joined-ne-nil : (w : Bytes) (c : ℕ) (v : Bytes) → w ++ c ∷ v ≢ []
joined-ne-nil [] c v e = cc
joined-ne-nil (d ∷ w) c v e = cc

pub range-IsWord : (l : MapLine) → IsMapLine l → IsWord (range_text l)
unfolding is_space
range-IsWord l h = (
  joined-ne-nil (hex_text l.start) b'-' (hex_text l.end),
  All-append (λ c. is_space c ≡ false) (hex_text l.start) (b'-' ∷ hex_text l.end)
      (hex-IsWord l.start h.start_hex).1 (refl, (hex-IsWord l.end h.end_hex).1),
)

words-map_line :
    (l : MapLine)
    → IsMapLine l
    → words (map_line l)
      ≡ range_text l ∷ l.perms ∷ hex_text l.offset ∷ l.dev ∷ l.inode ∷ l.path ∷ []
unfolding is_space
words-map_line l h =
    words-cons (range_text l) b' ' _ (range-IsWord l h) refl
    ∙ ap (λ ws. range_text l ∷ ws)
        (words-cons l.perms b' ' _ h.perms_word refl
          ∙ ap (λ ws. l.perms ∷ ws)
              (words-cons (hex_text l.offset) b' ' _ (hex-IsWord l.offset h.offset_hex) refl
                ∙ ap (λ ws. hex_text l.offset ∷ ws)
                    (words-cons l.dev b' ' _ h.dev_word refl
                      ∙ ap (λ ws. l.dev ∷ ws)
                          (words-cons l.inode b' ' _ h.inode_word refl
                            ∙ ap (λ ws. l.inode ∷ ws)
                                (words_padded l.padding l.path ∙ words_one l.path h.path_word)))))

mapping_from-hex :
    (l : MapLine)
    → IsMapLine l
    → mapping_from (hex_text l.start) (hex_text l.end) (hex_text l.offset) l.path
      ≡ some (mapping_of_line l)
unfolding mapping_from
mapping_from-hex l h =
    rw (from_radix-hex u64_max l.start h.start_hex, mapping_from)
      (rw (from_radix-hex u64_max l.end h.end_hex)
        (rw (from_radix-hex u64_max l.offset h.offset_hex) (rw (h.above_zero, h.of_file) refl)))

parse_mapping-map_line :
    (l : MapLine) → IsMapLine l → parse_mapping (map_line l) ≡ some (mapping_of_line l)
unfolding parse_mapping word_at
parse_mapping-map_line l h =
    let range =
      pieces_two (λ c. c == b'-') (hex_text l.start) b'-' (hex_text l.end)
        (hex_no_dash l.start h.start_hex) refl (hex_no_dash l.end h.end_hex) in
    rw (words-map_line l h, parse_mapping)
      (rw range (rw (words-map_line l h) (rw range (mapping_from-hex l h))))

pub parse_mappings-printed :
    (ls : List MapLine)
    → All IsMapLine ls
    → parse_mappings (map map_line ls) ≡ map mapping_of_line ls
unfolding parse_mappings
parse_mappings-printed [] h = refl
parse_mappings-printed (l ∷ ls) (hl, h) =
    rw (parse_mapping-map_line l hl, parse_mappings)
      (ap (λ ms. mapping_of_line l ∷ ms) (parse_mappings-printed ls h))
