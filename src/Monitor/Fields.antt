-- ===== src/Monitor/Fields.antt =====
-- What the monitor reads of a line of `/proc/self/stat` (aya-test/src/monitor.rs).
use aya_e_bpf.Prelude.{
  ℕ, suc, ◌+◌, ◌-◌, ◌*◌, ◌%◌, ◌^◌, ◌<◌, ◌≡◌, ◌≢◌, refl, sym, ap, ◌∙◌, true, false, List, [], ◌∷◌,
  ◌++◌, All, All-map, All-append, drop, length, get_elem?, some, arith, ltb, ◌==◌,
}
use aya_e_bpf.Prelude.Bytes.{Bytes, codes, is_digit}
use aya_e_bpf.Prelude.Decimal.{
  u64_max, parse, display, parse-display, display-AreDigits, display-ne-nil, AreDigits, read_digits,
  from_radix, from_radix_of_digits,
}
use aya_e_bpf.Prelude.Int.{ℤ, pos, negsuc, to_bits}
use aya_e_bpf.Monitor.{
  negative, parse_i64, find, Stat, stat, unsigned_at, signed_at, stat_of, read_stat,
}
use aya_e_bpf.Symbolizer.Words.{IsWord, spaced, words-spaced}

-- `Display` of an `i64`.
unfoldable pub display_int : ℤ → Bytes
display_int (pos n) = display n
display_int (negsuc n) = b'-' ∷ display (suc n)

abbrev pub FitsI64 : ℤ → Type 0
FitsI64 (pos n) = n < 2 ^ 63
FitsI64 (negsuc n) = n < 2 ^ 63

-- The line: the number of the process, its name, and the fields behind it (proc(5)).
unfoldable pub stat_line : ℕ → Bytes → List Bytes → Bytes
stat_line pid comm fields = (display pid ++ (codes " (" ++ comm)) ++ b')' ∷ b' ' ∷ spaced fields

find-append :
    (c : ℕ) (s rest : Bytes)
    → All (λ d. (d == c) ≡ false) s
    → find c (s ++ (c ∷ rest)) ≡ some (length s)
unfolding find
find-append c [] rest h = ground arith
find-append c (d ∷ s) rest (hd, h) = rw (find-append c s rest h, hd) refl

drop-append-two : (a b : ℕ) (s rest : Bytes) → drop (length s + 2) (s ++ (a ∷ b ∷ rest)) ≡ rest
drop-append-two a b [] rest = refl
drop-append-two a b (d ∷ s) rest =
    let e : suc (length s) + 2 ≡ suc (length s + 2) = omega arith in
    ap (λ j. drop j (d ∷ (s ++ a ∷ b ∷ rest))) e ∙ drop-append-two a b s rest

length-append-two :
    (a b : ℕ) (s rest : Bytes) → ltb (length (s ++ (a ∷ b ∷ rest))) (length s + 2) ≡ false
length-append-two a b [] rest = ground arith
length-append-two a b (d ∷ s) rest = ground (arith, length-append-two a b s rest)

parse_i64-positive :
    (n : ℕ) (s : Bytes) → AreDigits s → parse (2 ^ 63 - 1) s ≡ some n → parse_i64 s ≡ some (pos n)
unfolding parse_i64 is_digit from_radix
parse_i64-positive n [] h e = absurd (ground (arith, e))
parse_i64-positive n (c ∷ []) h e = rw (e, parse_i64) refl
parse_i64-positive n (c ∷ d ∷ s) (hc, h) e =
    let other : (c == b'-') ≡ false = ground (arith, hc) in rw (other, parse_i64) (rw e refl)

parse_i64-negative :
    (n : ℕ) (s : Bytes)
    → s ≢ []
    → read_digits 10 (2 ^ 63) s 0 ≡ some n
    → parse_i64 (b'-' ∷ s) ≡ some (negative n)
unfolding parse_i64
parse_i64-negative n [] some_byte e = absurd (some_byte refl)
parse_i64-negative n (d ∷ s) some_byte e = rw (e, parse_i64) refl

parse_i64-display_int : (z : ℤ) → FitsI64 z → parse_i64 (display_int z) ≡ some z
unfolding display_int
parse_i64-display_int (pos n) h =
    parse_i64-positive n (display n) (display-AreDigits n)
      (parse-display (2 ^ 63 - 1) n (omega arith))
parse_i64-display_int (negsuc n) h =
    parse_i64-negative (suc n) (display (suc n)) (display-ne-nil (suc n)) (
      sym (
        from_radix_of_digits (2 ^ 63) (display (suc n)) (display-ne-nil (suc n))
          (display-AreDigits (suc n)))
      ∙ parse-display (2 ^ 63) (suc n) (omega arith))

unsigned_at-display :
    (fields : List Bytes) (i n : ℕ)
    → get_elem? fields i ≡ some (display n)
    → n < 2 ^ 64
    → unsigned_at fields i ≡ some n
unfolding unsigned_at
unsigned_at-display fields i n e h = rw (e, unsigned_at) (parse-display u64_max n (omega arith))

signed_at-display_int :
    (fields : List Bytes) (i : ℕ) (z : ℤ)
    → get_elem? fields i ≡ some (display_int z)
    → FitsI64 z
    → signed_at fields i ≡ some z
unfolding signed_at
signed_at-display_int fields i z e h = rw (e, signed_at) (parse_i64-display_int z h)

digit_no_bracket : (c : ℕ) → is_digit c ≡ true → (c == b')') ≡ false
unfolding is_digit
digit_no_bracket c h = ground arith

before_name :
    (pid : ℕ) (comm : Bytes)
    → All (λ c. (c == b')') ≡ false) comm
    → All (λ c. (c == b')') ≡ false) (display pid ++ (codes " (" ++ comm))
before_name pid comm h =
    let P : ℕ → Type 0 = λ c. (c == b')') ≡ false in
    All-append P (display pid) (codes " (" ++ comm)
      (All-map digit_no_bracket (display pid) (display-AreDigits pid))
      (All-append P (codes " (") comm (ground arith) h)

-- A line is split at the bracket behind the name, and the words behind it are read.
read_stat-words :
    (page_sz : ℤ) (pid : ℕ) (comm : Bytes) (fields : List Bytes) (s : Stat)
    → All (λ c. (c == b')') ≡ false) comm
    → All IsWord fields
    → stat_of page_sz fields ≡ some s
    → read_stat page_sz (some (stat_line pid comm fields)) ≡ stat s
unfolding read_stat stat_line
read_stat-words page_sz pid comm fields s h words_ok e =
    let before : Bytes = display pid ++ (codes " (" ++ comm) in
    rw
      (
        read_stat,
        find-append b')' before (b' ' ∷ spaced fields) (before_name pid comm h),
        length-append-two b')' b' ' before (spaced fields),
        drop-append-two b')' b' ' before (spaced fields),
        words-spaced fields words_ok,
        e,
      )
      refl

-- The number of the process, its name, and where the fields of the line stand.
pub record IsStatLine (fields : List Bytes) (utime stime : ℕ) (threads : ℤ) (vsize : ℕ) (rss_pg : ℤ)
    : Type 0 where
  pub are_words : All IsWord fields
  pub utime_at : get_elem? fields 11 ≡ some (display utime)
  pub stime_at : get_elem? fields 12 ≡ some (display stime)
  pub threads_at : get_elem? fields 17 ≡ some (display_int threads)
  pub vsize_at : get_elem? fields 20 ≡ some (display vsize)
  pub rss_at : get_elem? fields 21 ≡ some (display_int rss_pg)
  pub utime_fits : utime < 2 ^ 64
  pub stime_fits : stime < 2 ^ 64
  pub threads_fits : FitsI64 threads
  pub vsize_fits : vsize < 2 ^ 64
  pub rss_fits : FitsI64 rss_pg

-- What the kernel writes is read back: from a line with the number of the process, its name in brackets,
-- which has no closing bracket, and the fields of proc(5), the monitor reads the two times, the number of
-- threads, the size, and the resident pages times the page size in `u64`. The numbers must fit 64 bits.
pub read_stat-stat_line :
    (page_sz : ℤ) (pid : ℕ) (comm : Bytes) (fields : List Bytes) (utime stime : ℕ) (threads : ℤ)
    (vsize : ℕ) (rss_pg : ℤ)
    → All (λ c. (c == b')') ≡ false) comm
    → IsStatLine fields utime stime threads vsize rss_pg
    → read_stat page_sz (some (stat_line pid comm fields))
      ≡ stat (record {
        utime = utime;
        stime = stime;
        threads = threads;
        vsize = vsize;
        rss = to_bits 64 rss_pg * to_bits 64 page_sz % 2 ^ 64;
      })
unfolding stat_of
read_stat-stat_line page_sz pid comm fields utime stime threads vsize rss_pg h line =
    read_stat-words page_sz pid comm fields _ h line.are_words (
      rw
        (
          unsigned_at-display fields 11 utime line.utime_at line.utime_fits,
          unsigned_at-display fields 12 stime line.stime_at line.stime_fits,
          signed_at-display_int fields 17 threads line.threads_at line.threads_fits,
          unsigned_at-display fields 20 vsize line.vsize_at line.vsize_fits,
          signed_at-display_int fields 21 rss_pg line.rss_at line.rss_fits,
        )
        refl)
