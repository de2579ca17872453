-- ===== src/Resp/Capture.antt =====
-- `classify_command` on the captured bytes of a request (aya-test/src/resp.rs).
use aya_e_bpf.Prelude.{
  ℕ, suc, ◌+◌, ◌^◌, ◌≤◌, ◌<◌, ◌≡◌, ◌≢◌, refl, ap, ◌∙◌, true, [], ◌∷◌, ◌++◌, length, length-append,
  all, arith, All, append_assoc, some, if◌then◌else◌, pos-length, All-map, All-append,
}
use aya_e_bpf.Prelude.Bytes.{Bytes, is_alphabetic}
use aya_e_bpf.Prelude.Decimal.{display, display-AreDigits, display-ne-nil, parse-display, u64_max}
use aya_e_bpf.Resp.{
  Cow, return, next, round_at, command_name, scan_from, scan_resp_command, before_zero, Decoder,
  classify_command,
}
use aya_e_bpf.Resp.Slices.{drop-append}
use aya_e_bpf.Resp.Exact.{round_exact}
use aya_e_bpf.Resp.Request.{crlf, bulk_head, IsPlain, display-IsPlain, letters-IsPlain}

pub scan_plain :
    (payload pre rest : Bytes) (i : ℕ)
    → All IsPlain pre
    → scan_from payload (pre ++ rest) i ≡ scan_from payload rest (i + length pre)
unfolding scan_from
scan_plain payload [] rest i h = let e : i ≡ i + 0 = omega arith in ap (scan_from payload rest) e
scan_plain payload (c ∷ pre) rest i (hc, hs) =
    let e : i + 1 + length pre ≡ i + suc (length pre) = omega arith in
    rw (← e) (ground (arith, scan_plain payload pre rest (i + 1) hs))

pub scan_return :
    (payload rest : Bytes) (i : ℕ) (c : Cow)
    → round_at payload i ≡ return (some c)
    → scan_from payload (b'$' ∷ rest) i ≡ some c
unfolding scan_from
scan_return payload rest i c h = ground arith

pub scan_next :
    (payload rest : Bytes) (i : ℕ)
    → round_at payload i ≡ next
    → scan_from payload (b'$' ∷ rest) i ≡ scan_from payload rest (i + 1)
unfolding scan_from
scan_next payload rest i h = ground arith

pub some_digit : (n : ℕ) → 0 < length (display n)
some_digit n = pos-length (display n) (display-ne-nil n)

-- A payload with the bulk string `s` in it.
abbrev pub around : Bytes → Bytes → Bytes → Bytes
around pre s post = pre ++ (bulk_head (length s) ++ (s ++ post))

pub length-around :
    (pre s post : Bytes)
    → length (around pre s post)
      ≡ length pre + 1 + length (display (length s)) + 2 + length s + length post
length-around pre s post = omega (
  arith,
  length-append pre (bulk_head (length s) ++ (s ++ post)),
  length-append (display (length s) ++ crlf) (s ++ post),
  length-append (display (length s)) crlf,
  length-append s post,
)

-- The round at a bulk string that stands whole in the payload.
module _ (pre s post : Bytes) (some_byte : 0 < length s)
    (small : length (around pre s post) < 2 ^ 64) where
  pub round_bulk :
      round_at (around pre s post) (length pre)
      ≡ (if all is_alphabetic s then return (some (command_name s)) else next)
  round_bulk =
      round_exact (around pre s post) (display (length s)) s post (length pre)
        (drop-append 1 pre _ ∙ append_assoc (display (length s)) crlf (s ++ post))
        (display-AreDigits (length s)) (some_digit (length s))
        (parse-display u64_max (length s) (omega (arith, length-around pre s post))) some_byte small

  scan_bulk :
      All IsPlain pre
      → all is_alphabetic s ≡ true
      → scan_resp_command (around pre s post) ≡ some (command_name s)
  unfolding scan_resp_command
  scan_bulk plain letters =
      let here : round_at (around pre s post) (length pre) ≡ return (some (command_name s)) =
        rw letters at round_bulk in
      scan_plain (around pre s post) pre _ 0 plain
      ∙ scan_return (around pre s post) _ (0 + length pre) _
          (let e : 0 + length pre ≡ length pre = omega arith in rw e here)

pub before_zero-append :
    (s t : Bytes) → All (λ c. c ≢ 0) s → before_zero (s ++ t) ≡ s ++ before_zero t
unfolding before_zero
before_zero-append [] t h = refl
before_zero-append (c ∷ s) t (hc, hs) = ground (arith, before_zero-append s t hs)

pub length-before_zero : (s : Bytes) → length (before_zero s) ≤ length s
unfolding before_zero
length-before_zero [] = omega arith
length-before_zero (c ∷ s) = ground (arith, length-before_zero s)

plain_nonzero : (s : Bytes) → All IsPlain s → All (λ c. c ≢ 0) s
plain_nonzero = All-map (λ c h. h.1)

pub around-before_zero :
    (pre s post : Bytes)
    → All IsPlain pre
    → All (λ c. c ≢ 0) s
    → before_zero (around pre s post) ≡ around pre s (before_zero post)
around-before_zero pre s post plain clean =
    let head : All (λ c. c ≢ 0) (bulk_head (length s)) = (
      ground arith,
      All-append (λ c. c ≢ 0) (display (length s)) crlf
          (plain_nonzero _ (display-IsPlain (length s))) (ground arith),
    ) in
    before_zero-append pre _ (plain_nonzero pre plain)
    ∙ ap (λ t. pre ++ t)
        (before_zero-append (bulk_head (length s)) _ head
          ∙ ap (λ t. bulk_head (length s) ++ t) (before_zero-append s post clean))

pub classify_scanned :
    (d : Decoder) (req_data payload : Bytes) (c : Cow)
    → before_zero req_data ≡ payload
    → 4 ≤ length payload
    → scan_resp_command payload ≡ some c
    → classify_command d req_data ≡ c
unfolding classify_command
classify_scanned d req_data payload c cut long found = rw cut (ground arith)

-- Bytes that hold a bulk string of letters behind plain bytes are classified by it, whatever
-- follows.
pub classify_bulk :
    (d : Decoder) (pre s post : Bytes)
    → All IsPlain pre
    → all is_alphabetic s ≡ true
    → 0 < length s
    → length (around pre s post) < 2 ^ 64
    → classify_command d (around pre s post) ≡ command_name s
classify_bulk d pre s post plain letters some_byte small =
    let cut = length-before_zero post in
    let size = length-around pre s post in
    let size' = length-around pre s (before_zero post) in
    classify_scanned d _ (around pre s (before_zero post)) _
      (around-before_zero pre s post plain (plain_nonzero s (letters-IsPlain s letters)))
      (omega (arith, some_digit (length s)))
      (scan_bulk pre s (before_zero post) some_byte (omega arith) plain letters)
