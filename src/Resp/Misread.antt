-- ===== src/Resp/Misread.antt =====
-- A command whose name is not letters only is passed over, and the next letters-only bulk string is
-- taken for the command (aya-test/src/resp.rs).
use aya_e_bpf.Prelude.{
  ◌+◌, ◌-◌, ◌≤◌, ◌^◌, ◌<◌, ◌≡◌, ◌≢◌, sym, ap, ◌∙◌, true, false, List, [], ◌∷◌, ◌++◌, length,
  length-append, all, arith, append_assoc, append-nil, take, All, All-append, All-map, some,
}
use aya_e_bpf.Prelude.Bytes.{Bytes, is_alphabetic, upper}
use aya_e_bpf.Prelude.Decimal.{display}
use aya_e_bpf.Resp.{
  next, return, round_at, scan_from, command_name, before_zero, scan_resp_command, Decoder,
  classify_command, as_ref,
}
use aya_e_bpf.Resp.RoundTrip.{take_beyond, captured_small}
use aya_e_bpf.Resp.Static.{command_name-upper}
use aya_e_bpf.Resp.Request.{
  array_head, array_head-IsPlain, bulks, request, captured, crlf, bulk_head, IsPlain,
  display-IsPlain, letters-IsPlain,
}
use aya_e_bpf.Resp.Capture.{
  around, length-around, length-before_zero, around-before_zero, before_zero-append, round_bulk,
  scan_plain, scan_return, scan_next, classify_scanned,
}

module _ (pre s gap key post : Bytes) (plain_pre : All IsPlain pre) (plain_s : All IsPlain s)
    (plain_gap : All IsPlain gap) (not_letters : all is_alphabetic s ≡ false)
    (letters : all is_alphabetic key ≡ true) (some_byte : 0 < length s)
    (some_letter : 0 < length key) where
  -- Two bulk strings, `s` and then `key`.
  abbrev both : Bytes → Bytes
  both end = around pre s (gap ++ around [] key end)

  before_key : Bytes
  before_key = pre ++ (bulk_head (length s) ++ (s ++ gap))

  both-around : (end : Bytes) → both end ≡ around before_key key end
  unfolding before_key
  both-around end = simp append_assoc

  passed : Bytes
  passed = display (length s) ++ (crlf ++ (s ++ gap))

  passed-IsPlain : All IsPlain passed
  unfolding passed
  passed-IsPlain =
      All-append IsPlain (display (length s)) _ (display-IsPlain (length s))
        (All-append IsPlain crlf _ (ground arith) (All-append IsPlain s gap plain_s plain_gap))

  length-passed : length before_key ≡ length pre + 1 + length passed
  unfolding passed before_key
  length-passed = omega (
    arith,
    length-append pre (bulk_head (length s) ++ (s ++ gap)),
    length-append (display (length s) ++ crlf) (s ++ gap),
    length-append (display (length s)) crlf,
    length-append (display (length s)) (crlf ++ (s ++ gap)),
  )

  rest-passed :
      (end : Bytes)
      → bulk_head (length s) ++ (s ++ (gap ++ around [] key end))
        ≡ b'$' ∷ (passed ++ around [] key end)
  unfolding passed
  rest-passed end = simp append_assoc

  scan_key :
      (end : Bytes)
      → length (both end) < 2 ^ 64
      → scan_resp_command (both end) ≡ some (command_name key)
  unfolding scan_resp_command
  scan_key end small =
      let over : round_at (both end) (length pre) ≡ next =
        rw not_letters at (round_bulk pre s _ some_byte small) in
      let small' : length (around before_key key end) < 2 ^ 64 = rw (← both-around end) small in
      let there : round_at (both end) (length before_key) ≡ return (some (command_name key)) =
        rw (both-around end) (rw letters at (round_bulk before_key key end some_letter small')) in
      let at_s : 0 + length pre ≡ length pre = omega arith in
      let at_key : length pre + 1 + length passed ≡ length before_key = sym length-passed in
      scan_plain (both end) pre _ 0 plain_pre
      ∙ ap (λ i. scan_from (both end) (bulk_head (length s) ++ (s ++ (gap ++ around [] key end))) i)
          at_s
      ∙ ap (λ t. scan_from (both end) t (length pre)) (rest-passed end)
      ∙ scan_next (both end) (passed ++ around [] key end) (length pre) over
      ∙ scan_plain (both end) passed (around [] key end) (length pre + 1) passed-IsPlain
      ∙ ap (λ i. scan_from (both end) (around [] key end) i) at_key
      ∙ scan_return (both end) _ (length before_key) _ there

  clean : (t : Bytes) → All IsPlain t → All (λ c. c ≢ 0) t
  clean = All-map (λ c h. h.1)

  cut_both : before_zero (both post) ≡ both (before_zero post)
  cut_both =
      around-before_zero pre s (gap ++ around [] key post) plain_pre (clean s plain_s)
      ∙ ap (λ t. around pre s t)
          (before_zero-append gap _ (clean gap plain_gap)
            ∙ ap (λ t. gap ++ t)
                (around-before_zero [] key post tt (clean key (letters-IsPlain key letters))))

  -- A request whose command has a byte that is no letter is classified by its first argument, if that
  -- is letters only.
  pub classify_by_key :
      (d : Decoder)
      → length (both post) < 2 ^ 64
      → classify_command d (both post) ≡ command_name key
  classify_by_key d small =
      let end : Bytes = before_zero post in
      let size = length-around pre s (gap ++ around [] key end) in
      let size' = length-around pre s (gap ++ around [] key post) in
      let keys = length-around [] key end in
      let keys' = length-around [] key post in
      let gaps = length-append gap (around [] key end) in
      let gaps' = length-append gap (around [] key post) in
      let shorter = length-before_zero post in
      classify_scanned d (both post) (both end) _ cut_both (omega arith)
        (scan_key end (omega arith))

-- The heads and texts of the command and its first argument stand whole in the 32 bytes.
abbrev pub FitsTwo : Bytes → Bytes → List Bytes → Type 0
FitsTwo cmd key args =
    length (array_head (length (key ∷ args) + 1))
      + 1
      + length (display (length cmd))
      + 2
      + length cmd
      + 2
      + 1
      + length (display (length key))
      + 2
      + length key
    ≤ 32

captured-both :
    (cmd key : Bytes) (args : List Bytes) (stale : Bytes)
    → FitsTwo cmd key args
    → (post : Bytes) × (captured (request cmd (key ∷ args)) stale
        ≡ around (array_head (length (key ∷ args) + 1)) cmd (crlf ++ around [] key post))
captured-both cmd key args stale fits =
    let pre : Bytes = array_head (length (key ∷ args) + 1) in
    let inner : Bytes = crlf ++ (bulk_head (length key) ++ key) in
    let head : Bytes = pre ++ (bulk_head (length cmd) ++ (cmd ++ inner)) in
    let tail : Bytes = crlf ++ (bulks args ++ stale) in
    let split : request cmd (key ∷ args) ++ stale ≡ head ++ tail = simp append_assoc in
    let size : length head ≤ 32 = omega (
      arith,
      length-around pre cmd inner,
      length-around [] key [],
      ap length (ap (λ t. crlf ++ (bulk_head (length key) ++ t)) (append-nil key)),
    ) in
    (
      take (32 - length head) tail,
      ap (take 32) split ∙ take_beyond 32 head tail size ∙ simp append_assoc,
    )

-- A request whose command holds a byte that is no letter, and no `$` or zero byte, has the class of its
-- first argument in upper case, if that argument is letters only and both stand whole in the captured
-- 32 bytes.
pub classify-request_by_key :
    (d : Decoder) (cmd key : Bytes) (args : List Bytes) (stale : Bytes)
    → All IsPlain cmd
    → all is_alphabetic cmd ≡ false
    → all is_alphabetic key ≡ true
    → 0 < length cmd
    → 0 < length key
    → FitsTwo cmd key args
    → as_ref (classify_command d (captured (request cmd (key ∷ args)) stale)) ≡ upper key
classify-request_by_key d cmd key args stale plain not_letters letters some_byte some_letter fits =
    let (post, e) = captured-both cmd key args stale fits in
    let small = captured_small (request cmd (key ∷ args)) stale in
    rw e (
      ap as_ref (
        classify_by_key (array_head (length (key ∷ args) + 1)) cmd crlf key post
          (array_head-IsPlain (length (key ∷ args) + 1)) plain (ground arith) not_letters letters
          some_byte some_letter d (omega (arith, ap length e, small)))
      ∙ command_name-upper key)
