-- ===== src/Resp/RoundTrip.antt =====
-- The class of a request is its command: `classify_command` against the wire format
-- (aya-test/src/resp.rs).
use aya_e_bpf.Prelude.{
  ℕ, ◌+◌, ◌-◌, ◌^◌, ◌≤◌, ◌<◌, ◌≡◌, ap, ◌∙◌, true, List, [], ◌++◌, take, length, length-take, all,
  arith, append_assoc, append-nil, some, take-append,
}
use aya_e_bpf.Prelude.Bytes.{Bytes, is_alphabetic, upper}
use aya_e_bpf.Prelude.Decimal.{display}
use aya_e_bpf.Resp.{borrowed, as_ref, command_name, try_static, Decoder, classify_command}
use aya_e_bpf.Resp.Static.{command_name-upper, command_name-borrowed}
use aya_e_bpf.Resp.Request.{
  crlf, bulk_head, bulks, array_head, request, captured, array_head-IsPlain,
}
use aya_e_bpf.Resp.Capture.{around, length-around, classify_bulk}

pub take_beyond :
    (n : ℕ) (s t : Bytes) → length s ≤ n → take n (s ++ t) ≡ s ++ take (n - length s) t
take_beyond n s t h =
    let e : n ≡ length s + (n - length s) = omega arith in
    ap (λ k. take k (s ++ t)) e ∙ take-append (n - length s) s t

-- The command's head and name stand whole in the 32 bytes.
abbrev pub Fits : Bytes → List Bytes → Type 0
Fits cmd args =
    length (array_head (length args + 1)) + 1 + length (display (length cmd)) + 2 + length cmd ≤ 32

captured-around :
    (cmd : Bytes) (args : List Bytes) (stale : Bytes)
    → Fits cmd args
    → (post : Bytes) × (captured (request cmd args) stale
        ≡ around (array_head (length args + 1)) cmd post)
captured-around cmd args stale fits =
    let pre : Bytes = array_head (length args + 1) in
    let head : Bytes = pre ++ (bulk_head (length cmd) ++ cmd) in
    let tail : Bytes = crlf ++ (bulks args ++ stale) in
    let split : request cmd args ++ stale ≡ head ++ tail = simp append_assoc in
    let size : length head ≤ 32 = omega (
      arith,
      length-around pre cmd [],
      ap length (ap (λ t. pre ++ (bulk_head (length cmd) ++ t)) (append-nil cmd)),
    ) in
    (
      take (32 - length head) tail,
      ap (take 32) split ∙ take_beyond 32 head tail size ∙ simp append_assoc,
    )

pub captured_small : (req stale : Bytes) → length (captured req stale) < 2 ^ 64
captured_small req stale = omega (arith, length-take 32 (req ++ stale))

classify_captured :
    (d : Decoder) (cmd : Bytes) (args : List Bytes) (stale : Bytes)
    → all is_alphabetic cmd ≡ true
    → 0 < length cmd
    → Fits cmd args
    → classify_command d (captured (request cmd args) stale) ≡ command_name cmd
classify_captured d cmd args stale letters some_byte fits =
    let (post, e) = captured-around cmd args stale fits in
    rw e (
      classify_bulk d (array_head (length args + 1)) cmd post (array_head-IsPlain (length args + 1))
        letters some_byte (omega (arith, ap length e, captured_small (request cmd args) stale)))

-- For a request whose command is letters only and stands whole in the captured 32 bytes, the class is
-- the command's name in upper case, whatever the arguments are, and whatever the buffer held behind
-- the request.
pub classify-request :
    (d : Decoder) (cmd : Bytes) (args : List Bytes) (stale : Bytes)
    → all is_alphabetic cmd ≡ true
    → 0 < length cmd
    → Fits cmd args
    → as_ref (classify_command d (captured (request cmd args) stale)) ≡ upper cmd
classify-request d cmd args stale letters some_byte fits =
    ap as_ref (classify_captured d cmd args stale letters some_byte fits) ∙ command_name-upper cmd

-- For a request whose command is one of the static names, letters only, and stands whole in the
-- captured 32 bytes, the class is that static text: nothing is allocated.
pub classify-request_static :
    (d : Decoder) (cmd text : Bytes) (args : List Bytes) (stale : Bytes)
    → try_static cmd ≡ some text
    → all is_alphabetic cmd ≡ true
    → 0 < length cmd
    → Fits cmd args
    → classify_command d (captured (request cmd args) stale) ≡ borrowed cmd
classify-request_static d cmd text args stale listed letters some_byte fits =
    classify_captured d cmd args stale letters some_byte fits
    ∙ command_name-borrowed cmd text listed
