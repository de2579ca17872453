-- ===== src/Resp/Request.antt =====
-- Requests on the wire, as a Redis client writes them, and the 32 bytes that the probe keeps of one:
-- the specification that `classify_command` is measured against (aya-test/src/resp.rs).
use aya_e_bpf.Prelude.{
  ℕ, ◌+◌, ◌≡◌, ◌≢◌, true, List, [], ◌∷◌, ◌++◌, take, length, all, arith, All, All-append,
}
use aya_e_bpf.Prelude.Bytes.{Bytes, is_digit, is_alphabetic}
use aya_e_bpf.Prelude.Decimal.{display, AreDigits, display-AreDigits}

abbrev pub crlf : Bytes
crlf = b'\r' ∷ b'\n' ∷ []

-- The head of a bulk string: its length, and the line end.
abbrev pub bulk_head : ℕ → Bytes
bulk_head n = b'$' ∷ (display n ++ crlf)

abbrev pub bulk : Bytes → Bytes
bulk s = bulk_head (length s) ++ (s ++ crlf)

abbrev pub bulks : List Bytes → Bytes
bulks [] = []
bulks (s ∷ ss) = bulk s ++ bulks ss

abbrev pub array_head : ℕ → Bytes
array_head n = b'*' ∷ (display n ++ crlf)

abbrev pub request : Bytes → List Bytes → Bytes
request cmd args = array_head (length args + 1) ++ (bulk cmd ++ bulks args)

-- The probe copies 32 bytes; behind the request stands what the buffer held before.
abbrev pub captured : Bytes → Bytes → Bytes
captured req stale = take 32 (req ++ stale)

-- Neither `$` nor the zero byte.
abbrev pub IsPlain : ℕ → Type 0
IsPlain c = (c ≢ b'$') × (c ≢ 0)

digits-IsPlain : (s : Bytes) → AreDigits s → All IsPlain s
digits-IsPlain [] h = tt
digits-IsPlain (c ∷ s) (hc, hs) = (unfold is_digit in ground arith, digits-IsPlain s hs)

pub letters-IsPlain : (s : Bytes) → all is_alphabetic s ≡ true → All IsPlain s
letters-IsPlain [] h = tt
letters-IsPlain (c ∷ s) h = (unfold is_alphabetic in ground arith, letters-IsPlain s (ground arith))

pub display-IsPlain : (n : ℕ) → All IsPlain (display n)
display-IsPlain n = digits-IsPlain (display n) (display-AreDigits n)

pub array_head-IsPlain : (n : ℕ) → All IsPlain (array_head n)
array_head-IsPlain n =
    (ground arith, All-append IsPlain (display n) crlf (display-IsPlain n) (ground arith))
