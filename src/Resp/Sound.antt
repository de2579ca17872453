-- ===== src/Resp/Sound.antt =====
-- What a name returned by `scan_resp_command` can be, on any payload (aya-test/src/resp.rs).
use aya_e_bpf.Prelude.{
  ℕ, ◌+◌, ◌-◌, ◌%◌, ◌^◌, ◌≤◌, ◌<◌, min, ◌≡◌, refl, sym, ap, ◌∙◌, ◌⊎◌, inl, inr, true, Bool-cases,
  Option, Option-cases, [], ◌∷◌, ◌++◌, take, drop, length, length-take, length-drop,
  take-append-drop, all, arith, some, ◌==◌,
}
use aya_e_bpf.Prelude.Bytes.{Bytes, is_alphabetic, is_upper, upper}
use aya_e_bpf.Prelude.Decimal.{parse, u64_max}
use aya_e_bpf.Resp.{
  Cow, as_ref, Round, return, next, slice, read_command, round_at, digit_run, scan_from,
  scan_resp_command,
}
use aya_e_bpf.Resp.Static.{command_name-upper, upper-is_upper}

-- `raw` is a non-empty run of letters in the payload, and `name` its upper-case copy.
pub record IsName (payload : Bytes) (name : Bytes) : Type 0 where
  pub before : Bytes
  pub raw : Bytes
  pub after : Bytes
  pub stands : payload ≡ before ++ (raw ++ after)
  pub letters : all is_alphabetic raw ≡ true
  pub some_letter : 0 < length raw
  pub copied : name ≡ upper raw

slice_stands :
    (s : Bytes) (from to : ℕ)
    → s ≡ take from s ++ (slice s from to ++ drop (to - from) (drop from s))
slice_stands s from to =
    sym (take-append-drop from s)
    ∙ ap (λ t. take from s ++ t) (sym (take-append-drop (to - from) (drop from s)))

slice_some : (s : Bytes) (from to : ℕ) → from < to → to ≤ length s → 0 < length (slice s from to)
slice_some s from to h k = omega (arith, length-take (to - from) (drop from s), length-drop from s)

read_command_sound :
    (payload : Bytes) (from len : ℕ) (c : Cow)
    → read_command payload from len ≡ return (some c)
    → IsName payload (as_ref c)
unfolding read_command
read_command_sound payload from len c h =
    let to : ℕ = min ((from + len) % 2 ^ 64) (length payload) in
    let raw : Bytes = slice payload from to in
    let some_bytes : from < to = ground arith in
    record {
      before = take from payload;
      raw = raw;
      after = drop (to - from) (drop from payload);
      stands = slice_stands payload from to;
      letters = ground arith;
      some_letter = slice_some payload from to some_bytes (omega arith);
      copied = ground (arith, command_name-upper raw);
    }

round_sound :
    (payload : Bytes) (i : ℕ) (c : Cow)
    → round_at payload i ≡ return (some c)
    → IsName payload (as_ref c)
unfolding round_at
round_sound payload i c h =
    let digit_end : ℕ = i + 1 + digit_run (drop (i + 1) payload) in
    elim (Option-cases (parse u64_max (slice payload (i + 1) digit_end))) [
      | inl bad ↦ absurd (ground arith)
      | inr (len, good) ↦ read_command_sound payload (digit_end + 2) len c (ground arith)
    ]

Round-cases : (r : Round) → (r ≡ next) ⊎ ((o : Option Cow) × (r ≡ return o))
Round-cases (return o) = inr (o, refl)
Round-cases next = inl refl

scan_sound :
    (payload rest : Bytes) (i : ℕ) (c : Cow)
    → scan_from payload rest i ≡ some c
    → IsName payload (as_ref c)
unfolding scan_from
scan_sound payload [] i c h = absurd (ground arith)
scan_sound payload (b ∷ rest) i c h = elim (Bool-cases (b == b'$')) [
  | inr skip ↦ scan_sound payload rest (i + 1) c (rw skip at h)
  | inl hit ↦ elim (Round-cases (round_at payload i)) [
    | inl goes_on ↦ scan_sound payload rest (i + 1) c (rw (hit, goes_on) at h)
    | inr (r, ends) ↦ round_sound payload i c (ends ∙ ap return (rw (hit, ends) at h))
  ]
]

-- A name that the scan returns is not empty, has upper-case letters only, and is the upper-case copy
-- of bytes that stand in the payload.
pub scan_resp_command_sound :
    (payload : Bytes) (c : Cow)
    → scan_resp_command payload ≡ some c
    → IsName payload (as_ref c) × (all is_upper (as_ref c) ≡ true)
unfolding scan_resp_command
scan_resp_command_sound payload c h =
    let found = scan_sound payload payload 0 c h in
    (found, rw found.copied (upper-is_upper found.raw found.letters))
