-- ===== src/Resp/Exact.antt =====
-- The loop of `scan_resp_command` on a well-formed bulk string (aya-test/src/resp.rs).
use aya_e_bpf.Prelude.{
  ℕ, ◌+◌, ◌-◌, ◌%◌, ◌^◌, ◌<◌, min, ◌≡◌, refl, ap, ◌∙◌, ◌∷◌, ◌++◌, drop, length, length-append,
  length-drop, take-length, all, some, arith, if◌then◌else◌,
}
use aya_e_bpf.Prelude.Bytes.{Bytes, is_digit, is_alphabetic}
use aya_e_bpf.Prelude.Decimal.{AreDigits, parse, u64_max}
use aya_e_bpf.Resp.{digit_run, byte_at, slice, return, next, round_at, read_command, command_name}
use aya_e_bpf.Resp.Slices.{drop-drop, drop-length, byte_at-drop, digit_run-append}

module _ (payload ds cmd post : Bytes) (i : ℕ)
    (shape : drop (i + 1) payload ≡ ds ++ b'\r' ∷ b'\n' ∷ (cmd ++ post)) (digits : AreDigits ds)
    (ne : 0 < length ds) (value : parse u64_max ds ≡ some (length cmd))
    (some_letter : 0 < length cmd) (small : length payload < 2 ^ 64) where
  sizes : length payload ≡ i + 1 + length ds + 2 + length cmd + length post
  sizes = omega (
    arith,
    ap length shape,
    length-drop (i + 1) payload,
    length-append ds (b'\r' ∷ b'\n' ∷ (cmd ++ post)),
    length-append cmd post,
  )

  run : digit_run (drop (i + 1) payload) ≡ length ds
  run = rw shape (digit_run-append ds b'\r' _ digits (unfold is_digit in refl))

  byte_behind :
      (k : ℕ) → byte_at payload (i + 1 + length ds + k) ≡ byte_at (b'\r' ∷ b'\n' ∷ (cmd ++ post)) k
  byte_behind k =
      byte_at-drop (i + 1 + length ds) k payload
      ∙ ap (λ s. byte_at s k)
          (drop-drop (i + 1) (length ds) payload ∙ ap (drop (length ds)) shape ∙ drop-length ds _)

  first : byte_at payload (i + 1 + length ds) ≡ b'\r'
  unfolding byte_at
  first =
      let e : i + 1 + length ds ≡ i + 1 + length ds + 0 = omega arith in
      ap (byte_at payload) e ∙ byte_behind 0

  second : byte_at payload (i + 1 + length ds + 1) ≡ b'\n'
  unfolding byte_at
  second = byte_behind 1

  number : slice payload (i + 1) (i + 1 + length ds) ≡ ds
  number =
      let e : i + 1 + length ds - (i + 1) ≡ length ds = omega arith in
      rw (e, shape) (take-length ds _)

  ending :
      min ((i + 1 + length ds + 2 + length cmd) % 2 ^ 64) (length payload)
      ≡ i + 1 + length ds + 2 + length cmd
  ending = omega (arith, sizes)

  letters_behind : slice payload (i + 1 + length ds + 2) (i + 1 + length ds + 2 + length cmd) ≡ cmd
  letters_behind =
      let e : i + 1 + length ds + 2 + length cmd - (i + 1 + length ds + 2) ≡ length cmd =
        omega arith in
      let f : drop (i + 1 + length ds + 2) payload ≡ cmd ++ post =
        drop-drop (i + 1 + length ds) 2 payload
        ∙ ap (drop 2) (
            drop-drop (i + 1) (length ds) payload
            ∙ ap (drop (length ds)) shape
            ∙ drop-length ds _) in
      rw (e, f) (take-length cmd post)

  command_read :
      read_command payload (i + 1 + length ds + 2) (length cmd)
      ≡ (if all is_alphabetic cmd then return (some (command_name cmd)) else next)
  unfolding read_command
  command_read = rw (ending, letters_behind) (ground arith)

  -- A bulk string that fits the payload ends the loop if it is letters, and is passed over if not.
  pub round_exact :
      round_at payload i
      ≡ (if all is_alphabetic cmd then return (some (command_name cmd)) else next)
  unfolding round_at
  round_exact =
      rw (run, first, second, number) (rw (value, run, command_read) (ground (arith, sizes)))
