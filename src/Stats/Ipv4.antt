-- ===== src/Stats/Ipv4.antt =====
-- Different addresses have different texts (aya-test/src/stats.rs).
use aya_e_bpf.Prelude.{ℕ, ◌^◌, ◌<◌, ◌≡◌, sym, ap, ◌∙◌, [], ◌∷◌, ◌++◌, some, arith}
use aya_e_bpf.Prelude.Bytes.{Bytes, is_digit}
use aya_e_bpf.Prelude.Decimal.{display, parse, AreDigits, display-AreDigits, parse-display}
use aya_e_bpf.Stats.Format.{ipv4_str}

-- A run of digits ends at the first dot.
cut_at_dot :
    (s t r q : Bytes)
    → AreDigits s
    → AreDigits t
    → s ++ b'.' ∷ r ≡ t ++ b'.' ∷ q
    → (s ≡ t) × (r ≡ q)
unfolding is_digit
cut_at_dot [] [] r q hs ht e = ground arith
cut_at_dot [] (d ∷ t) r q hs (hd, ht) e = absurd (ground arith)
cut_at_dot (c ∷ s) [] r q (hc, hs) ht e = absurd (ground arith)
cut_at_dot (c ∷ s) (d ∷ t) r q (hc, hs) (hd, ht) e = ground (arith, cut_at_dot s t r q hs ht)

display-injective : (a b : ℕ) → a < 2 ^ 8 → b < 2 ^ 8 → display a ≡ display b → a ≡ b
display-injective a b ha hb e =
    let read : some a ≡ some b =
      sym (parse-display 255 a (omega arith))
      ∙ ap (parse 255) e
      ∙ parse-display 255 b (omega arith) in
    cc

byte_at_dot :
    (a b : ℕ) (r q : Bytes)
    → a < 2 ^ 8
    → b < 2 ^ 8
    → display a ++ b'.' ∷ r ≡ display b ++ b'.' ∷ q
    → (a ≡ b) × (r ≡ q)
byte_at_dot a b r q ha hb e =
    let (same, rest) =
      cut_at_dot (display a) (display b) r q (display-AreDigits a) (display-AreDigits b) e in
    (display-injective a b ha hb same, rest)

-- Two IPv4 addresses with the same dotted text are the same address.
pub ipv4_str-injective : (a b : ℕ) → a < 2 ^ 32 → b < 2 ^ 32 → ipv4_str a ≡ ipv4_str b → a ≡ b
unfolding ipv4_str
ipv4_str-injective a b ha hb e =
    let (first, e₁) = byte_at_dot _ _ _ _ (omega arith) (omega arith) e in
    let (second, e₂) = byte_at_dot _ _ _ _ (omega arith) (omega arith) e₁ in
    let (third, e₃) = byte_at_dot _ _ _ _ (omega arith) (omega arith) e₂ in
    let last = display-injective _ _ (omega arith) (omega arith) e₃ in omega arith
