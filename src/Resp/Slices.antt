-- ===== src/Resp/Slices.antt =====
-- Index arithmetic on the payload of `scan_resp_command` (aya-test/src/resp.rs).
use aya_e_bpf.Prelude.{
  ℕ, zero, suc, ◌+◌, ◌≡◌, refl, sym, ap, ◌∙◌, false, [], ◌∷◌, ◌++◌, drop, length, arith,
}
use aya_e_bpf.Prelude.Bytes.{Bytes, is_digit}
use aya_e_bpf.Prelude.Decimal.{AreDigits}
use aya_e_bpf.Resp.{digit_run, byte_at}

drop-nil : (n : ℕ) → drop {A = ℕ} n [] ≡ []
drop-nil zero = refl
drop-nil (suc n) = refl

pub drop-drop : (a b : ℕ) (s : Bytes) → drop (a + b) s ≡ drop b (drop a s)
drop-drop zero b s = let e : 0 + b ≡ b = omega arith in ap (λ k. drop k s) e
drop-drop (suc a) b [] = drop-nil (suc a + b) ∙ sym (drop-nil b)
drop-drop (suc a) b (c ∷ s) =
    let e : suc a + b ≡ suc (a + b) = omega arith in rw e (drop-drop a b s)

pub drop-length : (s t : Bytes) → drop (length s) (s ++ t) ≡ t
drop-length [] t = refl
drop-length (c ∷ s) t = drop-length s t

pub drop-append : (n : ℕ) (s t : Bytes) → drop (length s + n) (s ++ t) ≡ drop n t
drop-append n s t = drop-drop (length s) n (s ++ t) ∙ ap (drop n) (drop-length s t)

pub byte_at-drop : (a b : ℕ) (s : Bytes) → byte_at s (a + b) ≡ byte_at (drop a s) b
unfolding byte_at
byte_at-drop zero b s = let e : 0 + b ≡ b = omega arith in ap (byte_at s) e
byte_at-drop (suc a) b [] = refl
byte_at-drop (suc a) b (c ∷ s) =
    let e : suc a + b ≡ suc (a + b) = omega arith in rw e (byte_at-drop a b s)

pub byte_at_head : (c : ℕ) (s : Bytes) → byte_at (c ∷ s) 0 ≡ c
unfolding byte_at
byte_at_head c s = refl

pub digit_run-append :
    (ds : Bytes) (c : ℕ) (s : Bytes)
    → AreDigits ds
    → is_digit c ≡ false
    → digit_run (ds ++ c ∷ s) ≡ length ds
unfolding digit_run
digit_run-append [] c s h e = rw e
digit_run-append (d ∷ ds) c s (hd, hs) e = rw (hd, digit_run-append ds c s hs e)
