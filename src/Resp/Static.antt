-- ===== src/Resp/Static.antt =====
-- The fast path of `scan_resp_command` against its slow path (aya-test/src/resp.rs).
use aya_e_bpf.Prelude.{
  ◌≡◌, refl, Bool, true, ◌&&◌, List, [], ◌∷◌, all, some, arith, Bool-cases, Option-cases, inl, inr,
}
use aya_e_bpf.Prelude.Bytes.{
  Bytes, same, same→eq, is_alphabetic, is_upper, upper, to_upper_of_upper, is_upper-to_upper,
}
use aya_e_bpf.Resp.{borrowed, as_ref, static_arms, find_arm, try_static, command_name}

-- An arm gives its own literal, in upper-case letters.
arm_ok : Bytes × Bytes → Bool
unfolding same is_upper
arm_ok (literal, text) = same literal text && all is_upper literal

find_arm_sound :
    (arms : List (Bytes × Bytes)) (bytes text : Bytes)
    → all arm_ok arms ≡ true
    → find_arm bytes arms ≡ some text
    → (text ≡ bytes) × (all is_upper bytes ≡ true)
unfolding find_arm
find_arm_sound [] bytes text ok found = cc
find_arm_sound ((literal, t) ∷ arms) bytes text ok found = elim (Bool-cases (same bytes literal)) [
  | inl here ↦ unfold arm_ok in ground (arith, same→eq bytes literal here, same→eq literal t)
  | inr later ↦ find_arm_sound arms bytes text (unfold arm_ok in ground arith) (rw later at found)
]

static_arms_ok : all arm_ok static_arms ≡ true
unfolding arm_ok
static_arms_ok = refl

upper_of_upper : (s : Bytes) → all is_upper s ≡ true → upper s ≡ s
upper_of_upper [] h = refl
upper_of_upper (c ∷ s) h = ground (arith, to_upper_of_upper c, upper_of_upper s)

pub upper-is_upper : (s : Bytes) → all is_alphabetic s ≡ true → all is_upper (upper s) ≡ true
upper-is_upper [] h = refl
upper-is_upper (c ∷ s) h = ground (arith, is_upper-to_upper c, upper-is_upper s)

try_static_sound :
    (bytes text : Bytes) → try_static bytes ≡ some text → (text ≡ bytes) × (upper bytes ≡ bytes)
unfolding try_static
try_static_sound bytes text found =
    let (same_text, letters) = find_arm_sound static_arms bytes text static_arms_ok found in
    (same_text, upper_of_upper bytes letters)

-- The table of static names changes no result: with or without it the name of a command slice is
-- the upper-case copy of the slice.
pub command_name-upper : (bytes : Bytes) → as_ref (command_name bytes) ≡ upper bytes
unfolding command_name
command_name-upper bytes = elim (Option-cases (try_static bytes)) [
  | inl missed ↦ ground arith
  | inr (text, found) ↦ ground (arith, try_static_sound bytes text found)
]

-- A slice that is one of the static names is returned with no allocation.
pub command_name-borrowed :
    (bytes text : Bytes) → try_static bytes ≡ some text → command_name bytes ≡ borrowed bytes
unfolding command_name
command_name-borrowed bytes text found = ground (arith, try_static_sound bytes text found)
