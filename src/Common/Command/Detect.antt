-- ===== src/Common/Command/Detect.antt =====
-- What `RedisCommand::detect` finds, and what it can never find (aya-test-common/src/lib.rs).
use aya_e_bpf.Prelude.{
  ℕ, ◌≤◌, ◌≡◌, ◌≢◌, refl, sym, ap, ◌∙◌, inl, inr, ◌↔◌, Bool, true, false, ◌||◌, [], ◌∷◌, ◌++◌,
  append_assoc, take, drop, length, length-append, take-length, take-append-drop, arith, leb,
  Bool-cases,
}
use aya_e_bpf.Prelude.Bytes.{Bytes, codes, same, same→eq, same_refl}
use aya_e_bpf.Common.Command.{
  RedisCommand, unknown, hget, hset, mget, mset, name, windows, any_same, has_keyword, find_command,
  table, detect,
}

-- The keyword stands somewhere in the payload.
abbrev pub Occurs : Bytes → Bytes → Type 0
Occurs keyword payload =
    (before : Bytes) × (after : Bytes) × (payload ≡ before ++ (keyword ++ after))

Occurs-cons :
    (keyword payload : Bytes) (x : ℕ) → Occurs keyword payload → Occurs keyword (x ∷ payload)
Occurs-cons keyword payload x (before, after, e) = (x ∷ before, after, ap (◌∷◌ x) e)

window-Occurs :
    (keyword payload : Bytes)
    → same (take (length keyword) payload) keyword ≡ true
    → Occurs keyword payload
window-Occurs keyword payload h =
    let whole : take (length keyword) payload ≡ keyword = same→eq _ keyword h in
    (
      [],
      drop (length keyword) payload,
      sym (take-append-drop (length keyword) payload)
          ∙ ap (λ k. k ++ drop (length keyword) payload) whole,
    )

any_same-Occurs :
    (keyword payload : Bytes)
    → any_same keyword (windows (length keyword) payload) ≡ true
    → Occurs keyword payload
unfolding any_same windows
any_same-Occurs keyword [] h = cc
any_same-Occurs keyword (x ∷ xs) h = elim (Bool-cases (leb (length keyword) (length (x ∷ xs)))) [
  | inr short ↦ cc (rw short at h)
  | inl fits ↦ elim (Bool-cases (same (take (length keyword) (x ∷ xs)) keyword)) [
    | inl here ↦ window-Occurs keyword (x ∷ xs) here
    | inr later ↦ Occurs-cons keyword xs x (any_same-Occurs keyword xs (rw (fits, later) at h))
  ]
]

prefix_fits : (keyword after : Bytes) → leb (length keyword) (length (keyword ++ after)) ≡ true
prefix_fits keyword after = ground (arith, length-append keyword after)

suffix_fits :
    (keyword before after : Bytes)
    → leb (length keyword) (length (before ++ (keyword ++ after))) ≡ true
suffix_fits keyword before after =
    ground (arith, length-append keyword after, length-append before (keyword ++ after))

prefix-any_same :
    (k : ℕ) (ks after : Bytes)
    → any_same (k ∷ ks) (windows (length (k ∷ ks)) ((k ∷ ks) ++ after)) ≡ true
unfolding any_same windows
prefix-any_same k ks after =
    rw (prefix_fits (k ∷ ks) after, take-length (k ∷ ks) after, same_refl (k ∷ ks))

or-true : (b : Bool) → (b || true) ≡ true
or-true true = refl
or-true false = refl

Occurs-any_same :
    (k : ℕ) (ks before after : Bytes)
    → any_same (k ∷ ks) (windows (length (k ∷ ks)) (before ++ ((k ∷ ks) ++ after))) ≡ true
unfolding any_same windows
Occurs-any_same k ks [] after = prefix-any_same k ks after
Occurs-any_same k ks (x ∷ before) after =
    rw (suffix_fits (k ∷ ks) (x ∷ before) after, Occurs-any_same k ks before after, or-true)

-- The search by windows finds a non-empty keyword exactly when it occurs.
pub has_keyword_iff :
    (k : ℕ) (ks payload : Bytes) → (has_keyword payload (k ∷ ks) ≡ true) ↔ Occurs (k ∷ ks) payload
unfolding has_keyword
has_keyword_iff k ks payload = (
  any_same-Occurs (k ∷ ks) payload,
  λ (before, after, e). rw e (Occurs-any_same k ks before after),
)

-- A keyword that ends in another one cannot occur without it.
has_keyword_skip :
    (b k : ℕ) (ks payload : Bytes)
    → has_keyword payload (b ∷ k ∷ ks) ≡ true
    → has_keyword payload (k ∷ ks) ≡ true
has_keyword_skip b k ks payload h =
    let (before, after, e) = (has_keyword_iff b (k ∷ ks) payload).0 h in
    (has_keyword_iff k ks payload).1
      (before ++ b ∷ [], after, e ∙ sym (append_assoc before (b ∷ []) _))

-- `detect` never returns HGET, HSET, MGET or MSET: each of these names ends in GET or SET, which
-- stands earlier in the table and occurs wherever the longer name does.
pub detect_unreachable :
    (payload : Bytes)
    → (detect payload ≢ hget)
      × (detect payload ≢ hset)
      × (detect payload ≢ mget)
      × (detect payload ≢ mset)
unfolding detect
detect_unreachable payload =
    let gets = has_keyword_skip b'H' b'G' (codes "ET") payload in
    let sets = has_keyword_skip b'H' b'S' (codes "ET") payload in
    let mgets = has_keyword_skip b'M' b'G' (codes "ET") payload in
    let msets = has_keyword_skip b'M' b'S' (codes "ET") payload in
    (ground (arith, gets), ground (arith, sets), ground (arith, mgets), ground (arith, msets))

has_name :
    (payload : Bytes) (cmd : RedisCommand)
    → cmd ≢ unknown
    → detect payload ≡ cmd
    → has_keyword payload (name cmd) ≡ true
unfolding detect name
has_name payload cmd known e = ground arith

-- A payload that is classified as a command starts with `*`, has at least 3 bytes, and holds the
-- name of that command.
pub detect_sound :
    (payload : Bytes) (cmd : RedisCommand)
    → cmd ≢ unknown
    → detect payload ≡ cmd
    → (rest : Bytes) × (payload ≡ b'*' ∷ rest) × (2 ≤ length rest) × Occurs (name cmd) payload
unfolding detect
detect_sound [] cmd known e = ground arith
detect_sound (b ∷ rest) cmd known e = (
  rest,
  ground arith,
  ground arith,
  unfold has_keyword in any_same-Occurs (name cmd) (b ∷ rest) (has_name (b ∷ rest) cmd known e),
)

keyword_of_Occurs :
    (cmd : RedisCommand) (payload : Bytes)
    → Occurs (name cmd) payload
    → has_keyword payload (name cmd) ≡ true
unfolding name
keyword_of_Occurs unknown payload found = (has_keyword_iff _ _ payload).1 found
keyword_of_Occurs _ payload found = (has_keyword_iff _ _ payload).1 found

listed_found :
    (payload : Bytes) (cmd : RedisCommand)
    → cmd ≢ unknown
    → has_keyword payload (name cmd) ≡ true
    → find_command payload table ≢ unknown
unfolding find_command name
listed_found payload cmd known found = ground arith

-- Every payload that starts with `*`, has at least 3 bytes and holds the name of a command is
-- classified as some command.
pub detect_complete :
    (rest : Bytes) (cmd : RedisCommand)
    → 2 ≤ length rest
    → cmd ≢ unknown
    → Occurs (name cmd) (b'*' ∷ rest)
    → detect (b'*' ∷ rest) ≢ unknown
unfolding detect
detect_complete rest cmd long known found =
    let listed = listed_found (b'*' ∷ rest) cmd known (keyword_of_Occurs cmd _ found) in
    ground (arith, listed)

-- A payload is classified as some command exactly when it starts with `*`, has at least 3 bytes, and holds
-- the name of a command.
pub detect_iff :
    (payload : Bytes)
    → (detect payload ≢ unknown) ↔ (
        (rest : Bytes) × (cmd : RedisCommand) × (payload ≡ b'*' ∷ rest)
        × (2 ≤ length rest)
        × (cmd ≢ unknown)
        × Occurs (name cmd) payload)
detect_iff payload = (
  λ known.
      let (rest, starts, long, found) = detect_sound payload (detect payload) known refl in
      (rest, detect payload, starts, long, known, found),
  λ (rest, cmd, starts, long, known, found).
      rw starts (detect_complete rest cmd long known (rw (← starts) found)),
)
