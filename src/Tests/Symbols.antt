-- ===== src/Tests/Symbols.antt =====
-- The symbolizer and the folding of stacks (aya-test/src/symbolizer.rs, aya-test/src/flamegraph.rs) on
-- two symbols, with a linear search for the binary one.
use aya_e_bpf.Prelude.{
  ℕ, suc, ◌≤◌, ◌<◌, ◌≡◌, refl, List, [], ◌∷◌, map, take, drop, length, get_elem?, none, some, arith,
  All, All-map, ltb, ◌==◌, if◌then◌else◌, Bool-cases, inl, inr, replicate,
}
use aya_e_bpf.Prelude.Assoc.{bytes_eq, lookup}
use aya_e_bpf.Prelude.Bytes.{Bytes, codes}
use aya_e_bpf.Prelude.Int.{pos, negsuc}
use aya_e_bpf.Common.Event.{StackEvent}
use aya_e_bpf.Common.StackLayout.{encode_stack, IsStackImage}
use aya_e_bpf.Reader.Stacks.{stack_round, stack_round-encode}
use aya_e_bpf.Symbolizer.{Symbols, next_addr, resolve_kernel}
use aya_e_bpf.Symbolizer.Cached.{name_of, IsCoherent, resolve_all, resolve_all-name_of}
use aya_e_bpf.Symbolizer.Index.{Found-cases}
use aya_e_bpf.Symbolizer.Nearest.{resolve_kernel-nearest}
use aya_e_bpf.Symbolizer.Search.{Found, ok_at, err_at, IsSorted, BinarySearch}
use aya_e_bpf.Symbolizer.Maps.{mapping_of-covering}
use aya_e_bpf.Symbolizer.User.{Binaries, Symbolizer, mapping_of}

abbrev behind : Found → Found
behind (ok_at i) = ok_at (suc i)
behind (err_at i) = err_at (suc i)

-- The first match, or the first larger key.
abbrev linear : List ℕ → ℕ → Found
linear [] x = err_at 0
linear (k ∷ ks) x = if ltb k x then behind (linear ks x) else if k == x then ok_at 0 else err_at 0

pub linear_ok : (keys : List ℕ) (x i : ℕ) → linear keys x ≡ ok_at i → get_elem? keys i ≡ some x
linear_ok [] x i e = absurd (ground arith)
linear_ok (k ∷ ks) x i e = elim (Bool-cases (ltb k x)) [
  | inl less ↦ elim (Found-cases (linear ks x)) [
    | inl (j, f) ↦
        let here : suc j ≡ i = cc (rw (less, f, linear) at e) in rw (← here) (linear_ok ks x j f)
    | inr (j, f) ↦ absurd (ground arith)
  ]
  | inr not_less ↦ elim (Bool-cases (k == x)) [
    | inl equal ↦ let here : 0 ≡ i = ground arith in rw (← here) (ground arith)
    | inr apart ↦ absurd (ground arith)
  ]
]

pub linear_err :
    (keys : List ℕ) (x i : ℕ)
    → IsSorted keys
    → linear keys x ≡ err_at i
    → (i ≤ length keys) × All (λ y. y < x) (take i keys) × All (λ y. x < y) (drop i keys)
linear_err [] x i h e = let here : 0 ≡ i = ground arith in rw (← here) (ground arith)
linear_err (k ∷ ks) x i (above, h) e = elim (Bool-cases (ltb k x)) [
  | inl less ↦ elim (Found-cases (linear ks x)) [
    | inl (j, f) ↦ absurd (ground arith)
    | inr (j, f) ↦
        let here : suc j ≡ i = cc (rw (less, f, linear) at e) in
        let (bound, under, over) = linear_err ks x j h f in
        rw (← here) (omega arith, (ground arith, under), over)
  ]
  | inr not_less ↦ elim (Bool-cases (k == x)) [
    | inl equal ↦ absurd (ground arith)
    | inr apart ↦
        let here : 0 ≡ i = ground arith in
        let larger : x < k = ground arith in
        rw (← here) (omega arith, tt, (larger, All-map (λ y hy. omega arith) ks above))
  ]
]

abbrev pub search : BinarySearch
search = record {
  search = linear;
  search_ok = λ keys x i sorted e. linear_ok keys x i e;
  search_err = linear_err;
}

abbrev syms : Symbols
syms = (16, codes "start") ∷ (32, codes "stop") ∷ []

resolve_kernel-nearest_example : resolve_kernel search syms 20 ≡ codes "[k] start"
unfolding next_addr
resolve_kernel-nearest_example =
    resolve_kernel-nearest search syms 20 0 (16, codes "start") (ground arith) refl (ground arith)
      (ground arith)

abbrev lines : List Bytes
lines = codes "20 T stop" ∷ codes "bad" ∷ codes "10 T start" ∷ []

abbrev pub binaries : Binaries
binaries = record { read = λ path. none; parse = λ image. none }

abbrev symbolizer : Symbolizer
symbolizer = record {
  mappings = record { start = 64; end = 128; offset = 0; path = codes "/bin/redis" } ∷ [];
  symbol_cache = [];
  ksyms = syms;
}

symbolizer-IsCoherent : IsCoherent binaries symbolizer
unfolding lookup
symbolizer-IsCoherent path table found = absurd (ground arith)

resolve_all-name_of_example :
    (resolve_all search binaries symbolizer (70 ∷ 5 ∷ [])).1
    ≡ map (name_of search binaries symbolizer.mappings) (70 ∷ 5 ∷ [])
resolve_all-name_of_example =
    resolve_all-name_of search binaries symbolizer (70 ∷ 5 ∷ []) symbolizer-IsCoherent

abbrev pub sampled : StackEvent
sampled = record {
  pid = 7;
  cpu = 0;
  kstack_len = pos 1;
  ustack_len = negsuc 0;
  timestamp_ns = 1000;
  kstack_ips = 20 ∷ replicate 19 0;
  ustack_ips = replicate 20 0;
}

mapping_of-covering_example :
    mapping_of search symbolizer.mappings 70
    ≡ some (record { start = 64; end = 128; offset = 0; path = codes "/bin/redis" })
mapping_of-covering_example =
    mapping_of-covering search symbolizer.mappings 70 0
      (record { start = 64; end = 128; offset = 0; path = codes "/bin/redis" }) (ground arith) refl
      (ground arith) (ground arith) (λ c e. absurd (ground arith))

pub sampled-IsStackImage : IsStackImage sampled
sampled-IsStackImage = ground arith

stack_round-encode_example :
    stack_round (map encode_stack (sampled ∷ [])) (sampled ∷ []) ≡ sampled ∷ sampled ∷ []
stack_round-encode_example =
    stack_round-encode (sampled ∷ []) (sampled ∷ []) (sampled-IsStackImage, tt)
