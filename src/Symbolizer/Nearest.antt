-- ===== src/Symbolizer/Nearest.antt =====
-- Which symbol `resolve_kernel` names (aya-test/src/symbolizer.rs).
use aya_e_bpf.Prelude.{
  ℕ, zero, suc, ◌+◌, ◌≤◌, ◌<◌, ◌≡◌, refl, inl, inr, [], ◌∷◌, ◌++◌, get_elem?, some, arith, All,
}
use aya_e_bpf.Prelude.Bytes.{Bytes, codes}
use aya_e_bpf.Symbolizer.{
  Symbols, addresses, next_addr, kernel_name, unknown_kernel, resolve_kernel,
}
use aya_e_bpf.Symbolizer.Index.{get_elem?-some, Found-cases, search_index}
use aya_e_bpf.Symbolizer.Search.{
  ok_at, err_at, IsSorted, IsStrict, BinarySearch, All-get_elem?, take-get_elem?,
}

pub get_elem?-addresses :
    (syms : Symbols) (i : ℕ) (s : ℕ × Bytes)
    → get_elem? syms i ≡ some s
    → get_elem? (addresses syms) i ≡ some s.0
get_elem?-addresses [] i s e = absurd (ground arith)
get_elem?-addresses (x ∷ xs) zero s e = ground arith
get_elem?-addresses (x ∷ xs) (suc i) s e = get_elem?-addresses xs i s e

addresses-get_elem? :
    (syms : Symbols) (i a : ℕ)
    → get_elem? (addresses syms) i ≡ some a
    → (s : ℕ × Bytes) × (get_elem? syms i ≡ some s) × (s.0 ≡ a)
addresses-get_elem? [] i a e = absurd (ground arith)
addresses-get_elem? (x ∷ xs) zero a e = (x, refl, ground arith)
addresses-get_elem? (x ∷ xs) (suc i) a e = addresses-get_elem? xs i a e

-- The key behind a symbol that covers the address is above it.
pub next_above :
    (syms : Symbols) (ip i c : ℕ)
    → ip < next_addr syms i
    → get_elem? (addresses syms) (i + 1) ≡ some c
    → ip < c
unfolding next_addr
next_above syms ip i c to e =
    let (t, found, same) = addresses-get_elem? syms (i + 1) c e in ground arith

module _ (b : BinarySearch) (syms : Symbols) (ip i : ℕ) (s : ℕ × Bytes)
    (strict : IsStrict (addresses syms)) (here : get_elem? syms i ≡ some s) (from : s.0 ≤ ip)
    (to : ip < next_addr syms i) where
  covered : kernel_name syms ip i ≡ codes "[k] " ++ s.1
  unfolding kernel_name
  covered = ground arith

  -- With the kernel's symbols in strict order, an address that a symbol covers, from its own address up
  -- to the next symbol's, has that symbol's name, however the search chooses.
  pub resolve_kernel-nearest : resolve_kernel b syms ip ≡ codes "[k] " ++ s.1
  unfolding resolve_kernel
  resolve_kernel-nearest =
      elim (search_index (addresses syms) ip i s.0 strict (get_elem?-addresses syms i s here) from
        (λ c e. next_above syms ip i c to e) b) [
          | inl e ↦ rw (e, resolve_kernel) covered
          | inr e ↦ rw (e, resolve_kernel) covered
        ]

module _ (b : BinarySearch) (syms : Symbols) (ip : ℕ) (sorted : IsSorted (addresses syms))
    (below : All (λ a. ip < a) (addresses syms)) where
  insertion_below :
      (j : ℕ)
      → b.search (addresses syms) ip ≡ err_at j
      → resolve_kernel b syms ip ≡ unknown_kernel ip
  unfolding resolve_kernel
  insertion_below zero e = rw (e, resolve_kernel) refl
  insertion_below (suc i) e =
      let (bound, under, _) = b.search_err (addresses syms) ip (suc i) sorted e in
      let (a, there) = get_elem?-some (addresses syms) 0 (omega arith) in
      let less =
        take-get_elem? (λ y. y < ip) (suc i) (addresses syms) 0 a under (omega arith) there in
      let more = All-get_elem? (λ y. ip < y) (addresses syms) 0 a below there in
      absurd (omega arith)

  -- An address below every symbol has no name; it is shown as a number.
  pub resolve_kernel-below : resolve_kernel b syms ip ≡ unknown_kernel ip
  resolve_kernel-below = elim (Found-cases (b.search (addresses syms) ip)) [
    | inl (j, e) ↦
        let found = b.search_ok (addresses syms) ip j sorted e in
        let over = All-get_elem? (λ a. ip < a) (addresses syms) j ip below found in
        absurd (omega arith)
    | inr (j, e) ↦ insertion_below j e
  ]

-- When two symbols have the address that is looked up, and the search returns the first of them, the
-- address is shown as a number, though both have a name.
pub resolve_kernel-alias :
    (b : BinarySearch) (syms : Symbols) (ip i : ℕ) (first second : Bytes)
    → b.search (addresses syms) ip ≡ ok_at i
    → get_elem? syms i ≡ some (ip, first)
    → get_elem? syms (i + 1) ≡ some (ip, second)
    → resolve_kernel b syms ip ≡ unknown_kernel ip
unfolding resolve_kernel kernel_name next_addr
resolve_kernel-alias b syms ip i first second e here after = ground arith
