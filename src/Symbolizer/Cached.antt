-- ===== src/Symbolizer/Cached.antt =====
-- The cache of symbol tables changes no name (aya-test/src/symbolizer.rs).
use aya_e_bpf.Prelude.{
  ℕ, ◌≤◌, ◌<◌, ◌≡◌, refl, ap, ◌∙◌, List, [], ◌∷◌, ◌++◌, map, get_elem?, Option-cases, none, some,
  arith, inl, inr,
}
use aya_e_bpf.Prelude.Assoc.{bytes_eq, lookup, lookup-insert}
use aya_e_bpf.Prelude.Bytes.{Bytes, codes, same_iff}
use aya_e_bpf.Symbolizer.{Symbols, addresses, next_addr, hex}
use aya_e_bpf.Symbolizer.Index.{search_index}
use aya_e_bpf.Symbolizer.Nearest.{get_elem?-addresses, next_above}
use aya_e_bpf.Symbolizer.Search.{BinarySearch, IsStrict}
use aya_e_bpf.Symbolizer.User.{
  MemMapping, Binaries, Symbolizer, read_syms, load_syms, symbol_name, user_name, mapping_of,
  file_offset, resolve,
}

-- The name of an address when every file is read anew.
abbrev pub name_of : BinarySearch → Binaries → List MemMapping → ℕ → Bytes
name_of b bins mappings ip = elim (mapping_of b mappings ip) [
  | none ↦ codes "0x" ++ hex ip
  | some m ↦ user_name b (read_syms bins m.path) m.path (file_offset m ip)
]

-- Addresses resolved one after the other.
unfoldable pub resolve_all : BinarySearch → Binaries → Symbolizer → List ℕ → Symbolizer × List Bytes
resolve_all b bins s [] = (s, [])
resolve_all b bins s (ip ∷ ips) =
    let (t, name) = resolve b bins s ip in
    let (u, names) = resolve_all b bins t ips in (u, name ∷ names)

-- Every table in the cache is that of its file.
abbrev pub IsCoherent : Binaries → Symbolizer → Type 0
IsCoherent bins s =
    (path : Bytes) (syms : Symbols)
    → lookup path s.symbol_cache ≡ some syms
    → syms ≡ read_syms bins path

-- The maps and the kernel's symbols stay as they are.
abbrev pub Keeps : Symbolizer → Symbolizer → Type 0
Keeps s t = (t.mappings ≡ s.mappings) × (t.ksyms ≡ s.ksyms)

module _ (b : BinarySearch) (bins : Binaries) where
  load_syms-IsCoherent :
      (s : Symbolizer) (path : Bytes)
      → IsCoherent bins s
      → IsCoherent bins (load_syms bins s path).0
        × ((load_syms bins s path).1 ≡ read_syms bins path)
        × Keeps s (load_syms bins s path).0
  unfolding load_syms
  load_syms-IsCoherent s path h = elim (Option-cases (lookup path s.symbol_cache)) [
    | inl missed ↦
        rw (missed, load_syms)
          (
            λ j syms found. ground (
              arith,
              lookup-insert path j (read_syms bins path) s.symbol_cache,
              same_iff path j,
              h j syms,
            ),
            refl,
            (refl, refl),
          )
    | inr (syms, hit) ↦ rw (hit, load_syms) (h, h path syms hit, (refl, refl))
  ]

  resolve-IsCoherent :
      (s : Symbolizer) (ip : ℕ)
      → IsCoherent bins s
      → IsCoherent bins (resolve b bins s ip).0
        × ((resolve b bins s ip).1 ≡ name_of b bins s.mappings ip)
        × Keeps s (resolve b bins s ip).0
  unfolding resolve
  resolve-IsCoherent s ip h = elim (Option-cases (mapping_of b s.mappings ip)) [
    | inl nowhere ↦ rw (nowhere, resolve, name_of) (h, refl, (refl, refl))
    | inr (m, found) ↦
        let (kept, read, still) = load_syms-IsCoherent s m.path h in
        rw (found, resolve, name_of)
          (kept, ap (λ syms. user_name b syms m.path (file_offset m ip)) read, still)
  ]

  pub resolve_all-IsCoherent :
      (s : Symbolizer) (ips : List ℕ)
      → IsCoherent bins s
      → IsCoherent bins (resolve_all b bins s ips).0
        × ((resolve_all b bins s ips).1 ≡ map (name_of b bins s.mappings) ips)
        × Keeps s (resolve_all b bins s ips).0
  unfolding resolve_all
  resolve_all-IsCoherent s [] h = (h, refl, (refl, refl))
  resolve_all-IsCoherent s (ip ∷ ips) h =
      let (kept, name, (maps, ksyms)) = resolve-IsCoherent s ip h in
      let (kept', names, (maps', ksyms')) =
        resolve_all-IsCoherent (resolve b bins s ip).0 ips kept in
      (
        kept',
        λ i. name i ∷ (names ∙ ap (λ m. map (name_of b bins m) ips) maps) i,
        (maps' ∙ maps, ksyms' ∙ ksyms),
      )

  -- Starting from a cache that agrees with the files, any addresses, in any order, get the names that
  -- they have when every file is read anew for each.
  pub resolve_all-name_of :
      (s : Symbolizer) (ips : List ℕ)
      → IsCoherent bins s
      → (resolve_all b bins s ips).1 ≡ map (name_of b bins s.mappings) ips
  resolve_all-name_of s ips h = (resolve_all-IsCoherent s ips h).1

-- With the symbols of a file in strict order, an offset that a symbol covers has that symbol's name.
pub user_name-nearest :
    (b : BinarySearch) (syms : Symbols) (path : Bytes) (file_off i : ℕ) (s : ℕ × Bytes)
    → IsStrict (addresses syms)
    → get_elem? syms i ≡ some s
    → s.0 ≤ file_off
    → file_off < next_addr syms i
    → user_name b syms path file_off ≡ s.1
unfolding user_name symbol_name
user_name-nearest b syms path file_off i s strict here from to =
    elim (search_index (addresses syms) file_off i s.0 strict (get_elem?-addresses syms i s here)
      from (λ c e. next_above syms file_off i c to e) b) [
        | inl e ↦ rw (e, user_name) (ground arith)
        | inr e ↦ rw (e, user_name) (ground arith)
      ]
