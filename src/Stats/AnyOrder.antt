-- ===== src/Stats/AnyOrder.antt =====
-- The reports and the order in which a hash map is walked (aya-test/src/stats.rs).
use mathlib.Core.Logic.{∥∥₁_elim}
use mathlib.Core.List.{Perm, Permᴰ}
use aya_e_bpf.Prelude.{
  ℕ, zero, suc, ◌+◌, ◌%◌, ◌^◌, ◌≡◌, refl, sym, ap, ◌∙◌, List, [], ◌∷◌, map, take, Option, none,
  some, arith, ltb, if◌then◌else◌, Bool-cases, inl, inr,
}
use aya_e_bpf.Stats.Clients.{ClientStats}
use aya_e_bpf.Stats.Metrics.{Metrics}
use aya_e_bpf.Stats.Report.{ClientRow, client_entries, client_row, sum_counts, report_clients}
use aya_e_bpf.Stats.Sort.{insert_desc, sort_desc}

abbrev insert_key : ℕ → List ℕ → List ℕ
insert_key = insert_desc (λ n. n)

insert_key_comm :
    (a b : ℕ) (l : List ℕ) → insert_key a (insert_key b l) ≡ insert_key b (insert_key a l)
unfolding insert_desc
insert_key_comm a b [] = ground arith
insert_key_comm a b (c ∷ l) = ground (arith, insert_key_comm a b l)

module _ {ℓ} {A : Type ℓ} (key : A → ℕ) where
  map-insert_desc :
      (x : A) (ys : List A) → map key (insert_desc key x ys) ≡ insert_key (key x) (map key ys)
  unfolding insert_desc
  map-insert_desc x [] = refl
  map-insert_desc x (y ∷ ys) = elim (Bool-cases (ltb (key x) (key y))) [
    | inl larger ↦ rw (larger, map-insert_desc x ys) refl
    | inr smaller ↦ rw smaller refl
  ]

  two-keys :
      (x y : A) (l : List A)
      → map key (sort_desc key (x ∷ y ∷ l))
        ≡ insert_key (key x) (insert_key (key y) (map key (sort_desc key l)))
  unfolding sort_desc
  two-keys x y l =
      map-insert_desc x (insert_desc key y (sort_desc key l))
      ∙ ap (λ k. insert_key (key x) k) (map-insert_desc y (sort_desc key l))

  step-keys :
      {xs ys : List A} → Permᴰ xs ys → map key (sort_desc key xs) ≡ map key (sort_desc key ys)
  unfolding sort_desc
  step-keys Permᴰ.nil = refl
  step-keys (Permᴰ.cons {a} {b} {l₁} {l₂} e d) =
      map-insert_desc a (sort_desc key l₁)
      ∙ ap (λ l. insert_key (key a) l) (step-keys d)
      ∙ ap (λ n. insert_key n (map key (sort_desc key l₂))) (ap key e)
      ∙ sym (map-insert_desc b (sort_desc key l₂))
  step-keys (Permᴰ.swap {a} {b} {a'} {b'} {l} e e') =
      two-keys a b l
      ∙ insert_key_comm (key a) (key b) (map key (sort_desc key l))
      ∙ ap (λ n. insert_key n (insert_key (key a) (map key (sort_desc key l)))) (ap key e')
      ∙ ap (λ n. insert_key (key a') (insert_key n (map key (sort_desc key l)))) (ap key e)
      ∙ sym (two-keys a' b' l)
  step-keys (Permᴰ.trans d d') = step-keys d ∙ step-keys d'

keys_set : IsSet (List ℕ)
keys_set = hlevel

module _ {ℓ} {A : Type ℓ} (key : A → ℕ) where
  -- Lists with the same elements have the same keys once they are sorted.
  pub map-sort_desc :
      {xs ys : List A} → Perm xs ys → map key (sort_desc key xs) ≡ map key (sort_desc key ys)
  map-sort_desc p = ∥∥₁_elim p (keys_set _ _) (λ d. step-keys key d)

map-take {ℓ κ} :
    {A : Type ℓ} {B : Type κ} (f : A → B) (n : ℕ) (xs : List A)
    → map f (take n xs) ≡ take n (map f xs)
map-take f zero xs = refl
map-take f (suc n) [] = refl
map-take f (suc n) (x ∷ xs) = ap (◌∷◌ (f x)) (map-take f n xs)

module _ (m : Metrics) where
  open m use {Float, lit, of_u64, div, mul}

  -- The columns of the client report that depend on the counts.
  abbrev pub columns : Option (List (ClientRow m)) → List (ℕ × Float)
  columns none = []
  columns (some rows) = map (λ r. (r.count, r.share)) rows

  abbrev sum_keys : List ℕ → ℕ
  sum_keys [] = 0
  sum_keys (n ∷ ns) = (n + sum_keys ns) % 2 ^ 64

  abbrev column : ℕ → ℕ → ℕ × Float
  column total n =
      (n, if ltb 0 total then mul (div (of_u64 n) (of_u64 total)) (lit 100 0) else lit 0 0)

  sum_counts-keys : (es : ClientStats) → sum_counts m es ≡ sum_keys (map (λ e. e.1.count) es)
  unfolding sum_counts
  sum_counts-keys [] = refl
  sum_counts-keys ((ip, info) ∷ es) = ap (λ n. (info.count + n) % 2 ^ 64) (sum_counts-keys es)

  rows-columns :
      (total : ℕ) (es : ClientStats)
      → map (λ r. (r.count, r.share)) (map (client_row m total) es)
        ≡ map (column total) (map (λ e. e.1.count) es)
  unfolding client_row
  rows-columns total [] = refl
  rows-columns total ((ip, info) ∷ es) = ap (◌∷◌ (column total info.count)) (rows-columns total es)

  -- The columns, from the sorted counts.
  abbrev columns_of : List ℕ → List (ℕ × Float)
  columns_of keys = map (column (sum_keys keys)) (take 10 keys)

  columns-columns_of :
      (clients : ClientStats)
      → columns (report_clients m clients)
        ≡ columns_of (map (λ e. e.1.count) (sort_desc (λ e. e.1.count) clients))
  unfolding report_clients client_entries sort_desc
  columns-columns_of [] = refl
  columns-columns_of (e ∷ es) =
      let entries : ClientStats = sort_desc (λ e. e.1.count) (e ∷ es) in
      rows-columns (sum_counts m entries) (take 10 entries)
      ∙ ap (λ ns. map (column (sum_counts m entries)) ns) (map-take (λ e. e.1.count) 10 entries)
      ∙ ap (λ t. map (column t) (take 10 (map (λ e. e.1.count) entries))) (sum_counts-keys entries)

  -- The counts and shares that the client report shows, row by row, are the same in whatever order the map of
  -- clients is walked.
  pub columns_any_order :
      (xs ys : ClientStats)
      → Perm xs ys
      → columns (report_clients m xs) ≡ columns (report_clients m ys)
  columns_any_order xs ys p =
      columns-columns_of xs
      ∙ ap columns_of (map-sort_desc (λ e. e.1.count) p)
      ∙ sym (columns-columns_of ys)
