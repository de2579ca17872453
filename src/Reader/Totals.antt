-- ===== src/Reader/Totals.antt =====
-- The counters agree: the per-command totals add up to the overall total
-- (aya-test/src/reader.rs, aya-test/src/stats.rs).
use aya_e_bpf.Prelude.{
  ℕ, ◌+◌, ◌%◌, ◌^◌, ◌<◌, ◌≡◌, refl, ap, ◌∙◌, sym, false, List, [], ◌∷◌, ◌++◌, length, map, All,
  Option, none, some, Option-cases, inl, inr, arith, ltb, append_assoc, append-nil,
}
use aya_e_bpf.Prelude.Assoc.{bytes_eq, lookup, insert}
use aya_e_bpf.Prelude.Bytes.{Bytes}
use aya_e_bpf.Common.Event.{LatencyEvent}
use aya_e_bpf.Common.Layout.{
  latency_size, encode_latency, decode_latency, IsImage, decode-encode_latency,
  length-encode_latency,
}
use aya_e_bpf.Resp.{Decoder, as_ref, classify_command}
use aya_e_bpf.Reader.{Shared, process_event, process_batch, collect, reader_round}
use aya_e_bpf.Stats.Commands.{CommandStats, record_command}
use aya_e_bpf.Stats.Latency.{LatencyStats, new_latency, record_latency}
use aya_e_bpf.Stats.Metrics.{Metrics}

module _ (m : Metrics) where
  abbrev pub sum_totals : CommandStats m → ℕ
  sum_totals [] = 0
  sum_totals ((cmd, stats) ∷ rest) = stats.total + sum_totals rest

  abbrev total_of : Option (LatencyStats m) → ℕ
  total_of none = 0
  total_of (some stats) = stats.total

  sum_totals-insert :
      (cmd : Bytes) (stats : LatencyStats m) (commands : CommandStats m)
      → sum_totals (insert cmd stats commands) + total_of (lookup cmd commands)
        ≡ sum_totals commands + stats.total
  unfolding lookup insert
  sum_totals-insert cmd stats [] = omega arith
  sum_totals-insert cmd stats ((j, old) ∷ rest) = ground (arith, sum_totals-insert cmd stats rest)

  -- One more sample for any command is one more in the sum, in `u64`.
  sum_totals-record_command :
      (cmd : Bytes) (l b : ℕ) (commands : CommandStats m)
      → sum_totals (record_command m cmd l b commands) % 2 ^ 64 ≡ (sum_totals commands + 1) % 2 ^ 64
  unfolding record_command record_latency new_latency
  sum_totals-record_command cmd l b commands = elim (Option-cases (lookup cmd commands)) [
    | inl new ↦
        ground (arith, sum_totals-insert cmd (record_latency m l b (new_latency m)) commands)
    | inr (stats, known) ↦
        ground (arith, sum_totals-insert cmd (record_latency m l b stats) commands)
  ]

module _ (m : Metrics) (d : Decoder) where
  -- If the totals of the commands add up to the overall total before a batch, they do so after it,
  -- and the overall total has grown by the number of events, all in `u64`.
  pub batch_counts :
      (batch : List LatencyEvent) (s : Shared m)
      → s.stats.total < 2 ^ 64
      → sum_totals m s.cmd_stats % 2 ^ 64 ≡ s.stats.total
      → ((process_batch m d batch s).stats.total ≡ (s.stats.total + length batch) % 2 ^ 64)
        × (sum_totals m (process_batch m d batch s).cmd_stats % 2 ^ 64
            ≡ (process_batch m d batch s).stats.total)
  unfolding process_batch process_event record_latency
  batch_counts [] s small matches = (omega arith, matches)
  batch_counts (ev ∷ batch) s small matches =
      let one =
        sum_totals-record_command m (as_ref (classify_command d ev.req_data)) ev.latency_ns ev.bytes
          s.cmd_stats in
      let (grown, matches') =
        batch_counts batch (process_event m d ev s) (omega arith) (omega arith) in
      (omega arith, matches')

  collect_long :
      (e : LatencyEvent) (item : Bytes) (items : List Bytes) (batch : List LatencyEvent)
      → length item ≡ latency_size
      → decode_latency item ≡ e
      → collect (item ∷ items) batch ≡ collect items (batch ++ e ∷ [])
  unfolding collect
  collect_long e item items batch sized read =
      let long : ltb (length item) latency_size ≡ false = ground arith in rw (long, read) refl

  collect-encode :
      (evs batch : List LatencyEvent) (padding : Bytes)
      → length padding ≡ 4
      → All IsImage evs
      → collect (map (λ e. encode_latency e padding) evs) batch ≡ batch ++ evs
  unfolding collect
  collect-encode [] batch padding pad h = sym (append-nil batch)
  collect-encode (e ∷ evs) batch padding pad (he, h) =
      collect_long e (encode_latency e padding) (map (λ e. encode_latency e padding) evs) batch
        (length-encode_latency e padding he.request_bytes pad) (decode-encode_latency e padding he)
      ∙ (collect-encode evs (batch ++ e ∷ []) padding pad h ∙ append_assoc batch (e ∷ []) evs)

  -- The collector processes exactly the events that the probe wrote, in their order: a round over
  -- their memory images, each with four bytes of padding, is a batch of the events. Their numbers
  -- must fit their fields, and each must have 32 request bytes.
  pub reader_round-encode :
      (evs : List LatencyEvent) (padding : Bytes) (s : Shared m)
      → length padding ≡ 4
      → All IsImage evs
      → reader_round m d (map (λ e. encode_latency e padding) evs) s ≡ process_batch m d evs s
  unfolding reader_round
  reader_round-encode evs padding s pad h =
      ap (λ b. process_batch m d b s) (collect-encode evs [] padding pad h)
