-- ===== src/Reader.antt =====
-- aya-test/src/reader.rs: the tasks that drain the ring buffers.
pub mod Refine
pub mod Totals
pub mod Stacks
use aya_e_bpf.Prelude.{ℕ, Bool, List, [], ◌∷◌, ◌++◌, length, ltb, ◌==◌, if◌then◌else◌}
use aya_e_bpf.Prelude.Bytes.{Bytes}
use aya_e_bpf.Common.Event.{LatencyEvent, StackEvent}
use aya_e_bpf.Common.Layout.{latency_size, decode_latency}
use aya_e_bpf.Resp.{Decoder, as_ref, classify_command}
use aya_e_bpf.Stats.Clients.{ClientStats, record_client}
use aya_e_bpf.Stats.Commands.{CommandStats, record_command}
use aya_e_bpf.Stats.Latency.{LatencyStats, record_latency}
use aya_e_bpf.Stats.Metrics.{Metrics}

-- The statistics that the tasks share behind their locks.
pub record Shared (m : Metrics) : Type 0 where
  pub stats : LatencyStats m
  pub cmd_stats : CommandStats m
  pub client_stats : ClientStats

-- Phase 1: the items that are in the buffer at a wake-up, each long enough to be an event.
unfoldable pub collect : List Bytes → List LatencyEvent → List LatencyEvent
collect [] batch = batch
collect (item ∷ items) batch =
    collect items
      (if ltb (length item) latency_size then batch else batch ++ decode_latency item ∷ [])

module _ (m : Metrics) (d : Decoder) where
  -- The body of the loop of phase 2.
  unfoldable pub process_event : LatencyEvent → Shared m → Shared m
  process_event ev s = record {
    stats = record_latency m ev.latency_ns ev.bytes s.stats;
    cmd_stats =
        record_command m (as_ref (classify_command d ev.req_data)) ev.latency_ns ev.bytes
          s.cmd_stats;
    client_stats =
        if ev.client_ip == 0
        then s.client_stats
        else record_client ev.client_ip ev.bytes s.client_stats;
  }

  -- Phase 2: the batch in order, under one acquisition of the locks.
  unfoldable pub process_batch : List LatencyEvent → Shared m → Shared m
  process_batch [] s = s
  process_batch (ev ∷ batch) s = process_batch batch (process_event ev s)

  -- One round of the task; the batch is empty before and after it.
  unfoldable pub reader_round : List Bytes → Shared m → Shared m
  reader_round items s = process_batch (collect items []) s
