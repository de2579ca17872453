-- ===== src/Reader/Refine.antt =====
-- What the statistics hold after any events: a replay of the events that belong to each
-- (aya-test/src/reader.rs, aya-test/src/stats.rs).
use aya_e_bpf.Prelude.{
  ℕ, ◌+◌, ◌%◌, ◌^◌, ◌≡◌, ◌≢◌, refl, ap, ◌∙◌, List, [], ◌∷◌, Option, none, some, Option-cases,
  Bool-cases, inl, inr, arith, ◌==◌, if◌then◌else◌,
}
use aya_e_bpf.Prelude.Assoc.{bytes_eq, nat_eq, lookup, insert, lookup-insert}
use aya_e_bpf.Prelude.Bytes.{Bytes, same, same_iff}
use aya_e_bpf.Common.Event.{LatencyEvent}
use aya_e_bpf.Resp.{Decoder, as_ref, classify_command}
use aya_e_bpf.Reader.{Shared, process_event, process_batch}
use aya_e_bpf.Stats.Clients.{ClientInfo, ClientStats, record_client, entry_of}
use aya_e_bpf.Stats.Commands.{CommandStats, record_command}
use aya_e_bpf.Stats.Latency.{LatencyStats, new_latency, record_latency}
use aya_e_bpf.Stats.Metrics.{Metrics}

module _ (m : Metrics) where
  -- The statistics of a command after one more sample.
  abbrev pub add_sample : ℕ → ℕ → Option (LatencyStats m) → LatencyStats m
  add_sample l b none = record_latency m l b (new_latency m)
  add_sample l b (some stats) = record_latency m l b stats

  pub lookup-record_command :
      (cmd j : Bytes) (l b : ℕ) (commands : CommandStats m)
      → lookup j (record_command m cmd l b commands)
        ≡ (if same cmd j then some (add_sample l b (lookup cmd commands)) else lookup j commands)
  unfolding record_command
  lookup-record_command cmd j l b commands = elim (Option-cases (lookup cmd commands)) [
    | inl new ↦ ground (arith, lookup-insert cmd j (record_latency m l b (new_latency m)) commands)
    | inr (stats, known) ↦ ground (arith, lookup-insert cmd j (record_latency m l b stats) commands)
  ]

  -- The samples of an event list that a list of samples adds, oldest first.
  abbrev pub replay : Option (LatencyStats m) → List (ℕ × ℕ) → Option (LatencyStats m)
  replay stats [] = stats
  replay stats ((l, b) ∷ rest) = replay (some (add_sample l b stats)) rest

-- One more request of a client.
abbrev pub add_request : ClientInfo → ℕ → ClientInfo
add_request info bytes = record {
  count = (info.count + 1) % 2 ^ 64;
  total_bytes = (info.total_bytes + bytes) % 2 ^ 64;
}

-- Bytes and requests of one client.
abbrev pub client_after : List LatencyEvent → ℕ → ClientInfo → ClientInfo
client_after [] ip info = info
client_after (ev ∷ batch) ip info =
    if ev.client_ip == ip
    then client_after batch ip (record {
      count = (info.count + 1) % 2 ^ 64;
      total_bytes = (info.total_bytes + ev.bytes) % 2 ^ 64;
    })
    else client_after batch ip info

entry_of-insert :
    (ip j : ℕ) (info : ClientInfo) (clients : ClientStats)
    → entry_of j (insert ip info clients) ≡ (if ip == j then info else entry_of j clients)
unfolding entry_of
entry_of-insert ip j info clients = ground (arith, lookup-insert ip j info clients)

entry_of-record_client :
    (ip j b : ℕ) (clients : ClientStats)
    → entry_of j (record_client ip b clients) ≡ (
        if ip == j
        then record {
          count = ((entry_of ip clients).count + 1) % 2 ^ 64;
          total_bytes = ((entry_of ip clients).total_bytes + b) % 2 ^ 64;
        }
        else entry_of j clients)
unfolding record_client
entry_of-record_client ip j b clients = entry_of-insert ip j _ clients

module _ (m : Metrics) (d : Decoder) where
  abbrev pub class_of : LatencyEvent → Bytes
  class_of ev = as_ref (classify_command d ev.req_data)

  -- The latency and bytes of the events of one command, in order.
  abbrev pub samples_of : Bytes → List LatencyEvent → List (ℕ × ℕ)
  samples_of cmd [] = []
  samples_of cmd (ev ∷ batch) =
      if same (class_of ev) cmd
      then (ev.latency_ns, ev.bytes) ∷ samples_of cmd batch
      else samples_of cmd batch

  -- The statistics of a command after a batch are those before it, with exactly the samples of the
  -- events that are classified as that command recorded, in their order.
  pub commands_replay :
      (batch : List LatencyEvent) (s : Shared m) (cmd : Bytes)
      → lookup cmd (process_batch m d batch s).cmd_stats
        ≡ replay m (lookup cmd s.cmd_stats) (samples_of cmd batch)
  unfolding process_batch process_event
  commands_replay [] s cmd = refl
  commands_replay (ev ∷ batch) s cmd = elim (Bool-cases (same (class_of ev) cmd)) [
    | inl mine ↦
        let same_name : class_of ev ≡ cmd = (same_iff (class_of ev) cmd).0 mine in
        let added : lookup cmd (record_command m (class_of ev) ev.latency_ns ev.bytes s.cmd_stats)
            ≡ some (add_sample m ev.latency_ns ev.bytes (lookup cmd s.cmd_stats)) =
          (rw mine at
            (lookup-record_command m (class_of ev) cmd ev.latency_ns ev.bytes s.cmd_stats))
          ∙ ap (λ c. some (add_sample m ev.latency_ns ev.bytes (lookup c s.cmd_stats))) same_name in
        commands_replay batch (process_event m d ev s) cmd
        ∙ rw mine (ap (λ o. replay m o (samples_of cmd batch)) added)
    | inr others ↦
        let kept : lookup cmd (record_command m (class_of ev) ev.latency_ns ev.bytes s.cmd_stats)
            ≡ lookup cmd s.cmd_stats =
          rw others at
            (lookup-record_command m (class_of ev) cmd ev.latency_ns ev.bytes s.cmd_stats) in
        commands_replay batch (process_event m d ev s) cmd
        ∙ rw others (ap (λ o. replay m o (samples_of cmd batch)) kept)
  ]

  client_step :
      (ev : LatencyEvent) (s : Shared m) (ip : ℕ)
      → ip ≢ 0
      → entry_of ip (process_event m d ev s).client_stats ≡ (
          if ev.client_ip == ip
          then add_request (entry_of ip s.client_stats) ev.bytes
          else entry_of ip s.client_stats)
  unfolding process_event
  client_step ev s ip set =
      ground (arith, entry_of-record_client ev.client_ip ip ev.bytes s.client_stats)

  -- The entry of an address other than 0 counts the events with that address, and adds up their
  -- bytes, both in `u64`.
  pub clients_replay :
      (batch : List LatencyEvent) (s : Shared m) (ip : ℕ)
      → ip ≢ 0
      → entry_of ip (process_batch m d batch s).client_stats
        ≡ client_after batch ip (entry_of ip s.client_stats)
  unfolding process_batch process_event
  clients_replay [] s ip set = refl
  clients_replay (ev ∷ batch) s ip set = elim (Bool-cases (ev.client_ip == ip)) [
    | inl mine ↦
        clients_replay batch (process_event m d ev s) ip set
        ∙ rw mine (ap (client_after batch ip) (rw mine at (client_step ev s ip set)))
    | inr others ↦
        clients_replay batch (process_event m d ev s) ip set
        ∙ rw others (ap (client_after batch ip) (rw others at (client_step ev s ip set)))
  ]
