-- ===== src/Stats/Clients.antt =====
-- `ClientStats` (aya-test/src/stats.rs): requests and bytes for each IPv4 address.
use aya_e_bpf.Prelude.{ℕ, ◌+◌, ◌%◌, ◌^◌, List, [], none, some}
use aya_e_bpf.Prelude.Assoc.{nat_eq, lookup, insert}

pub record ClientInfo : Type 0 where
  pub count : ℕ  -- u64
  pub total_bytes : ℕ  -- u64

abbrev pub ClientStats : Type 0
ClientStats = List (ℕ × ClientInfo)

abbrev pub new_clients : ClientStats
new_clients = []

-- `entry(ip).or_insert(…)`
unfoldable pub entry_of : ℕ → ClientStats → ClientInfo
entry_of ip clients = elim (lookup ip clients) [
  | some info ↦ info
  | none ↦ record { count = 0; total_bytes = 0 }
]

unfoldable pub record_client : ℕ → ℕ → ClientStats → ClientStats
record_client ip bytes clients =
    let info : ClientInfo = entry_of ip clients in
    insert ip
      (record {
        count = (info.count + 1) % 2 ^ 64;
        total_bytes = (info.total_bytes + bytes) % 2 ^ 64;
      })
      clients
