-- ===== src/Stats/Top.antt =====
-- Which rows the reports show, and in which order (aya-test/src/stats.rs).
use mathlib.Core.List.{Perm}
use aya_e_bpf.Prelude.{◌≤◌, take, drop, keep, All, ltb}
use aya_e_bpf.Stats.Clients.{ClientStats}
use aya_e_bpf.Stats.Commands.{CommandStats}
use aya_e_bpf.Stats.Metrics.{Metrics}
use aya_e_bpf.Stats.Report.{command_entries, client_entries}
use aya_e_bpf.Stats.Sort.{sort_desc-perm, IsDescending, sort_desc-IsDescending, IsDescending-take}

module _ (m : Metrics) where
  -- The command rows are the commands that have samples, each once, by falling number of samples.
  pub command_entries-IsDescending :
      (commands : CommandStats m)
      → Perm (command_entries m commands) (keep (λ e. ltb 0 e.1.total) commands)
        × IsDescending (λ e. e.1.total) (command_entries m commands)
  unfolding command_entries
  command_entries-IsDescending commands =
      let with_samples : CommandStats m = keep (λ e. ltb 0 e.1.total) commands in
      (
        sort_desc-perm (λ e. e.1.total) with_samples,
        sort_desc-IsDescending (λ e. e.1.total) with_samples,
      )

  -- The entries of the client report are the clients, each once, and no client behind the tenth has
  -- more requests than one of the first ten.
  pub client_entries-top :
      (clients : ClientStats)
      → Perm (client_entries m clients) clients
        × All
            (λ shown. All (λ e. e.1.count ≤ shown.1.count) (drop 10 (client_entries m clients)))
            (take 10 (client_entries m clients))
  unfolding client_entries
  client_entries-top clients = (
    sort_desc-perm (λ e. e.1.count) clients,
    IsDescending-take (λ e. e.1.count) 10 _ (sort_desc-IsDescending (λ e. e.1.count) clients),
  )
