-- ===== src/Tests/Settings.antt =====
-- The configuration (aya-test/src/config.rs) on small layers.
use aya_e_bpf.Prelude.{◌≡◌, refl, none, some, false}
use aya_e_bpf.Prelude.Bytes.{codes}
use aya_e_bpf.Config.{Cli, loaded, load, default_config}
use aya_e_bpf.Config.Priority.{load_without_file, load_with_file}
use aya_e_bpf.Tests.Instances.{config_file, files, no_files}

abbrev pub cli : Cli
cli = record {
  pid_file = none;
  frequency = none;
  interval = some 5;
  flamegraph_output = none;
  output = none;
  no_command_stats = false;
  no_client_stats = false;
  config = none;
}

abbrev with_path : Cli
with_path = record cli { config = some (codes "config.toml") }

load_without_file_example : load no_files cli ≡ loaded (record default_config { interval_secs = 5 })
load_without_file_example = load_without_file no_files cli refl

load_with_file_example :
    load files with_path ≡ loaded (record default_config { frequency_hz = 49; interval_secs = 5 })
load_with_file_example =
    load_with_file files with_path (codes "config.toml") (codes "[sampling]") config_file refl refl
      refl
