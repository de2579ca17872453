-- ===== src/Config.antt =====
-- aya-test/src/config.rs: the configuration from defaults, a TOML file and the command line.
pub mod Priority
use aya_e_bpf.Prelude.{ℕ, Bool, true, false, Option, none, some, if◌then◌else◌}
use aya_e_bpf.Prelude.Bytes.{Bytes, codes}

pub record RedisSection : Type 0 where
  pub pid_file : Option Bytes

pub record SamplingSection : Type 0 where
  pub frequency_hz : Option ℕ

pub record ReportSection : Type 0 where
  pub interval_secs : Option ℕ
  pub command_stats : Option Bool
  pub client_stats : Option Bool

pub record FlamegraphSection : Type 0 where
  pub output : Option Bytes

pub record OutputSection : Type 0 where
  pub file : Option Bytes

pub record ConfigFile : Type 0 where
  pub redis : Option RedisSection
  pub sampling : Option SamplingSection
  pub report : Option ReportSection
  pub flamegraph : Option FlamegraphSection
  pub output : Option OutputSection

pub record Config : Type 0 where
  pub pid_file : Bytes
  pub frequency_hz : ℕ  -- u64
  pub interval_secs : ℕ  -- u64
  pub flamegraph_output : Bytes
  pub output_file : Option Bytes
  pub command_stats : Bool
  pub client_stats : Bool

abbrev pub default_config : Config
default_config = record {
  pid_file = codes "/var/run/redis/redis.pid";
  frequency_hz = 99;
  interval_secs = 10;
  flamegraph_output = codes "/tmp/redis_flamegraph.svg";
  output_file = none;
  command_stats = true;
  client_stats = true;
}

pub record Cli : Type 0 where
  pub pid_file : Option Bytes
  pub frequency : Option ℕ
  pub interval : Option ℕ
  pub flamegraph_output : Option Bytes
  pub output : Option Bytes
  pub no_command_stats : Bool
  pub no_client_stats : Bool
  pub config : Option Bytes

-- `anyhow::Result<Config>`: the file cannot be read, or is not the TOML that is expected.
pub data Loaded : Type 0 where
  loaded : Config → Loaded
  read_failed : Loaded
  parse_failed : Loaded

-- `if let Some(v) = … { field = v }`
abbrev pub assign {ℓ} : {A : Type ℓ} → Option A → A → A
assign none old = old
assign (some v) old = v

unfoldable pub overlay_redis : Option RedisSection → Config → Config
overlay_redis none cfg = cfg
overlay_redis (some r) cfg = record cfg { pid_file = assign r.pid_file cfg.pid_file }

unfoldable pub overlay_sampling : Option SamplingSection → Config → Config
overlay_sampling none cfg = cfg
overlay_sampling (some s) cfg = record cfg { frequency_hz = assign s.frequency_hz cfg.frequency_hz }

unfoldable pub overlay_report : Option ReportSection → Config → Config
overlay_report none cfg = cfg
overlay_report (some r) cfg = record cfg {
  interval_secs = assign r.interval_secs cfg.interval_secs;
  command_stats = assign r.command_stats cfg.command_stats;
  client_stats = assign r.client_stats cfg.client_stats;
}

unfoldable pub overlay_flamegraph : Option FlamegraphSection → Config → Config
overlay_flamegraph none cfg = cfg
overlay_flamegraph (some f) cfg = record cfg {
  flamegraph_output = assign f.output cfg.flamegraph_output;
}

unfoldable pub overlay_output : Option OutputSection → Config → Config
overlay_output none cfg = cfg
overlay_output (some o) cfg = elim o.file [
  | none ↦ cfg
  | some v ↦ record cfg { output_file = some v }
]

-- Layer 1, section by section.
unfoldable pub overlay_file : ConfigFile → Config → Config
overlay_file file cfg = overlay_output file.output (
    overlay_flamegraph file.flamegraph
      (overlay_report file.report (overlay_sampling file.sampling (overlay_redis file.redis cfg))))

-- Layer 2.
unfoldable pub overlay_cli : Cli → Config → Config
overlay_cli cli cfg = record {
  pid_file = assign cli.pid_file cfg.pid_file;
  frequency_hz = assign cli.frequency cfg.frequency_hz;
  interval_secs = assign cli.interval cfg.interval_secs;
  flamegraph_output = assign cli.flamegraph_output cfg.flamegraph_output;
  output_file = elim cli.output [ none ↦ cfg.output_file | some v ↦ some v ];
  command_stats = if cli.no_command_stats then false else cfg.command_stats;
  client_stats = if cli.no_client_stats then false else cfg.client_stats;
}

-- The file system and the crate `toml`.
pub record Files : Type 0 where
  pub read_to_string : Bytes → Option Bytes
  pub from_toml : Bytes → Option ConfigFile

unfoldable pub load : Files → Cli → Loaded
load fs cli = elim cli.config [
  | none ↦ loaded (overlay_cli cli default_config)
  | some path ↦ elim (fs.read_to_string path) [
    | none ↦ read_failed
    | some content ↦ elim (fs.from_toml content) [
      | none ↦ parse_failed
      | some file ↦ loaded (overlay_cli cli (overlay_file file default_config))
    ]
  ]
]
