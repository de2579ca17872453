-- ===== src/Config/Priority.antt =====
-- The priority of the layers: command line, then file, then default (aya-test/src/config.rs).
use aya_e_bpf.Prelude.{
  ◌≡◌, refl, Bool, true, false, ◌&&◌, not, Option, none, some, arith, ap, ◌∙◌, if◌then◌else◌,
}
use aya_e_bpf.Prelude.Bytes.{Bytes}
use aya_e_bpf.Config.{
  ConfigFile, Config, Cli, loaded, Files, assign, default_config, overlay_redis, overlay_sampling,
  overlay_report, overlay_flamegraph, overlay_output, overlay_file, overlay_cli, load,
}

-- What the file says of a setting: nothing, if there is no file, no section or no entry.
abbrev pub entry {ℓ κ} : {S : Type ℓ} {A : Type κ} → Option S → (S → Option A) → Option A
entry none get = none
entry (some s) get = get s

-- The first setting that is given, else the default.
abbrev pub first_given {ℓ} : {A : Type ℓ} → Option A → Option A → A → A
first_given (some v) file default = v
first_given none (some v) default = v
first_given none none default = default

-- The resolved configuration, setting by setting.
abbrev pub resolve : Cli → ConfigFile → Config
resolve cli file = record {
  pid_file = first_given cli.pid_file (entry file.redis (λ r. r.pid_file)) default_config.pid_file;
  frequency_hz =
      first_given cli.frequency (entry file.sampling (λ s. s.frequency_hz))
        default_config.frequency_hz;
  interval_secs =
      first_given cli.interval (entry file.report (λ r. r.interval_secs))
        default_config.interval_secs;
  flamegraph_output =
      first_given cli.flamegraph_output (entry file.flamegraph (λ f. f.output))
        default_config.flamegraph_output;
  output_file = elim cli.output [ some v ↦ some v | none ↦ entry file.output (λ o. o.file) ];
  command_stats =
      not cli.no_command_stats && first_given none (entry file.report (λ r. r.command_stats)) true;
  client_stats =
      not cli.no_client_stats && first_given none (entry file.report (λ r. r.client_stats)) true;
}

abbrev pub no_file : ConfigFile
no_file = record { redis = none; sampling = none; report = none; flamegraph = none; output = none }

first_assign {ℓ} :
    {A : Type ℓ} (cli file : Option A) (default : A)
    → assign cli (assign file default) ≡ first_given cli file default
first_assign none none default = refl
first_assign none (some v) default = refl
first_assign (some v) none default = refl
first_assign (some v) (some w) default = refl

-- Each setting of the file layer, over any configuration.
module _ (file : ConfigFile) (cfg : Config) where
  file_pid_file :
      (overlay_file file cfg).pid_file ≡ assign (entry file.redis (λ r. r.pid_file)) cfg.pid_file
  unfolding overlay_file overlay_redis overlay_sampling overlay_report overlay_flamegraph
      overlay_output
  file_pid_file = ground arith

  file_frequency :
      (overlay_file file cfg).frequency_hz
      ≡ assign (entry file.sampling (λ s. s.frequency_hz)) cfg.frequency_hz
  unfolding overlay_file overlay_redis overlay_sampling overlay_report overlay_flamegraph
      overlay_output
  file_frequency = ground arith

  file_interval :
      (overlay_file file cfg).interval_secs
      ≡ assign (entry file.report (λ r. r.interval_secs)) cfg.interval_secs
  unfolding overlay_file overlay_redis overlay_sampling overlay_report overlay_flamegraph
      overlay_output
  file_interval = ground arith

  file_flamegraph :
      (overlay_file file cfg).flamegraph_output
      ≡ assign (entry file.flamegraph (λ f. f.output)) cfg.flamegraph_output
  unfolding overlay_file overlay_redis overlay_sampling overlay_report overlay_flamegraph
      overlay_output
  file_flamegraph = ground arith

  file_output :
      (overlay_file file cfg).output_file
      ≡ (elim (entry file.output (λ o. o.file)) [ none ↦ cfg.output_file | some v ↦ some v ])
  unfolding overlay_file overlay_redis overlay_sampling overlay_report overlay_flamegraph
      overlay_output
  file_output = ground arith

  file_command_stats :
      (overlay_file file cfg).command_stats
      ≡ assign (entry file.report (λ r. r.command_stats)) cfg.command_stats
  unfolding overlay_file overlay_redis overlay_sampling overlay_report overlay_flamegraph
      overlay_output
  file_command_stats = ground arith

  file_client_stats :
      (overlay_file file cfg).client_stats
      ≡ assign (entry file.report (λ r. r.client_stats)) cfg.client_stats
  unfolding overlay_file overlay_redis overlay_sampling overlay_report overlay_flamegraph
      overlay_output
  file_client_stats = ground arith

flag_given :
    (off : Bool) (file : Option Bool)
    → (if off then false else assign file true) ≡ (not off && first_given none file true)
flag_given true file = refl
flag_given false none = refl
flag_given false (some v) = refl

output_given :
    (cli file : Option Bytes)
    → ◌≡◌ {A = Option Bytes}
        (elim cli [ none ↦ elim file [ none ↦ none | some v ↦ some v ] | some v ↦ some v ])
        (elim cli [ some v ↦ some v | none ↦ file ])
output_given none none = refl
output_given none (some v) = refl
output_given (some v) file = refl

resolve_lem :
    (cli : Cli) (file : ConfigFile)
    → overlay_cli cli (overlay_file file default_config) ≡ resolve cli file
unfolding overlay_cli
resolve_lem cli file =
    let c : Config = default_config in
    λ i. record {
      pid_file =
          (ap (assign cli.pid_file) (file_pid_file file c)
              ∙ first_assign cli.pid_file (entry file.redis (λ r. r.pid_file)) c.pid_file)
            i;
      frequency_hz =
          (ap (assign cli.frequency) (file_frequency file c)
              ∙ first_assign cli.frequency (entry file.sampling (λ s. s.frequency_hz)) 99)
            i;
      interval_secs =
          (ap (assign cli.interval) (file_interval file c)
              ∙ first_assign cli.interval (entry file.report (λ r. r.interval_secs)) 10)
            i;
      flamegraph_output =
          (ap (assign cli.flamegraph_output) (file_flamegraph file c)
              ∙ first_assign cli.flamegraph_output (entry file.flamegraph (λ f. f.output))
                  c.flamegraph_output)
            i;
      output_file =
          (ap
                (λ (o : Option Bytes). elim cli.output as (λ x. Option Bytes) [
                  | none ↦ o
                  | some v ↦ some v
                ])
                (file_output file c)
              ∙ output_given cli.output (entry file.output (λ o. o.file)))
            i;
      command_stats =
          (ap (λ b. if cli.no_command_stats then false else b) (file_command_stats file c)
              ∙ flag_given cli.no_command_stats (entry file.report (λ r. r.command_stats)))
            i;
      client_stats =
          (ap (λ b. if cli.no_client_stats then false else b) (file_client_stats file c)
              ∙ flag_given cli.no_client_stats (entry file.report (λ r. r.client_stats)))
            i;
    }

-- With no file named, the file system is not asked: each setting is that of the command line, else the
-- default.
pub load_without_file :
    (fs : Files) (cli : Cli) → cli.config ≡ none → load fs cli ≡ loaded (resolve cli no_file)
unfolding load
load_without_file fs cli e =
    rw (e, load)
      (ap loaded (
        unfold overlay_file overlay_redis overlay_sampling overlay_report overlay_flamegraph
          overlay_output in
        resolve_lem cli no_file))

-- With a file named that can be read and parsed, each setting is that of the command line, else that
-- of the file, else the default.
pub load_with_file :
    (fs : Files) (cli : Cli) (path content : Bytes) (file : ConfigFile)
    → cli.config ≡ some path
    → fs.read_to_string path ≡ some content
    → fs.from_toml content ≡ some file
    → load fs cli ≡ loaded (resolve cli file)
unfolding load
load_with_file fs cli path content file e h f =
    rw (e, load) (rw (h, f) (ap loaded (resolve_lem cli file)))
