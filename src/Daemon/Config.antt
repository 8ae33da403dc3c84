-- ===== src/Daemon/Config.antt =====
-- cmd/rpcplugind/main.go: the configuration, from the flags and the config file. A duration is a
-- number of nanoseconds, as the 64 bits of an int64: from 2^63 on it is negative.
use rpc_plugin_system.Prelude.{
  ℕ, Bool, not, Option, none, some, List, [], Text, codes, is_empty, ◌==◌, if◌then◌else◌,
}
use rpc_plugin_system.Host.Types.{PluginConfig, HostConfig}
use rpc_plugin_system.Daemon.Plugins.{
  bad_dial_timeout, bad_call_timeout, bad_heartbeat_every, read_failed, parse_failed, Parsed,
  parsed, rejected, TomlPluginSection, DaemonOptions, resolve_plugins,
}

pub record TomlDaemonSection : Type 0 where
  pub runtime_dir : Text
  pub dial_timeout : Text
  pub call_timeout : Text
  pub heartbeat_every : Text

pub record TomlDaemonConfig : Type 0 where
  pub daemon : TomlDaemonSection
  pub plugins : List TomlPluginSection

abbrev pub empty_config : TomlDaemonConfig
empty_config = record {
  daemon = record { runtime_dir = []; dial_timeout = []; call_timeout = []; heartbeat_every = [] };
  plugins = [];
}

pub record ResolvedDaemonConfig : Type 0 where
  pub host : HostConfig
  pub admin_socket : Text

-- What the system and the packages outside answer.
pub record System : Type 0 where
  pub join : Text → Text → Text  -- filepath.Join
  pub temp_dir : Text  -- os.TempDir
  pub read_file : Text → Option Text
  pub decode_toml : Text → Option TomlDaemonConfig  -- unknown fields are an error
  pub parse_duration : Text → Option ℕ  -- time.ParseDuration

abbrev pub decoded : Option TomlDaemonConfig → Parsed TomlDaemonConfig
decoded none = rejected parse_failed
decoded (some cfg) = parsed cfg

abbrev pub decode_read : System → Option Text → Parsed TomlDaemonConfig
decode_read sys none = rejected read_failed
decode_read sys (some data') = decoded (sys.decode_toml data')

unfoldable pub load_toml_config : System → Text → Parsed TomlDaemonConfig
load_toml_config sys path =
    if is_empty path then parsed empty_config else decode_read sys (sys.read_file path)

abbrev pub default_runtime_dir : System → Text → Text
default_runtime_dir sys value =
    if not (is_empty value) then value else sys.join sys.temp_dir (codes "rpc_plugin_system")

abbrev pub default_duration : ℕ → ℕ → ℕ
default_duration value fallback = if not (value == 0) then value else fallback

unfoldable pub choose_string : Bool → Text → Text → Text → Text
choose_string is_explicit flag_value file_value fallback =
    if is_explicit then flag_value else if not (is_empty file_value) then file_value else fallback

unfoldable pub choose_duration : System → Bool → ℕ → Text → ℕ → Option ℕ
choose_duration sys is_explicit flag_value file_value fallback =
    if is_explicit
    then some flag_value
    else if not (is_empty file_value)
    then sys.parse_duration file_value
    else some fallback

-- The steps of parseDaemonConfig after the durations.
abbrev pub with_plugins :
    System → Text → ℕ → ℕ → ℕ → Parsed (List PluginConfig) → Parsed ResolvedDaemonConfig
with_plugins sys dir dial call beat (rejected e) = rejected e
with_plugins sys dir dial call beat (parsed ps) = parsed (record {
  host = record {
    runtime_dir = dir;
    dial_timeout = dial;
    call_timeout = call;
    heartbeat_every = beat;
    plugins = ps;
    show_paths = Bool.false;
  };
  admin_socket = sys.join dir (codes "admin.sock");
})

-- The durations in their order; the first that does not parse is the error.
abbrev pub with_durations :
    (ℕ → ℕ → ℕ → Parsed ResolvedDaemonConfig)
    → Option ℕ
    → Option ℕ
    → Option ℕ
    → Parsed ResolvedDaemonConfig
with_durations next none call beat = rejected bad_dial_timeout
with_durations next (some d) none beat = rejected bad_call_timeout
with_durations next (some d) (some c) none = rejected bad_heartbeat_every
with_durations next (some d) (some c) (some b) = next d c b

abbrev pub with_file :
    System → DaemonOptions → Parsed TomlDaemonConfig → Parsed ResolvedDaemonConfig
with_file sys opts (rejected e) = rejected e
with_file sys opts (parsed file) =
    let dir : Text =
      choose_string (opts.explicit_flags (codes "runtime-dir")) opts.runtime_dir
        file.daemon.runtime_dir (default_runtime_dir sys opts.runtime_dir) in
    with_durations (λ d c b. with_plugins sys dir d c b (resolve_plugins opts file.plugins))
      (choose_duration sys (opts.explicit_flags (codes "dial-timeout")) opts.dial_timeout
        file.daemon.dial_timeout (default_duration opts.dial_timeout 3000000000))
      (choose_duration sys (opts.explicit_flags (codes "call-timeout")) opts.call_timeout
        file.daemon.call_timeout (default_duration opts.call_timeout 500000000))
      (choose_duration sys (opts.explicit_flags (codes "heartbeat-every")) opts.heartbeat_every
        file.daemon.heartbeat_every (default_duration opts.heartbeat_every 2000000000))

unfoldable pub parse_daemon_config : System → DaemonOptions → Parsed ResolvedDaemonConfig
unfolding load_toml_config choose_string choose_duration resolve_plugins
parse_daemon_config sys opts = with_file sys opts (load_toml_config sys opts.config_path)
