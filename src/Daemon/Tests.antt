-- ===== src/Daemon/Tests.antt =====
-- cmd/rpcplugind/main.go: concrete flags.
use rpc_plugin_system.Prelude.{
  true, ℕ, ◌≡◌, refl, sym, arith, false, Option, none, List, [], ◌∷◌, ◌++◌, map, Text, codes,
  text_eq, matches_id_pattern,
}
use mathlib.Core.Path.{subst}
use rpc_plugin_system.Host.Build.{validate_plugin_id, new_host}
use rpc_plugin_system.Host.Tests.{outside, outside-IsClean}
use rpc_plugin_system.Kernel.Rpc.{answer, timeout}
use rpc_plugin_system.Kernel.Tests.{graceful, good_launch}
use rpc_plugin_system.Admin.Service.{restart_of}
use rpc_plugin_system.Daemon.Run.{options, run}
use rpc_plugin_system.Daemon.Exited.{
  Action, asked, ticked, daemon, Paced, PacedFlags, AllClosed, run-AllClosed,
}
use rpc_plugin_system.Daemon.Plugins.{
  parsed, rejected, DaemonError, DaemonOptions, split, split_once, plugin_config, parse_parts,
  parse_plugins, resolve_plugins,
}
use rpc_plugin_system.Daemon.Config.{
  System, TomlDaemonConfig, ResolvedDaemonConfig, load_toml_config, choose_string, choose_duration,
  parse_daemon_config,
}
use rpc_plugin_system.Daemon.Printed.{spec, joined, parse_plugins-joined}
use rpc_plugin_system.Daemon.Accepted.{Builds, parse_daemon_config-Builds}

abbrev two_specs : List (Text × Text)
two_specs = (codes "echo", codes "/bin/e") ∷ ((codes "w.1", codes "/opt/my work=x") ∷ [])

-- White space around a spec is dropped, so that two spellings are read alike.
spaced :
    parse_plugins (codes " echo=/bin/e , w=/w") [] []
    ≡ parse_plugins (codes "echo=/bin/e,w=/w") [] []
unfolding parse_plugins parse_parts split split_once validate_plugin_id matches_id_pattern
spaced = refl

-- A trailing comma is refused.
trailing : parse_plugins (codes "echo=/bin/e,") [] [] ≡ rejected DaemonError.invalid_plugin_spec
unfolding parse_plugins parse_parts split split_once validate_plugin_id matches_id_pattern
trailing = refl

parse_plugins-joined_example :
    parse_plugins
      (joined
        (spec (codes "echo", codes "/bin/e"))
        (map spec ((codes "w.1", codes "/opt/my work=x") ∷ [])))
      []
      []
    ≡ parsed (map (λ q. plugin_config q.0 q.1) two_specs)
parse_plugins-joined_example =
    parse_plugins-joined (codes "echo", codes "/bin/e") ((codes "w.1", codes "/opt/my work=x") ∷ [])
      [] []
      (
        (unfold matches_id_pattern in refl, refl, refl),
        ((unfold matches_id_pattern in refl, refl, refl), tt),
      )

abbrev join_slash : Text → Text → Text
join_slash root name = root ++ 47 ∷ name

abbrev no_file : Text → Option Text
no_file path = none

abbrev no_toml : Text → Option TomlDaemonConfig
no_toml s = none

abbrev no_duration : Text → Option ℕ
no_duration s = none

abbrev system : System
system = record {
  join = join_slash;
  temp_dir = codes "/tmp";
  read_file = no_file;
  decode_toml = no_toml;
  parse_duration = no_duration;
}

abbrev only_plugins : DaemonOptions
only_plugins = record {
  config_path = [];
  runtime_dir = codes "/tmp/rpc_plugin_system";
  plugins_arg = codes "echo=/bin/e";
  plugin_id = codes "echo";
  plugin_path = [];
  dial_timeout = 3000000000;
  call_timeout = 500000000;
  heartbeat_every = 2000000000;
  explicit_flags = λ f. text_eq f (codes "plugins");
}

abbrev resolved : ResolvedDaemonConfig
resolved = record {
  host = record {
    runtime_dir = codes "/tmp/rpc_plugin_system";
    dial_timeout = 3000000000;
    call_timeout = 500000000;
    heartbeat_every = 2000000000;
    plugins = plugin_config (codes "echo") (codes "/bin/e") ∷ [];
    show_paths = false;
  };
  admin_socket = codes "/tmp/rpc_plugin_system/admin.sock";
}

only_plugins-parsed : parse_daemon_config system only_plugins ≡ parsed resolved
unfolding parse_daemon_config load_toml_config choose_string choose_duration resolve_plugins
    parse_plugins parse_parts split split_once validate_plugin_id matches_id_pattern
only_plugins-parsed = refl

parse_daemon_config-Builds_example :
    Builds (new_host outside resolved.host)
    × (resolved.admin_socket ≡ system.join resolved.host.runtime_dir (codes "admin.sock"))
parse_daemon_config-Builds_example =
    parse_daemon_config-Builds system only_plugins outside resolved only_plugins-parsed

-- One request and one round of the monitor.
abbrev two_actions : List Action
two_actions =
    asked timeout answer graceful (good_launch 2) (restart_of (codes "echo"))
    ∷ (ticked (codes "echo") timeout graceful (good_launch 3) ∷ [])

paced : PacedFlags system (options only_plugins)
paced = subst Paced (sym only_plugins-parsed) (omega arith)

run-AllClosed_example :
    AllClosed (run (daemon outside two_actions true) system (options only_plugins)).host
run-AllClosed_example =
    run-AllClosed outside two_actions true system (options only_plugins) outside-IsClean paced
