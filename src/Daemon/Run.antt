-- ===== src/Daemon/Run.antt =====
-- cmd/rpcplugind/main.go, run: from the flags to the exit code. The host and its methods are those
-- of daemonDeps and daemonHost.
use rpc_plugin_system.Prelude.{ℕ, Bool, true, false, Option, none, some, List, Text, if◌then◌else◌}
use rpc_plugin_system.Host.Types.{HostConfig, Member, Outside}
use rpc_plugin_system.Host.Operations.{close_all, start_all, monitor_panics}
use rpc_plugin_system.Host.Build.{Built, built, refused, new_host}
use rpc_plugin_system.Kernel.Types.{Error}
use rpc_plugin_system.Daemon.Plugins.{Parsed, parsed, rejected, DaemonOptions}
use rpc_plugin_system.Daemon.Config.{System, ResolvedDaemonConfig, parse_daemon_config}

-- The methods answer whether they succeeded; a monitor loop that panics has no host.
pub record DaemonDeps {ℓ} (H : Type ℓ) : Type ℓ where
  pub new_host : HostConfig → Option H
  pub start_all : H → Bool × H
  pub monitor_loop : H → Option H
  pub serve : Text → H → Bool × H
  pub close : H → H

-- flag.FlagSet.Parse
pub data FlagResult : Type 0 where
  help_wanted bad_flags : FlagResult
  options : DaemonOptions → FlagResult

-- The exit code, and the host after the deferred Close, which a panic skips.
pub record Exit {ℓ} (H : Type ℓ) : Type ℓ where
  pub code : ℕ
  pub host : Option H

abbrev pub exit_code : Bool → ℕ
exit_code true = 0
exit_code false = 1

module _ {ℓ} {H : Type ℓ} (deps : DaemonDeps H) where
  abbrev pub without_host : ℕ → Exit H
  without_host n = record { code = n; host = none }

  abbrev pub after_serve : Bool × H → Exit H
  after_serve (ok, h) = record { code = exit_code ok; host = some (deps.close h) }

  -- A panic of a goroutine ends the process with code 2.
  abbrev pub after_monitor : Text → H → Option H → Exit H
  after_monitor socket h none = record { code = 2; host = some h }
  after_monitor socket h (some h') = after_serve (deps.serve socket h')

  abbrev pub after_start_all : Text → Bool × H → Exit H
  after_start_all socket (false, h) = record { code = 1; host = some (deps.close h) }
  after_start_all socket (true, h) = after_monitor socket h (deps.monitor_loop h)

  abbrev pub after_new_host : Text → Option H → Exit H
  after_new_host socket none = without_host 1
  after_new_host socket (some h) = after_start_all socket (deps.start_all h)

  abbrev pub after_config : Parsed ResolvedDaemonConfig → Exit H
  after_config (rejected e) = without_host 1
  after_config (parsed cfg) = after_new_host cfg.admin_socket (deps.new_host cfg.host)

  unfoldable pub run : System → FlagResult → Exit H
  unfolding parse_daemon_config
  run sys help_wanted = without_host 0
  run sys bad_flags = without_host 2
  run sys (options opts) = after_config (parse_daemon_config sys opts)

abbrev pub host_of : Built → Option (List Member)
host_of (built members) = some members
host_of (refused e left) = none

abbrev pub succeeded : Option Error × List Member → Bool × List Member
succeeded (none, members) = (true, members)
succeeded (some e, members) = (false, members)

-- productionDaemonDeps; what the rounds of the monitors and the admin service make of the host is
-- given.
unfoldable pub production_deps :
    Outside
    → (List Member → List Member)
    → (Text → List Member → Bool × List Member)
    → DaemonDeps (List Member)
production_deps env monitor serve_admin = record {
  new_host = λ cfg. host_of (new_host env cfg);
  start_all = λ h. succeeded (start_all env h);
  monitor_loop = λ h. if monitor_panics h then none else some (monitor h);
  serve = serve_admin;
  close = λ h. (close_all env h).1;
}
