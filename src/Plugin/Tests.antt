-- ===== src/Plugin/Tests.antt =====
-- pkg/plugin: concrete plugins, logs and requests.
use rpc_plugin_system.Prelude.{
  ◌≡◌, ◌↔◌, refl, true, false, Option, none, some, List, [], ◌∷◌, Text, codes, arith,
}
use rpc_plugin_system.EventLog.Types.{end}
use rpc_plugin_system.EventLog.Tests.{good_system, full_log, ten}
use rpc_plugin_system.Kernel.Types.{ok}
use rpc_plugin_system.Kernel.Requests.{healthy}
use rpc_plugin_system.Kernel.Artifacts.{socket_path}
use rpc_plugin_system.Kernel.Start.{has_sentinel, start_locked}
use rpc_plugin_system.Kernel.Tests.{idle, good_launch}
use rpc_plugin_system.Plugin.Config.{Config, loaded, load_config_from_env}
use rpc_plugin_system.Plugin.Environment.{environment, getenv, load_config-environment}
use rpc_plugin_system.Plugin.Logging.{PluginLogger, Diagnostic, report}
use rpc_plugin_system.Plugin.Diagnosed.{Reports, report-Reports}
use rpc_plugin_system.Plugin.Server.{
  Core, returned, Request, auths, lists, echoes, authenticate, detect_capabilities, new_server,
  serve,
}
use rpc_plugin_system.Plugin.Guarded.{
  IsGuarded, serve-IsGuarded, is_identified, lets_through, authenticate-accepts,
}
use rpc_plugin_system.Plugin.Handshake.{IsReached, IsOwn, served, start_locked-served}

-- The one file is the token's.
abbrev token_file : Text → Option Text
token_file path = some (codes "k3y")

load_config-environment_example :
    load_config_from_env (getenv (environment idle.cfg 1 [])) token_file
    ≡ loaded (record {
      socket_path = socket_path idle.cfg;
      plugin_id = idle.cfg.plugin_id;
      generation_id = 1;
      auth_token = codes "k3y";
    })
load_config-environment_example =
    load_config-environment idle.cfg 1 [] token_file (codes "k3y") refl (omega arith) refl

abbrev own : Config
own = record {
  socket_path = codes "/run/p/echo.sock";
  plugin_id = codes "echo";
  generation_id = 1;
  auth_token = codes "k3y";
}

abbrev echo_core : Core
echo_core = record {
  listed = none;
  auth_hook = none;
  identity = none;
  heartbeat = returned (record {
    status = healthy;
    uptime_seconds = 4;
    current_work_count = 0;
    recent_error_count = 0;
  });
  shutdown = returned tt;
  echo = some (λ m. returned m);
  sleep = none;
  crash = none;
}

abbrev plugin_log : PluginLogger
plugin_log = record {
  plugin_id = codes "echo";
  generation_id = 1;
  pid = 700;
  size = ten;
  system = λ l. good_system;
  log = full_log;
}

abbrev requests : List (Core × Request)
requests =
    (echo_core, lists)
    ∷ ((echo_core, auths (codes "k3y"))
        ∷ ((echo_core, echoes (codes "hi")) ∷ ((echo_core, auths (codes "k3y")) ∷ [])))

serve-IsGuarded_example :
    IsGuarded requests
      (new_server own echo_core (some plugin_log))
      (serve requests (new_server own echo_core (some plugin_log)))
serve-IsGuarded_example = serve-IsGuarded requests (new_server own echo_core (some plugin_log))

authenticate-accepts_example :
    is_identified (authenticate echo_core (codes "k3y") (new_server own echo_core none)).0 ≡ true
    ↔ ((lets_through echo_core.auth_hook ≡ true)
        × ((new_server own echo_core none).auth_used ≡ false)
        × (codes "k3y" ≡ (new_server own echo_core none).cfg.auth_token))
authenticate-accepts_example =
    authenticate-accepts echo_core (codes "k3y") (new_server own echo_core none)

abbrev slow_request : Diagnostic
slow_request = record {
  capability_id = codes "mail";
  operation_id = codes "op-1";
  correlation_id = codes "c-1";
  status = codes "degraded";
  duration_ms = 1200;
  error_class = [];
  degraded_reason = codes "slow";
  message = codes "took long";
  details = end;
}

report-Reports_example : Reports plugin_log (report slow_request plugin_log)
report-Reports_example = report-Reports plugin_log slow_request

good_launch-IsReached : IsReached (good_launch 1)
good_launch-IsReached = record {
  token = refl;
  write_auth = refl;
  pid = 700;
  spawn = refl;
  peer = refl;
  conn = 7;
  dial = refl;
}

own-IsOwn : IsOwn idle own
own-IsOwn = record { id = refl; generation = refl }

no_sentinel : has_sentinel (detect_capabilities echo_core) ≡ false
unfolding has_sentinel detect_capabilities
no_sentinel = refl

start_locked-served_example :
    (start_locked
      (served (good_launch 1) echo_core (codes "k3y") (new_server own echo_core none))
      idle).0
    ≡ ok tt
start_locked-served_example =
    start_locked-served (good_launch 1) idle own echo_core none refl refl refl good_launch-IsReached
      own-IsOwn refl refl no_sentinel
