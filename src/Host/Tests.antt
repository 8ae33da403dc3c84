-- ===== src/Host/Tests.antt =====
-- internal/kernel/host.go: concrete runs of a host with two plugins.
use rpc_plugin_system.Prelude.{
  some, ◌≡◌, refl, true, false, none, List, [], ◌∷◌, ◌++◌, Text, codes, arith,
}
use rpc_plugin_system.Kernel.Rpc.{answer, timeout}
use rpc_plugin_system.Kernel.Tests.{
  idle, serving, serving-Kept, idle-IsWellFormed, good_launch, graceful, clean_world,
}
use rpc_plugin_system.Kernel.Lifecycle.Kept.{Kept}
use rpc_plugin_system.Host.Types.{PluginConfig, HostConfig, Member, HostError, failed, Outside}
use rpc_plugin_system.Host.Build.{new_host}
use rpc_plugin_system.Host.Operations.{start_all}
use rpc_plugin_system.Host.Routing.{echoes, other, Exchange, call_request, dispatch, host_state}
use rpc_plugin_system.Host.Building.{IsClean, Made, is_configured, new_host-Made}
use rpc_plugin_system.Host.Starting.{StartsAll, start_all-StartsAll}
use rpc_plugin_system.Host.Routed.{IsRouted, call_request-IsRouted}
use rpc_plugin_system.Host.Capabilities.{has_text, ids_at, provides, capability_map-provides}

abbrev join_slash : Text → Text → Text
join_slash root name = root ++ 47 ∷ name

abbrev pub outside : Outside
outside = record {
  join = join_slash;
  setup = λ id. record { executable_ok = true; dir_ok = true; log_ok = true };
  world = λ id. clean_world;
  launch = λ id. good_launch 1;
  halt = λ id. graceful;
  log_close_fails = λ id. false;
}

pub outside-IsClean : IsClean outside
outside-IsClean = record { running = λ id. refl; conns = λ id. refl }

abbrev plugin : Text → PluginConfig
plugin id = record { plugin_id = id; plugin_path = codes "/bin/e"; metadata = none; refresh = none }

abbrev two_plugins : HostConfig
two_plugins = record {
  runtime_dir = codes "/run/h";
  dial_timeout = 3;
  call_timeout = 3;
  heartbeat_every = 3;
  plugins = plugin (codes "ok") ∷ (plugin (codes "../etc") ∷ []);
  show_paths = false;
}

new_host-Made_example : Made (is_configured two_plugins.plugins) (new_host outside two_plugins)
new_host-Made_example = new_host-Made outside two_plugins outside-IsClean

idle-Kept : Kept idle
idle-Kept = record { well = idle-IsWellFormed; orphans = []; children = refl; fits = omega arith }

abbrev pub two_members : List Member
two_members =
    record { id = codes "echo"; manager = idle }
    ∷ (record { id = codes "work"; manager = serving } ∷ [])

start_all-StartsAll_example : StartsAll two_members (start_all outside two_members)
start_all-StartsAll_example =
    start_all-StartsAll outside two_members (idle-Kept, (serving-Kept, tt))

abbrev pub exchange : Exchange
exchange = record {
  beat_reply = timeout;
  echo_reply = λ message. answer message;
  between = λ m. m;
  later = λ m. m;
  halt = graceful;
  launch = good_launch 2;
}

unsupported :
    call_request exchange (codes "work") (other (codes "sleep")) none two_members
    ≡ (failed HostError.unsupported_call, two_members)
unfolding call_request dispatch
unsupported = refl

call_request-IsRouted_example :
    IsRouted exchange
      (codes "work")
      echoes
      (some (codes "hi"))
      two_members
      (call_request exchange (codes "work") echoes (some (codes "hi")) two_members)
call_request-IsRouted_example =
    call_request-IsRouted exchange (codes "work") echoes (some (codes "hi")) two_members

capability_map-provides_example :
    has_text (codes "work") (ids_at (codes "echo") (host_state two_members).capability_map)
    ≡ provides (codes "work") (codes "echo") two_members
capability_map-provides_example = capability_map-provides (codes "work") (codes "echo") two_members
