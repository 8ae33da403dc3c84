-- ===== src/Host/Build.antt =====
-- internal/kernel/host.go: NewHost.
use rpc_plugin_system.Prelude.{
  Bool, not, List, [], ◌∷◌, ◌++◌, Text, codes, is_empty, matches_id_pattern, if◌then◌else◌,
}
use rpc_plugin_system.Kernel.Types.{Result, ok, err, Config, Manager}
use rpc_plugin_system.Kernel.Lifecycle.{new}
use rpc_plugin_system.Host.Types.{
  PluginConfig, HostConfig, Member, HostError, Outside, has_member, sort_members,
}
use rpc_plugin_system.Host.Operations.{close_all}

-- ValidatePluginID of plugin_id.go; the pattern needs one character, so that the test of "" is in it.
unfoldable pub validate_plugin_id : Text → Bool
validate_plugin_id id = matches_id_pattern id

-- pluginEventLogPath is filepath.Join of three elements.
abbrev pub manager_config : Outside → HostConfig → PluginConfig → Config
manager_config env cfg p = record {
  runtime_dir = env.join cfg.runtime_dir p.plugin_id;
  plugin_path = p.plugin_path;
  plugin_id = p.plugin_id;
  event_log_path = env.join (env.join cfg.runtime_dir p.plugin_id) (codes "events.jsonl");
  dial_timeout = cfg.dial_timeout;
  call_timeout = cfg.call_timeout;
  heartbeat_every = cfg.heartbeat_every;
  metadata = p.metadata;
  refresh = p.refresh;
  show_paths = cfg.show_paths;
}

-- The host, or the error and the managers that were made before it, which the caller never sees.
pub data Built : Type 0 where
  built : List Member → Built
  refused : HostError → List Member → Built

-- One round of the loop, by the result of New.
unfoldable pub after_new :
    Outside → List Member → Text → (List Member → Built) → Result Manager → Built
unfolding close_all
after_new env made id loop (err e) = refused (HostError.manager_error e) (close_all env made).1
after_new env made id loop (ok m) = loop (made ++ record { id = id; manager = m } ∷ [])

unfoldable pub build_loop : Outside → HostConfig → List Member → List PluginConfig → Built
unfolding after_new validate_plugin_id
build_loop env cfg made [] = built (sort_members made)
build_loop env cfg made (p ∷ ps) =
    if not (validate_plugin_id p.plugin_id)
    then refused HostError.invalid_plugin_id made
    else if is_empty p.plugin_path
    then refused HostError.plugin_path_required made
    else if has_member p.plugin_id made
    then refused HostError.duplicate_plugin_id made
    else after_new env made p.plugin_id (λ s. build_loop env cfg s ps)
        (new (env.setup p.plugin_id) (env.world p.plugin_id) (manager_config env cfg p))

abbrev pub has_none : List PluginConfig → Bool
has_none [] = Bool.true
has_none (p ∷ ps) = Bool.false

unfoldable pub new_host : Outside → HostConfig → Built
unfolding build_loop
new_host env cfg =
    if is_empty cfg.runtime_dir
    then refused HostError.runtime_dir_required []
    else if has_none cfg.plugins
    then refused HostError.no_plugins []
    else build_loop env cfg [] cfg.plugins
