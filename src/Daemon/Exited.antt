-- ===== src/Daemon/Exited.antt =====
-- cmd/rpcplugind/main.go, run, with the production dependencies: from the flags to the last Close.
use rpc_plugin_system.Prelude.{
  ◌≡◌, ◌<◌, ◌^◌, refl, sym, Bool, true, false, Option, none, some, List, [], ◌∷◌, Text, if_cases,
}
use mathlib.Core.Path.{subst}
use rpc_plugin_system.Kernel.Types.{
  Level, Component, EventName, Reason, LogEntry, entry, log_event, Error, Result, ok, err, Manager,
}
use rpc_plugin_system.Kernel.Rpc.{Reply}
use rpc_plugin_system.Kernel.Start.{Launch}
use rpc_plugin_system.Kernel.Stop.{Halt}
use rpc_plugin_system.Kernel.Requests.{HeartbeatResponse, echo, heartbeat}
use rpc_plugin_system.Kernel.Lifecycle.{
  ticker_panics, restart, monitor_tick, after_monitor_heartbeat, after_monitor_restart,
}
use rpc_plugin_system.Kernel.Lifecycle.Kept.{log-Kept}
use rpc_plugin_system.Host.Types.{Member, Outside, find_member, set_member}
use rpc_plugin_system.Host.Operations.{start_all}
use rpc_plugin_system.Host.Build.{Built, built, refused, new_host, validate_plugin_id}
use rpc_plugin_system.Host.Routing.{Exchange}
use rpc_plugin_system.Host.Direct.{plugin, on_member, host_echo, host_heartbeat, restart_plugin}
use rpc_plugin_system.Host.Agreeing.{restart_found, restart_plugin-found}
use rpc_plugin_system.Host.Lists.{All}
use rpc_plugin_system.Host.Building.{
  IsClean, Fresh, IsClosedMember, is_configured, Made, new_host-Made,
}
use rpc_plugin_system.Host.Ticking.{Ticks, Ticking, new_host-Ticking}
use rpc_plugin_system.Host.Ready.{
  IsReady, Ready, restart-IsReady, echo-IsReady, heartbeat-IsReady, set_member-Ready,
  find_member-Ready, monitor_panics-Ready, start_all-Ready, close_all-Closed,
}
use rpc_plugin_system.Admin.Service.{
  AdminRequest, statuses, plugin_list, capability_list, route_list, one_plugin, echo_to, beat_to,
  restart_of, AdminResponse, state, AdminResult, to_admin, admitted, with_id, serve_host,
}
use rpc_plugin_system.Daemon.Plugins.{Parsed, parsed, rejected}
use rpc_plugin_system.Daemon.Config.{System, ResolvedDaemonConfig, parse_daemon_config}
use rpc_plugin_system.Daemon.Run.{
  DaemonDeps, FlagResult, help_wanted, bad_flags, options, Exit, after_start_all, after_new_host,
  after_config, run, host_of, succeeded, production_deps,
}

-- What happens to a serving daemon, one thing after the other: a request of the admin service, or a
-- round of the monitor of one plugin, with what the plugin and the system answer.
pub data Action : Type 0 where
  asked : Reply HeartbeatResponse → (Text → Reply Text) → Halt → Launch → AdminRequest → Action
  ticked : Text → Reply HeartbeatResponse → Halt → Launch → Action

abbrev pub quiet : Reply HeartbeatResponse → (Text → Reply Text) → Halt → Launch → Exchange
quiet beat said halt launch = record {
  beat_reply = beat;
  echo_reply = said;
  between = λ m. m;
  later = λ m. m;
  halt = halt;
  launch = launch;
}

abbrev pub tick_found :
    Text → (Manager → Bool × Manager) → List Member → Option Manager → List Member
tick_found id tick ms none = ms
tick_found id tick ms (some m) = set_member id (tick m).1 ms

abbrev pub act : Action → List Member → List Member
act (asked beat said halt launch r) ms = (serve_host (quiet beat said halt launch) r ms).1
act (ticked id beat halt launch) ms =
    tick_found id (monitor_tick beat (λ x. x) (λ x. x) halt launch) ms (find_member id ms)

abbrev pub act_all : List Action → List Member → List Member
act_all [] ms = ms
act_all (a ∷ as') ms = act_all as' (act a ms)

-- The daemon whose serving phase is a list of actions, and whether serve ended well.
abbrev pub daemon : Outside → List Action → Bool → DaemonDeps (List Member)
daemon env actions well = production_deps env (λ ms. ms) (λ socket ms. (well, act_all actions ms))

on_member-Ready :
    {A : Type 0} (id : Text) (ms : List Member) (f : Manager → Result A × Manager)
    (o : Option Manager)
    → ((m : Manager) → IsReady m → IsReady (f m).1)
    → All Ready ms
    → find_member id ms ≡ o
    → All Ready (on_member id ms f o).1
on_member-Ready id ms f none k h e = h
on_member-Ready id ms f (some m) k h e =
    set_member-Ready id (f m).1 ms (k m (find_member-Ready id m ms h e)) h

restart_found-Ready :
    (env : Exchange) (id : Text) (ms : List Member) (o : Option Manager)
    → All Ready ms
    → find_member id ms ≡ o
    → All Ready (restart_found env id ms o).1
restart_found-Ready env id ms none h e = h
restart_found-Ready env id ms (some m) h e =
    set_member-Ready id (restart env.halt env.launch m).1 ms
      (restart-IsReady env.halt env.launch m (find_member-Ready id m ms h e)) h

restart_plugin-Ready :
    (env : Exchange) (id : Text) (ms : List Member)
    → All Ready ms
    → All Ready (restart_plugin env id ms).1
restart_plugin-Ready env id ms h =
    let (v, same) = restart_plugin-found env id ms in
    subst (All Ready) (sym same) (restart_found-Ready env id ms (find_member id ms) h refl)

with_id-Ready :
    (id : Text) (ms : List Member) (method : List Member → AdminResult × List Member)
    → All Ready ms
    → All Ready (method ms).1
    → All Ready (with_id id method ms).1
with_id-Ready id ms method h k =
    if_cases {A = AdminResult × List Member} (λ x. All Ready x.1) (validate_plugin_id id) (λ v. k)
      (λ v. h)

log-IsReady : (e : LogEntry) (m : Manager) → IsReady m → IsReady (log_event e m)
log-IsReady e m r = record {
  kept = log-Kept e m r.kept;
  first = r.first;
  ticks = unfold ticker_panics in r.ticks;
}

after_monitor_restart-IsReady :
    (x : Result (Unit {0}) × Manager) → IsReady x.1 → IsReady (after_monitor_restart x)
unfolding after_monitor_restart
after_monitor_restart-IsReady (ok _, m) r = r
after_monitor_restart-IsReady (err e, m) r = log-IsReady _ m r

tick_ended-IsReady :
    (halt : Halt) (launch : Launch) (x : Result HeartbeatResponse × Manager)
    → IsReady x.1
    → IsReady (after_monitor_heartbeat halt launch x).1
unfolding after_monitor_heartbeat
tick_ended-IsReady halt launch (ok b, m) r = r
tick_ended-IsReady halt launch (err e, m) r =
    let told : Manager =
      log_event
        (record (entry Level.warn Component.kernel EventName.heartbeat_failed 0 0) {
          error = some e;
          reason = some Reason.heartbeat_check;
        })
        m in
    let restarted : IsReady (after_monitor_restart (restart halt launch told)) =
      after_monitor_restart-IsReady (restart halt launch told)
        (restart-IsReady halt launch told (log-IsReady _ m r)) in
    elim m.close_result
      as (λ o.
        IsReady
          (elim o as (λ _. Bool × Manager) [
            | some _ ↦ (true, m)
            | none ↦ (false, after_monitor_restart (restart halt launch told))
          ]).1) [ some _ ↦ r | none ↦ restarted ]

tick_found-Ready :
    (id : Text) (beat : Reply HeartbeatResponse) (halt : Halt) (launch : Launch) (ms : List Member)
    (o : Option Manager)
    → All Ready ms
    → find_member id ms ≡ o
    → All Ready (tick_found id (monitor_tick beat (λ x. x) (λ x. x) halt launch) ms o)
unfolding monitor_tick
tick_found-Ready id beat halt launch ms none h e = h
tick_found-Ready id beat halt launch ms (some m) h e =
    set_member-Ready id (monitor_tick beat (λ x. x) (λ x. x) halt launch m).1 ms
      (tick_ended-IsReady halt launch (heartbeat beat (λ x. x) (λ x. x) m)
        (heartbeat-IsReady beat m (find_member-Ready id m ms h e)))
      h

serve_host-Ready :
    (beat : Reply HeartbeatResponse) (said : Text → Reply Text) (halt : Halt) (launch : Launch)
    (r : AdminRequest) (ms : List Member)
    → All Ready ms
    → All Ready (serve_host (quiet beat said halt launch) r ms).1
unfolding serve_host host_echo host_heartbeat
serve_host-Ready beat said halt launch statuses ms h = h
serve_host-Ready beat said halt launch plugin_list ms h = h
serve_host-Ready beat said halt launch capability_list ms h = h
serve_host-Ready beat said halt launch route_list ms h = h
serve_host-Ready beat said halt launch (one_plugin id) ms h =
    with_id-Ready id ms (λ xs. (to_admin state (plugin id xs), xs)) h h
serve_host-Ready beat said halt launch (echo_to id message) ms h =
    with_id-Ready id ms
      (λ xs. admitted AdminResponse.said (host_echo (quiet beat said halt launch) id message xs)) h
      (on_member-Ready id ms (λ m. echo (said message) (λ x. x) m) (find_member id ms)
        (echo-IsReady (said message)) h refl)
serve_host-Ready beat said halt launch (beat_to id) ms h =
    with_id-Ready id ms
      (λ xs. admitted AdminResponse.beat (host_heartbeat (quiet beat said halt launch) id xs)) h
      (on_member-Ready id ms (λ m. heartbeat beat (λ x. x) (λ x. x) m) (find_member id ms)
        (heartbeat-IsReady beat) h refl)
serve_host-Ready beat said halt launch (restart_of id) ms h =
    with_id-Ready id ms (λ xs. admitted state (restart_plugin (quiet beat said halt launch) id xs))
      h (restart_plugin-Ready (quiet beat said halt launch) id ms h)

act_all-Ready :
    (actions : List Action) (ms : List Member) → All Ready ms → All Ready (act_all actions ms)
act_all-Ready [] ms h = h
act_all-Ready (asked beat said halt launch r ∷ rest) ms h =
    act_all-Ready rest (act (asked beat said halt launch r) ms)
      (serve_host-Ready beat said halt launch r ms h)
act_all-Ready (ticked id beat halt launch ∷ rest) ms h =
    act_all-Ready rest (act (ticked id beat halt launch) ms)
      (tick_found-Ready id beat halt launch ms (find_member id ms) h refl)

Fresh-Ready : (xs : List Member) → All Fresh xs → All Ticks xs → All Ready xs
Fresh-Ready [] h t = tt
Fresh-Ready (x ∷ xs) (h, hs) (t, ts) =
    (record { kept = h.kept; first = h.first; ticks = t }, Fresh-Ready xs hs ts)

abbrev ReadyHost : Option (List Member) → Type 0
ReadyHost none = Unit {0}
ReadyHost (some ms) = All Ready ms

built-ReadyHost : (ids : Text → Bool) (b : Built) → Made ids b → Ticking b → ReadyHost (host_of b)
built-ReadyHost ids (built ms) h t = Fresh-Ready ms h.fresh t
built-ReadyHost ids (refused e left) h t = tt

-- The configured interval of the monitors is not negative, if a configuration is parsed.
abbrev pub Paced : Parsed ResolvedDaemonConfig → Type 0
Paced (rejected e) = Unit {0}
Paced (parsed cfg) = cfg.host.heartbeat_every < 2 ^ 63

abbrev pub PacedFlags : System → FlagResult → Type 0
PacedFlags sys help_wanted = Unit {0}
PacedFlags sys bad_flags = Unit {0}
PacedFlags sys (options opts) = Paced (parse_daemon_config sys opts)

-- Every manager of the host that was made, if one was, is closed.
abbrev pub AllClosed : Option (List Member) → Type 0
AllClosed none = Unit {0}
AllClosed (some ms) = All IsClosedMember ms

abbrev Leaves : Exit (List Member) → Type 0
Leaves x = AllClosed x.host

module _ (env : Outside) (actions : List Action) (well : Bool) where
  after_start_all-Leaves :
      (socket : Text) (x : Option Error × List Member)
      → All Ready x.1
      → Leaves (after_start_all (daemon env actions well) socket (succeeded x))
  unfolding production_deps
  after_start_all-Leaves socket (none, ms) h =
      rw (monitor_panics-Ready ms h)
        (close_all-Closed env (act_all actions ms) (act_all-Ready actions ms h))
  after_start_all-Leaves socket (some e, ms) h = close_all-Closed env ms h

  after_new_host-Leaves :
      (socket : Text) (o : Option (List Member))
      → ReadyHost o
      → Leaves (after_new_host (daemon env actions well) socket o)
  after_new_host-Leaves socket none h = tt
  after_new_host-Leaves socket (some ms) h =
      unfold production_deps in
      after_start_all-Leaves socket (start_all env ms) (start_all-Ready env ms h)

  after_config-Leaves :
      (x : Parsed ResolvedDaemonConfig)
      → IsClean env
      → Paced x
      → Leaves (after_config (daemon env actions well) x)
  after_config-Leaves (rejected e) clean pace = tt
  after_config-Leaves (parsed cfg) clean pace =
      unfold production_deps in
      after_new_host-Leaves cfg.admin_socket (host_of (new_host env cfg.host)) (
        built-ReadyHost (is_configured cfg.host.plugins) (new_host env cfg.host)
          (new_host-Made env cfg.host clean) (new_host-Ticking env cfg.host pace))

  -- Over plugins none of which runs yet, whatever the flags and the config file are, as long as the
  -- interval of heartbeats that they configure is not negative, whatever the plugins and the system
  -- answer, and whatever admin requests and monitor rounds happen one after
  -- the other while it serves: when the daemon exits with a host, each of its managers is closed, and
  -- so has no process, no connection, and a closed log.
  pub run-AllClosed :
      (sys : System) (flags : FlagResult)
      → IsClean env
      → PacedFlags sys flags
      → AllClosed (run (daemon env actions well) sys flags).host
  unfolding run
  run-AllClosed sys help_wanted clean pace = tt
  run-AllClosed sys bad_flags clean pace = tt
  run-AllClosed sys (options opts) clean pace =
      after_config-Leaves (parse_daemon_config sys opts) clean pace
