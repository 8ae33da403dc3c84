-- ===== src/Kernel/Lifecycle.antt =====
-- internal/kernel/manager.go: New, Start, Kill, Restart and Close; monitor.go: one round of
-- MonitorLoop. The four operations hold the lifecycle lock from end to end.
pub mod Kept
pub mod History
pub mod Final
pub mod Closing
pub mod Restart
use rpc_plugin_system.Prelude.{
  ℕ, ◌^◌, ltb, Bool, true, false, not, ◌||◌, Option, none, some, List, [], ◌∷◌, is_empty, ◌==◌,
  if◌then◌else◌,
}
use rpc_plugin_system.Kernel.Types.{
  Level, Component, EventName, Error, Reason, Result, ok, err, LogEntry, entry, Config, State, File,
  World, Manager, inc64, log_event, empty_state,
}
use rpc_plugin_system.Kernel.Rpc.{Reply}
use rpc_plugin_system.Kernel.Artifacts.{cleanup_artifacts}
use rpc_plugin_system.Kernel.Start.{Launch, start_locked}
use rpc_plugin_system.Kernel.Stop.{Halt, stop_current}
use rpc_plugin_system.Kernel.Requests.{HeartbeatResponse, heartbeat}

-- The checks of internal/runtime and the log file that New opens.
pub record Setup : Type 0 where
  pub executable_ok : Bool
  pub dir_ok : Bool
  pub log_ok : Bool

unfoldable pub or_default : ℕ → ℕ → ℕ
or_default value fallback = if value == 0 then fallback else value

-- Durations are in nanoseconds, as the 64 bits of an int64: from 2^63 on they are negative.
unfoldable pub with_defaults : Config → Config
unfolding or_default
with_defaults cfg = record cfg {
  dial_timeout = or_default cfg.dial_timeout 3000000000;
  call_timeout = or_default cfg.call_timeout 2000000000;
  heartbeat_every = or_default cfg.heartbeat_every 2000000000;
}

unfoldable pub new : Setup → World → Config → Result Manager
unfolding with_defaults
new env world cfg =
    if is_empty cfg.runtime_dir
      || (is_empty cfg.plugin_path || (is_empty cfg.plugin_id || is_empty cfg.event_log_path))
    then err Error.config_incomplete
    else if not env.executable_ok
    then err Error.bad_executable
    else if not env.dir_ok
    then err Error.bad_runtime_dir
    else if not env.log_ok
    then err Error.log_open_error
    else ok (record {
      cfg = with_defaults cfg;
      state = empty_state;
      cmd = none;
      client = none;
      rpc_epoch = 0;
      closed = false;
      log = entry Level.info Component.kernel EventName.manager_initialized 0 0 ∷ [];
      log_open = true;
      close_result = none;
      world = world;
    })

unfoldable pub kill : Halt → Manager → Result (Unit {0}) × Manager
kill env m = stop_current env false Reason.kill_requested m

abbrev pub manager_entry : Level → EventName → Manager → LogEntry
manager_entry level event m = entry level Component.kernel event m.state.generation_id m.state.pid

-- Lines 670 to 695. `m₀` is the manager that Restart found.
unfoldable pub after_restart_start :
    Manager → Result (Unit {0}) × Manager → Result (Unit {0}) × Manager
after_restart_start m₀ (err e, m) = (
  err e,
  log_event (record (manager_entry Level.error EventName.restart_failed m₀) { error = some e }) m,
)
after_restart_start m₀ (ok _, m) =
    (ok tt, log_event (manager_entry Level.info EventName.restart_succeeded m) m)

-- Lines 656 to 670.
unfoldable pub after_restart_stop :
    Launch → Manager → Result (Unit {0}) × Manager → Result (Unit {0}) × Manager
after_restart_stop launch m₀ (err e, m) = (
  err e,
  log_event (record (manager_entry Level.error EventName.restart_failed m₀) { error = some e }) m,
)
after_restart_stop launch m₀ (ok _, m) = after_restart_start m₀ (start_locked launch m)

unfoldable pub restart : Halt → Launch → Manager → Result (Unit {0}) × Manager
restart halt launch m =
    if m.closed
    then (err Error.manager_closed, m)
    else after_restart_stop launch m (
        stop_current halt false Reason.restart_requested
          (log_event (manager_entry Level.warn EventName.restart_requested m) m))

abbrev pub close_error : Bool → Result (Unit {0}) → Result (Unit {0})
close_error fails (err e) = err e
close_error true (ok _) = err Error.log_close_error
close_error false (ok _) = ok tt

-- Lines 178 to 189: what closeOnce runs.
unfoldable pub finish_close : Bool → Result (Unit {0}) × Manager → Result (Unit {0}) × Manager
finish_close log_fails (r, m) =
    let marked =
      if m.closed then m else record m { closed = true; rpc_epoch = inc64 m.rpc_epoch } in
    let cleaned = cleanup_artifacts 0 marked in
    let r' = close_error log_fails r in
    (r', record cleaned { log_open = false; close_result = some r' })

-- closeOnce.Do, by what an earlier run has left.
unfoldable pub close_once :
    Halt → Bool → Option (Result (Unit {0})) → Manager → Result (Unit {0}) × Manager
close_once env log_fails (some r) m = (r, m)
close_once env log_fails none m =
    finish_close log_fails (stop_current env true Reason.manager_close m)

unfoldable pub close : Halt → Bool → Manager → Result (Unit {0}) × Manager
close env log_fails m = close_once env log_fails m.close_result m

-- Line 13 of monitor.go: time.NewTicker panics unless its duration is positive.
unfoldable pub ticker_panics : Manager → Bool
ticker_panics m = (m.cfg.heartbeat_every == 0) || not (ltb m.cfg.heartbeat_every (2 ^ 63))

-- Lines 36 to 46 of monitor.go.
unfoldable pub after_monitor_restart : Result (Unit {0}) × Manager → Manager
after_monitor_restart (ok _, m) = m
after_monitor_restart (err e, m) =
    log_event
      (record (entry Level.error Component.kernel EventName.restart_failed 0 0) {
        error = some e;
        reason = some Reason.heartbeat_recovery;
      })
      m

-- Lines 21 to 47 of monitor.go; `true` ends the loop.
unfoldable pub after_monitor_heartbeat :
    Halt → Launch → Result HeartbeatResponse × Manager → Bool × Manager
after_monitor_heartbeat halt launch (ok _, m) = (false, m)
after_monitor_heartbeat halt launch (err e, m) = elim m.close_result [
  | some _ ↦ (true, m)
  | none ↦ (
    false,
    after_monitor_restart (
        restart halt launch (
          log_event
            (record (entry Level.warn Component.kernel EventName.heartbeat_failed 0 0) {
              error = some e;
              reason = some Reason.heartbeat_check;
            })
            m)),
  )
]

unfoldable pub monitor_tick :
    Reply HeartbeatResponse
    → (Manager → Manager)
    → (Manager → Manager)
    → Halt
    → Launch
    → Manager
    → Bool × Manager
monitor_tick reply between later halt launch m =
    after_monitor_heartbeat halt launch (heartbeat reply between later m)
