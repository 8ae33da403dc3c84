-- ===== src/Kernel/Tests.antt =====
-- internal/kernel/manager.go: concrete runs of one manager.
use rpc_plugin_system.Prelude.{
  ℕ, ◌≡◌, refl, true, false, none, some, List, [], ◌∷◌, Text, codes, arith,
}
use rpc_plugin_system.Kernel.Types.{
  Level, Component, EventName, Method, Reason, ok, Config, File, World, Manager, empty_state,
}
use rpc_plugin_system.Bundle.Tests.{declared}
use rpc_plugin_system.Bundle.Project.{core_dto}
use rpc_plugin_system.Kernel.Snapshot.{generation_bound_metadata, view, core_state}
use rpc_plugin_system.Kernel.Snapshot.Bound.{CoreFits, AdminFits, view-Fits}
use rpc_plugin_system.Kernel.Invariant.{IsWellFormed}
use rpc_plugin_system.Kernel.Rpc.{Reply, answer, timeout, call, call_done, call_started, is_stale}
use rpc_plugin_system.Kernel.Start.{
  Identity, Launch, begin_start, after_begin, launch, after_spawn, check_peer, authenticate,
  after_capabilities, accept_auth, start_locked,
}
use rpc_plugin_system.Kernel.Start.Total.{Fate, start_locked-Fate}
use rpc_plugin_system.Kernel.Stop.{Halt, exited, stop_current, begin_stop, after_detach}
use rpc_plugin_system.Kernel.Stop.Detach.{Stops, stop_current-Stops}
use rpc_plugin_system.Kernel.Requests.{
  HeartbeatResponse, healthy, is_healthy, heartbeat_is_stale, log_health, commit_heartbeat,
  after_heartbeat, heartbeat_from, heartbeat, echo, snapshot, routed_call,
}
use rpc_plugin_system.Kernel.Rpc.Fence.{IsCurrent}
use rpc_plugin_system.Kernel.Requests.Fence.{IsCommitted, heartbeat-fence, echo-fence}
use rpc_plugin_system.Kernel.Lifecycle.{
  Setup, new, with_defaults, or_default, kill, restart, after_restart_stop, after_restart_start,
  close,
}
use rpc_plugin_system.Kernel.Lifecycle.Kept.{Kept}
use rpc_plugin_system.Kernel.Lifecycle.Restart.{Restarts, restart-Restarts}
use rpc_plugin_system.Kernel.Lifecycle.Closing.{Closed, close-Closed}
use rpc_plugin_system.Kernel.Lifecycle.Final.{run-close}
use rpc_plugin_system.Kernel.Lifecycle.History.{
  Op, starts, kills, restarts, closes, beats, echoes, step, run, IsSound, history-IsSound,
}

abbrev echo_config : Config
echo_config = record {
  runtime_dir = codes "/run/p";
  plugin_path = codes "/bin/e";
  plugin_id = codes "echo";
  event_log_path = codes "/run/p/l";
  dial_timeout = 3;
  call_timeout = 3;
  heartbeat_every = 3;
  metadata = none;
  refresh = none;
  show_paths = false;
}

abbrev no_file : File
no_file = record { present = false; removable = true }

abbrev pub clean_world : World
clean_world = record { socket_file = no_file; auth_file = no_file; running = []; conns = [] }

abbrev pub idle : Manager
idle = record {
  cfg = echo_config;
  state = empty_state;
  cmd = none;
  client = none;
  rpc_epoch = 0;
  closed = false;
  log = [];
  log_open = true;
  close_result = none;
  world = clean_world;
}

-- Generation 1, as a start leaves it.
abbrev pub serving : Manager
serving = record idle {
  cmd = some 700;
  client = some 7;
  state = record {
    plugin_id = codes "echo";
    generation_id = 1;
    healthy = true;
    capabilities = codes "echo" ∷ [];
    socket_path = codes "/run/p/echo.sock";
    pid = 700;
  };
  world = record clean_world { running = 700 ∷ []; conns = 7 ∷ [] };
}

-- The same after one stop and one restart: epoch 1.
abbrev restarted : Manager
restarted = record serving { rpc_epoch = 1 }

abbrev as_echo : ℕ → Identity
as_echo generation = record { plugin_id = codes "echo"; generation_id = generation }

abbrev pub good_launch : ℕ → Launch
good_launch generation = record {
  token = true;
  write_auth = true;
  spawn = some 700;
  listens = true;
  dial = some 7;
  peer = some 700;
  auth = answer (as_echo generation);
  caps = answer (record { identity = as_echo generation; names = codes "echo" ∷ [] });
}

abbrev pub graceful : Halt
graceful = record { shutdown = answer tt; in_time = true; wait = exited; signal_failed = false }

-- The plugin does not answer the shutdown, and SIGKILL is refused.
abbrev pub stubborn : Halt
stubborn = record { shutdown = timeout; in_time = false; wait = exited; signal_failed = true }

pub idle-IsWellFormed : IsWellFormed idle
idle-IsWellFormed = record {
  client_cmd = λ e. refl;
  health_client = λ e. refl;
  pid_cmd = refl;
  closed_idle = λ e. refl;
  conns_client = refl;
}

pub serving-Kept : Kept serving
serving-Kept = record {
  well = record {
    client_cmd = λ e. cc;
    health_client = λ e. cc;
    pid_cmd = refl;
    closed_idle = λ e. cc;
    conns_client = refl;
  };
  orphans = [];
  children = refl;
  fits = omega arith;
}

start_locked-Fate_example : Fate (good_launch 2) idle [] (start_locked (good_launch 2) idle)
start_locked-Fate_example = start_locked-Fate (good_launch 2) idle [] idle-IsWellFormed refl

stop_current-Stops_example :
    Stops false serving [] (stop_current stubborn false Reason.kill_requested serving)
stop_current-Stops_example =
    stop_current-Stops stubborn false Reason.kill_requested serving [] serving-Kept.well refl

restart-Restarts_example :
    Restarts (good_launch 2) serving (restart graceful (good_launch 2) serving)
restart-Restarts_example = restart-Restarts graceful (good_launch 2) serving serving-Kept

abbrev beat : HeartbeatResponse
beat = record {
  status = healthy;
  uptime_seconds = 4;
  current_work_count = 0;
  recent_error_count = 0;
}

-- After a Close.
abbrev afterwards : List Op
afterwards =
    starts (good_launch 2)
    ∷ closes stubborn true
    ∷ restarts graceful (good_launch 2)
    ∷ beats (answer beat)
    ∷ []

close-Closed_example : Closed (close graceful false serving).0 (close graceful false serving).1
close-Closed_example = close-Closed graceful false serving serving-Kept refl

run-close_example :
    (run (close graceful false serving).1 afterwards ≡ ((close graceful false serving).1, 0))
    × (close stubborn true (run (close graceful false serving).1 afterwards).0
        ≡ close graceful false serving)
run-close_example =
    run-close graceful stubborn (good_launch 2) false true serving afterwards serving-Kept refl

-- A heartbeat in epoch 1 that nothing interrupts.
quiet_beat : (heartbeat (answer beat) (λ m. m) (λ m. m) restarted).0 ≡ ok beat
unfolding heartbeat heartbeat_from snapshot call call_done call_started is_stale after_heartbeat
    commit_heartbeat heartbeat_is_stale log_health is_healthy
quiet_beat = refl

heartbeat-fence_example :
    IsCommitted
      (answer beat)
      (λ m. m)
      (λ m. m)
      restarted
      beat
      (heartbeat (answer beat) (λ m. m) (λ m. m) restarted).1
heartbeat-fence_example = heartbeat-fence (answer beat) (λ m. m) (λ m. m) restarted beat quiet_beat

-- An echo in epoch 1 that nothing interrupts.
quiet_echo : (echo (answer (codes "hi")) (λ m. m) restarted).0 ≡ ok (codes "hi")
unfolding echo routed_call snapshot call call_done call_started is_stale
quiet_echo = refl

echo-fence_example :
    (◌≡◌ {A = Reply Text} (answer (codes "hi")) (answer (codes "hi")))
    × ((c : ℕ) × (restarted.client ≡ some c)
        × IsCurrent c 1 1 (call_started 1 Method.echo restarted))
echo-fence_example =
    echo-fence (answer (codes "hi")) (λ m. m) restarted (codes "hi") (omega arith) quiet_echo

abbrev all_good : Setup
all_good = record { executable_ok = true; dir_ok = true; log_ok = true }

abbrev made : Manager
made = record idle {
  log =
      record {
        level = Level.info;
        component = Component.kernel;
        event = EventName.manager_initialized;
        generation_id = 0;
        pid = 0;
        method = none;
        reason = none;
        error = none;
      }
      ∷ [];
}

new_makes : new all_good clean_world echo_config ≡ ok made
unfolding new with_defaults or_default
new_makes = refl

abbrev busy_day : List Op
busy_day =
    starts (good_launch 1)
    ∷ echoes timeout
    ∷ restarts graceful (good_launch 2)
    ∷ kills stubborn
    ∷ []

history-IsSound_example : IsSound (run made busy_day)
history-IsSound_example =
    history-IsSound all_good clean_world echo_config made busy_day refl refl new_makes

-- Two generations were published in that history.
busy_day_generation : (run made busy_day).1 ≡ 2
unfolding run step start_locked begin_start after_begin launch after_spawn check_peer authenticate
    call after_capabilities accept_auth kill restart after_restart_stop stop_current after_detach
    begin_stop echo snapshot after_restart_start
busy_day_generation = refl

-- Declared for generation 1, in which the manager is.
abbrev declaring : Manager
declaring = record serving { cfg = record echo_config { metadata = some declared } }

core_shows : (core_state declaring).metadata ≡ some (core_dto declared)
unfolding core_state generation_bound_metadata
core_shows = refl

view-Fits_example :
    CoreFits declaring.state (core_state declaring).metadata
    × AdminFits false declaring.state (view declaring).metadata
view-Fits_example = view-Fits declaring
