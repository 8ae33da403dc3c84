-- ===== src/Kernel/Stop.antt =====
-- internal/kernel/manager.go: stopCurrent.
pub mod Detach
use rpc_plugin_system.Prelude.{
  ℕ, Bool, true, false, not, ◌&&◌, ◌||◌, Option, none, some, List, [], ◌∷◌, if◌then◌else◌,
}
use rpc_plugin_system.Kernel.Types.{
  Level, Component, EventName, Method, Error, Reason, Result, ok, err, LogEntry, entry, State,
  World, Manager, inc64, log_event,
}
use rpc_plugin_system.Kernel.Rpc.{Reply, call, close_conn}
use rpc_plugin_system.Kernel.Artifacts.{cleanup_artifacts, reap}

-- What waitProcess gives; `gone` is os.ErrProcessDone.
pub data Wait : Type 0 where
  exited gone wait_failed : Wait

-- What the plugin and the system do when one process is stopped.
pub record Halt : Type 0 where
  pub shutdown : Reply (Unit {0})
  pub in_time : Bool  -- the process ends within the grace period of 250 ms
  pub wait : Wait
  pub signal_failed : Bool  -- SIGKILL fails otherwise than by os.ErrProcessDone

-- What the locked section read.
pub record Stopping : Type 0 where
  pub client : Option ℕ
  pub cmd : Option ℕ
  pub generation : ℕ
  pub pid : ℕ

-- Lines 902 to 920: the locked section that detaches the process and moves the epoch on.
unfoldable pub begin_stop : Bool → Manager → Result Stopping × Manager
begin_stop mark_closed m = if m.closed then (err Error.manager_closed, m) else (
  ok (record {
    client = m.client;
    cmd = m.cmd;
    generation = m.state.generation_id;
    pid = m.state.pid;
  }),
  record m {
    rpc_epoch = inc64 m.rpc_epoch;
    client = none;
    cmd = none;
    state = record m.state { healthy = false; pid = 0 };
    closed = mark_closed || m.closed;
  },
)

abbrev stop_entry : Level → EventName → Stopping → LogEntry
stop_entry level event s = entry level Component.kernel event s.generation s.pid

abbrev shutdown_entry : Level → EventName → Stopping → LogEntry
shutdown_entry level event s = record (stop_entry level event s) { method = some Method.shutdown }

-- Lines 946 to 971.
unfoldable pub after_shutdown : Stopping → Result (Unit {0}) × Manager → Manager
after_shutdown s (ok _, m) = log_event (shutdown_entry Level.info EventName.shutdown_succeeded s) m
after_shutdown s (err e, m) =
    log_event (record (shutdown_entry Level.warn EventName.shutdown_failed s) { error = some e }) m

-- Lines 934 to 973.
unfoldable pub shut_down : Halt → Stopping → Option ℕ → Manager → Manager
unfolding after_shutdown close_conn call
shut_down env s none m = m
shut_down env s (some c) m = close_conn c (
    after_shutdown s (
      call c s.generation 0 Method.shutdown env.shutdown (λ x. x)
        (log_event (shutdown_entry Level.info EventName.shutdown_requested s) m)))

-- Lines 1007 to 1019.
unfoldable pub stopped : Reason → Stopping → Manager → Result (Unit {0}) × Manager
unfolding cleanup_artifacts
stopped reason s m = (
  ok tt,
  cleanup_artifacts s.generation (
      log_event (record (stop_entry Level.info EventName.plugin_stopped s) { reason = some reason })
        m),
)

-- Lines 992 to 1004.
unfoldable pub killed : Reason → Stopping → Manager → Result (Unit {0}) × Manager
unfolding cleanup_artifacts
killed reason s m = (
  ok tt,
  cleanup_artifacts s.generation (
      log_event (record (stop_entry Level.warn EventName.plugin_killed s) { reason = some reason })
        m),
)

-- Lines 981 to 984: the process ended by itself.
unfoldable pub after_wait : Reason → Stopping → ℕ → Wait → Manager → Result (Unit {0}) × Manager
unfolding reap stopped
after_wait reason s pid wait_failed m = (err Error.wait_error, m)
after_wait reason s pid exited m = stopped reason s (reap pid m)
after_wait reason s pid gone m = stopped reason s (reap pid m)

-- Lines 985 to 1005: it had to be killed.
unfoldable pub after_kill :
    Reason → Stopping → ℕ → Bool → Wait → Manager → Result (Unit {0}) × Manager
unfolding reap killed
after_kill reason s pid true w m = (err Error.kill_error, m)
after_kill reason s pid false wait_failed m = (err Error.wait_after_kill_error, m)
after_kill reason s pid false exited m = killed reason s (reap pid m)
after_kill reason s pid false gone m = killed reason s (reap pid m)

-- Lines 974 to 1019.
unfoldable pub end_process :
    Halt → Reason → Stopping → Option ℕ → Manager → Result (Unit {0}) × Manager
unfolding stopped after_wait after_kill
end_process env reason s none m = stopped reason s m
end_process env reason s (some pid) m =
    if env.in_time
    then after_wait reason s pid env.wait m
    else after_kill reason s pid env.signal_failed env.wait m

unfoldable pub after_detach :
    Halt → Reason → Result Stopping × Manager → Result (Unit {0}) × Manager
unfolding shut_down end_process
after_detach env reason (err e, m) = (err e, m)
after_detach env reason (ok s, m) = end_process env reason s s.cmd (
    shut_down env s s.client (
      log_event (record (stop_entry Level.warn EventName.kill_requested s) { reason = some reason })
        m))

unfoldable pub stop_current : Halt → Bool → Reason → Manager → Result (Unit {0}) × Manager
unfolding begin_stop after_detach
stop_current env mark_closed reason m = after_detach env reason (begin_stop mark_closed m)
