-- ===== src/Kernel/Requests.antt =====
-- internal/kernel/manager.go: Heartbeat, Echo, Sleep and Crash. These do not take the lifecycle
-- lock: `between` and `later` are what other goroutines did while the call waited, and between the
-- acceptance of the reply and the second locked section of Heartbeat.
pub mod Kept
pub mod Fence
use rpc_plugin_system.Prelude.{
  ℕ, Bool, true, false, not, ◌||◌, Option, none, some, Text, ◌==◌, opt_eq, ◌∷◌, if◌then◌else◌,
}
use rpc_plugin_system.Kernel.Types.{
  Level, Component, EventName, Method, Error, Reason, Result, ok, err, LogEntry, entry, State,
  Manager, log_event,
}
use rpc_plugin_system.Kernel.Rpc.{Reply, call}

-- plugin.Status
pub data Status : Type 0 where
  starting healthy degraded overloaded unhealthy : Status

-- HeartbeatResponse, of which the manager reads the status
pub record HeartbeatResponse : Type 0 where
  pub status : Status
  pub uptime_seconds : ℕ
  pub current_work_count : ℕ
  pub recent_error_count : ℕ

unfoldable pub is_healthy : Status → Bool
is_healthy healthy = true
is_healthy starting = false
is_healthy degraded = false
is_healthy overloaded = false
is_healthy unhealthy = false

-- What a request reads under the lock before it calls.
pub record Snapshot : Type 0 where
  pub client : ℕ
  pub generation : ℕ
  pub epoch : ℕ
  pub pid : ℕ

unfoldable pub snapshot : Manager → Result Snapshot
snapshot m = if m.closed then err Error.manager_closed else elim m.client [
  | none ↦ err Error.not_started
  | some c ↦ ok (record {
    client = c;
    generation = m.state.generation_id;
    epoch = m.rpc_epoch;
    pid = m.state.pid;
  })
]

-- Echo, Sleep and Crash are one call with different payloads.
unfoldable pub routed_call {ℓ} :
    {A : Type ℓ}
    → Method
    → Reply A
    → (Manager → Manager)
    → Result Snapshot
    → Manager
    → Result A × Manager
unfolding call
routed_call method reply between (err e) m = (err e, m)
routed_call method reply between (ok s) m =
    call s.client s.generation s.epoch method reply between m

unfoldable pub echo : Reply Text → (Manager → Manager) → Manager → Result Text × Manager
unfolding routed_call snapshot
echo reply between m = routed_call Method.echo reply between (snapshot m) m

unfoldable pub sleep :
    Reply (Unit {0}) → (Manager → Manager) → Manager → Result (Unit {0}) × Manager
unfolding routed_call snapshot
sleep reply between m = routed_call Method.sleep reply between (snapshot m) m

unfoldable pub crash :
    Reply (Unit {0}) → (Manager → Manager) → Manager → Result (Unit {0}) × Manager
unfolding routed_call snapshot
crash reply between m = routed_call Method.crash reply between (snapshot m) m

abbrev heartbeat_entry : Level → EventName → Snapshot → LogEntry
heartbeat_entry level event s = record (entry level Component.kernel event s.generation s.pid) {
  method = some Method.heartbeat;
}

-- The test of line 539.
unfoldable pub heartbeat_is_stale : Snapshot → Manager → Bool
heartbeat_is_stale s m =
    m.closed
    || (not (opt_eq m.client (some s.client))
        || (not (m.rpc_epoch == s.epoch) || not (m.state.generation_id == s.generation)))

-- Lines 546 to 573.
unfoldable pub log_health : Snapshot → Bool → Bool → Manager → Manager
log_health s was true m =
    if was then m else log_event (heartbeat_entry Level.info EventName.heartbeat_healthy s) m
log_health s was false m =
    log_event
      (record (heartbeat_entry Level.warn EventName.heartbeat_unhealthy s) {
        reason = some Reason.unhealthy_status;
      })
      m

-- Lines 537 to 574: the second locked section.
unfoldable pub commit_heartbeat :
    Snapshot → HeartbeatResponse → Manager → Result HeartbeatResponse × Manager
unfolding heartbeat_is_stale log_health is_healthy
commit_heartbeat s out m = if heartbeat_is_stale s m then (err Error.stale_heartbeat, m) else (
  ok out,
  log_health s m.state.healthy (is_healthy out.status)
      (record m { state = record m.state { healthy = is_healthy out.status } }),
)

unfoldable pub after_heartbeat :
    Snapshot
    → (Manager → Manager)
    → Result HeartbeatResponse × Manager
    → Result HeartbeatResponse × Manager
unfolding commit_heartbeat
after_heartbeat s later (err e, m) = (
  err e,
  log_event (record (heartbeat_entry Level.warn EventName.heartbeat_failed s) { error = some e }) m,
)
after_heartbeat s later (ok out, m) = commit_heartbeat s out (later m)

unfoldable pub heartbeat_from :
    Reply HeartbeatResponse
    → (Manager → Manager)
    → (Manager → Manager)
    → Result Snapshot
    → Manager
    → Result HeartbeatResponse × Manager
unfolding after_heartbeat call
heartbeat_from reply between later (err e) m = (err e, m)
heartbeat_from reply between later (ok s) m =
    after_heartbeat s later (call s.client s.generation s.epoch Method.heartbeat reply between m)

unfoldable pub heartbeat :
    Reply HeartbeatResponse
    → (Manager → Manager)
    → (Manager → Manager)
    → Manager
    → Result HeartbeatResponse × Manager
unfolding heartbeat_from snapshot
heartbeat reply between later m = heartbeat_from reply between later (snapshot m) m
