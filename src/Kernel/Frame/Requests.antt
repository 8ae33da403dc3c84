-- ===== src/Kernel/Frame/Requests.antt =====
-- internal/kernel/manager.go: stop, restart and the requests leave closeOnce alone too.
use rpc_plugin_system.Prelude.{ℕ, refl, ◌∙◌, Bool, true, false, Option, none, some, if_cases}
use rpc_plugin_system.Kernel.Types.{
  Level, Component, EventName, Method, Reason, Result, ok, err, Manager, entry, log_event,
}
use rpc_plugin_system.Kernel.Rpc.{Reply, close_conn, call}
use rpc_plugin_system.Kernel.Artifacts.{reap}
use rpc_plugin_system.Kernel.Start.{Launch, start_locked}
use rpc_plugin_system.Kernel.Stop.{
  Halt, wait_failed, exited, gone, Wait, Stopping, begin_stop, after_shutdown, shut_down, stopped,
  killed, after_wait, after_kill, end_process, after_detach, stop_current,
}
use rpc_plugin_system.Kernel.Requests.{
  HeartbeatResponse, Snapshot, is_healthy, routed_call, heartbeat_is_stale, log_health,
  commit_heartbeat, after_heartbeat, heartbeat_from,
}
use rpc_plugin_system.Kernel.Lifecycle.{
  manager_entry, restart, after_restart_start, after_restart_stop,
}
use rpc_plugin_system.Kernel.Frame.{Stays, cleanup_artifacts-Stays, call-Stays, start_locked-Stays}

abbrev Ends {ℓ} : {A : Type ℓ} → Manager → Result A × Manager → Type 0
Ends m x = Stays m x.1

stopped-Stays : (reason : Reason) (s : Stopping) (m : Manager) → Ends m (stopped reason s m)
unfolding stopped
stopped-Stays reason s m = cleanup_artifacts-Stays s.generation (
    log_event
      (record (entry Level.info Component.kernel EventName.plugin_stopped s.generation s.pid) {
        reason = some reason;
      })
      m)

killed-Stays : (reason : Reason) (s : Stopping) (m : Manager) → Ends m (killed reason s m)
unfolding killed
killed-Stays reason s m = cleanup_artifacts-Stays s.generation (
    log_event
      (record (entry Level.warn Component.kernel EventName.plugin_killed s.generation s.pid) {
        reason = some reason;
      })
      m)

after_wait-Stays :
    (reason : Reason) (s : Stopping) (pid : ℕ) (w : Wait) (m : Manager)
    → Ends m (after_wait reason s pid w m)
unfolding after_wait reap
after_wait-Stays reason s pid wait_failed m = refl
after_wait-Stays reason s pid exited m = stopped-Stays reason s (reap pid m)
after_wait-Stays reason s pid gone m = stopped-Stays reason s (reap pid m)

after_kill-Stays :
    (reason : Reason) (s : Stopping) (pid : ℕ) (b : Bool) (w : Wait) (m : Manager)
    → Ends m (after_kill reason s pid b w m)
unfolding after_kill reap
after_kill-Stays reason s pid true w m = refl
after_kill-Stays reason s pid false wait_failed m = refl
after_kill-Stays reason s pid false exited m = killed-Stays reason s (reap pid m)
after_kill-Stays reason s pid false gone m = killed-Stays reason s (reap pid m)

end_process-Stays :
    (env : Halt) (reason : Reason) (s : Stopping) (o : Option ℕ) (m : Manager)
    → Ends m (end_process env reason s o m)
unfolding end_process
end_process-Stays env reason s none m = stopped-Stays reason s m
end_process-Stays env reason s (some pid) m =
    if_cases (Ends m) env.in_time (λ h. after_wait-Stays reason s pid env.wait m)
      (λ h. after_kill-Stays reason s pid env.signal_failed env.wait m)

after_shutdown-Stays :
    (s : Stopping) (x : Result (Unit {0}) × Manager) → Stays x.1 (after_shutdown s x)
unfolding after_shutdown
after_shutdown-Stays s (ok _, m) = refl
after_shutdown-Stays s (err e, m) = refl

shut_down-Stays :
    (env : Halt) (s : Stopping) (o : Option ℕ) (m : Manager) → Stays m (shut_down env s o m)
unfolding shut_down close_conn
shut_down-Stays env s none m = refl
shut_down-Stays env s (some c) m =
    let asked : Manager =
      log_event
        (record (entry Level.info Component.kernel EventName.shutdown_requested s.generation
          s.pid) { method = some Method.shutdown })
        m in
    after_shutdown-Stays s (call c s.generation 0 Method.shutdown env.shutdown (λ x. x) asked)
    ∙ call-Stays c s.generation 0 Method.shutdown env.shutdown asked

after_detach-Stays :
    (env : Halt) (reason : Reason) (x : Result Stopping × Manager)
    → Ends x.1 (after_detach env reason x)
unfolding after_detach
after_detach-Stays env reason (err e, m) = refl
after_detach-Stays env reason (ok s, m) =
    let told : Manager =
      log_event
        (record (entry Level.warn Component.kernel EventName.kill_requested s.generation s.pid) {
          reason = some reason;
        })
        m in
    end_process-Stays env reason s s.cmd (shut_down env s s.client told)
    ∙ shut_down-Stays env s s.client told

begin_stop-Stays : (b : Bool) (m : Manager) → Stays m (begin_stop b m).1
unfolding begin_stop
begin_stop-Stays b m =
    if_cases {A = Result Stopping × Manager} (λ x. Stays m x.1) m.closed (λ h. refl) (λ h. refl)

pub stop_current-Stays :
    (env : Halt) (b : Bool) (reason : Reason) (m : Manager) → Ends m (stop_current env b reason m)
unfolding stop_current
stop_current-Stays env b reason m =
    after_detach-Stays env reason (begin_stop b m) ∙ begin_stop-Stays b m

after_restart_start-Stays :
    (m₀ : Manager) (x : Result (Unit {0}) × Manager) → Ends x.1 (after_restart_start m₀ x)
unfolding after_restart_start
after_restart_start-Stays m₀ (err e, m) = refl
after_restart_start-Stays m₀ (ok _, m) = refl

after_restart_stop-Stays :
    (env : Launch) (m₀ : Manager) (x : Result (Unit {0}) × Manager)
    → Ends x.1 (after_restart_stop env m₀ x)
unfolding after_restart_stop
after_restart_stop-Stays env m₀ (err e, m) = refl
after_restart_stop-Stays env m₀ (ok _, m) =
    after_restart_start-Stays m₀ (start_locked env m) ∙ start_locked-Stays env m

pub restart-Stays : (halt : Halt) (env : Launch) (m : Manager) → Ends m (restart halt env m)
unfolding restart
restart-Stays halt env m =
    if_cases (Ends m) m.closed (λ h. refl)
      (λ h.
        let told : Manager = log_event (manager_entry Level.warn EventName.restart_requested m) m in
        after_restart_stop-Stays env m (stop_current halt false Reason.restart_requested told)
        ∙ stop_current-Stays halt false Reason.restart_requested told)

pub routed_call-Stays :
    {A : Type 0} (method : Method) (reply : Reply A) (x : Result Snapshot) (m : Manager)
    → Ends m (routed_call method reply (λ y. y) x m)
unfolding routed_call
routed_call-Stays method reply (err e) m = refl
routed_call-Stays method reply (ok s) m = call-Stays s.client s.generation s.epoch method reply m

log_health-Stays : (s : Snapshot) (was b : Bool) (m : Manager) → Stays m (log_health s was b m)
unfolding log_health
log_health-Stays s true true m = refl
log_health-Stays s false true m = refl
log_health-Stays s true false m = refl
log_health-Stays s false false m = refl

commit_heartbeat-Stays :
    (s : Snapshot) (out : HeartbeatResponse) (m : Manager) → Ends m (commit_heartbeat s out m)
unfolding commit_heartbeat
commit_heartbeat-Stays s out m =
    if_cases (Ends m) (heartbeat_is_stale s m) (λ h. refl)
      (λ h. log_health-Stays s m.state.healthy (is_healthy out.status) _)

after_heartbeat-Stays :
    (s : Snapshot) (x : Result HeartbeatResponse × Manager)
    → Ends x.1 (after_heartbeat s (λ y. y) x)
unfolding after_heartbeat
after_heartbeat-Stays s (err e, m) = refl
after_heartbeat-Stays s (ok out, m) = commit_heartbeat-Stays s out m

pub heartbeat_from-Stays :
    (reply : Reply HeartbeatResponse) (x : Result Snapshot) (m : Manager)
    → Ends m (heartbeat_from reply (λ y. y) (λ y. y) x m)
unfolding heartbeat_from
heartbeat_from-Stays reply (err e) m = refl
heartbeat_from-Stays reply (ok s) m =
    after_heartbeat-Stays s (call s.client s.generation s.epoch Method.heartbeat reply (λ y. y) m)
    ∙ call-Stays s.client s.generation s.epoch Method.heartbeat reply m
