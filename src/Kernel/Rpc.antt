-- ===== src/Kernel/Rpc.antt =====
-- internal/kernel/manager.go: call, poisonClient, isRPCPoisonError, rpcClient.close.
-- A call waits for its reply outside the lock. `between` is what other goroutines did to the
-- manager during the wait.
pub mod Fence
use rpc_plugin_system.Prelude.{
  ℕ, Bool, true, false, not, ◌&&◌, ◌||◌, Option, none, some, ◌==◌, opt_eq, if◌then◌else◌,
}
use rpc_plugin_system.Kernel.Types.{
  Level, Component, EventName, Method, RpcError, Error, Reason, Result, ok, err, LogEntry, entry,
  Manager, log_event, without,
}

-- What `client.Call` and the timer give: a reply, an error, or nothing before the deadline.
pub data Reply {ℓ} (A : Type ℓ) : Type ℓ where
  answer : A → Reply A
  failure : RpcError → Reply A
  timeout : Reply A

unfoldable pub is_rpc_poison_error : RpcError → Bool
is_rpc_poison_error RpcError.shut_down = true
is_rpc_poison_error RpcError.eof = true
is_rpc_poison_error RpcError.unexpected_eof = true
is_rpc_poison_error RpcError.net_closed = true
is_rpc_poison_error RpcError.net_error = true
is_rpc_poison_error RpcError.op_error = true
is_rpc_poison_error RpcError.handler_error = false

unfoldable pub close_conn : ℕ → Manager → Manager
close_conn client m = record m { world = record m.world { conns = without client m.world.conns } }

-- The locked section of poisonClient.
unfoldable pub detach : ℕ → Manager → Manager
detach client m =
    if opt_eq m.client (some client)
    then record m { client = none; state = record m.state { healthy = false } }
    else m

abbrev rpc_entry : Level → EventName → ℕ → ℕ → Method → LogEntry
rpc_entry level event generation pid method =
    record (entry level Component.rpc event generation pid) { method = some method }

unfoldable pub poison_client : ℕ → ℕ → Method → Reason → Error → Manager → Manager
unfolding detach close_conn
poison_client client generation method reason cause m = close_conn client (
    log_event
      (record (rpc_entry Level.warn EventName.rpc_poisoned generation m.state.pid method) {
        reason = some reason;
        error = some cause;
      })
      (detach client m))

-- The test of lines 848 to 854, over the state read under the lock.
unfoldable pub is_stale : ℕ → ℕ → ℕ → Manager → Bool
is_stale client generation epoch m =
    not (generation == m.state.generation_id)
    || (not (epoch == 0)
        && (m.closed || (not (opt_eq m.client (some client)) || not (m.rpc_epoch == epoch))))

-- After the wait; `pid` is the process id read when the call began.
unfoldable pub call_done {ℓ} :
    {A : Type ℓ} → ℕ → ℕ → ℕ → Method → ℕ → Reply A → Manager → Result A × Manager
unfolding is_stale poison_client is_rpc_poison_error
call_done client generation epoch method pid (answer a) m =
    if is_stale client generation epoch m
    then (
      err Error.stale_response,
      log_event
          (record (rpc_entry Level.warn EventName.rpc_failed generation pid method) {
            error = some Error.stale_response;
          })
          m,
    )
    else (ok a, log_event (rpc_entry Level.debug EventName.rpc_succeeded generation pid method) m)
call_done client generation epoch method pid (failure e) m =
    let m' =
      if is_rpc_poison_error e
      then poison_client client generation method Reason.transport_failure (Error.call_failed e) m
      else m in
    (
      err (Error.call_failed e),
      log_event
          (record (rpc_entry Level.warn EventName.rpc_failed generation pid method) {
            error = some (Error.call_failed e);
          })
          m',
    )
call_done client generation epoch method pid timeout m = (
  err Error.call_timeout,
  log_event
      (record (rpc_entry Level.error EventName.rpc_timeout generation pid method) {
        error = some Error.call_timeout;
      })
      (poison_client client generation method Reason.deadline_passed Error.call_timeout m),
)

unfoldable pub call_started : ℕ → Method → Manager → Manager
call_started generation method m =
    log_event (rpc_entry Level.debug EventName.rpc_started generation m.state.pid method) m

unfoldable pub call {ℓ} :
    {A : Type ℓ} → ℕ → ℕ → ℕ → Method → Reply A → (Manager → Manager) → Manager → Result A × Manager
unfolding call_done call_started
call client generation epoch method reply between m =
    call_done client generation epoch method m.state.pid reply
      (between (call_started generation method m))
