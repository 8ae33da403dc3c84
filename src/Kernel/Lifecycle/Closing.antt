-- ===== src/Kernel/Lifecycle/Closing.antt =====
-- internal/kernel/manager.go: Close, and what is left to do with a closed manager.
use rpc_plugin_system.Prelude.{
  ℕ, ◌≡◌, inl, inr, refl, Bool, true, false, none, some, List, [], arith, Text,
}
use rpc_plugin_system.Kernel.Types.{Error, Reason, Result, ok, err, Manager}
use rpc_plugin_system.Kernel.Rpc.{Reply}
use rpc_plugin_system.Kernel.Artifacts.{cleanup_artifacts}
use rpc_plugin_system.Kernel.Start.{Launch, begin_start, after_begin, start_locked}
use rpc_plugin_system.Kernel.Stop.{Halt, begin_stop, after_detach, stop_current}
use rpc_plugin_system.Kernel.Stop.Detach.{Stops, stop_current-Stops}
use rpc_plugin_system.Kernel.Requests.{
  HeartbeatResponse, snapshot, routed_call, echo, sleep, crash, heartbeat, heartbeat_from,
}
use rpc_plugin_system.Kernel.Lifecycle.{restart, finish_close, close, close_once, kill}
use rpc_plugin_system.Kernel.Lifecycle.Kept.{Kept, stop_current-Kept}

-- A manager after Close: nothing is in use, and the result of the close is remembered.
pub record Closed (r : Result (Unit {0})) (m : Manager) : Type 0 where
  pub closed : m.closed ≡ true
  pub client : m.client ≡ none
  pub cmd : m.cmd ≡ none
  pub unhealthy : m.state.healthy ≡ false
  pub conns : m.world.conns ≡ []
  pub log_closed : m.log_open ≡ false
  pub remembered : m.close_result ≡ some r
  pub kept : Kept m

finish_close-Closed :
    (log_fails : Bool) (r : Result (Unit {0})) (m : Manager)
    → Kept m
    → m.cmd ≡ none
    → Closed (finish_close log_fails (r, m)).0 (finish_close log_fails (r, m)).1
unfolding finish_close cleanup_artifacts
finish_close-Closed log_fails r m k idle = record {
  closed = ground arith;
  client = ground (arith, k.well.client_cmd idle);
  cmd = ground arith;
  unhealthy = ground (arith, k.well.health_client (k.well.client_cmd idle));
  conns = ground (arith, k.well.conns_client, k.well.client_cmd idle);
  log_closed = refl;
  remembered = refl;
  kept = record {
    well = record {
      client_cmd = ground (arith, k.well.client_cmd idle);
      health_client = ground (arith, k.well.health_client (k.well.client_cmd idle));
      pid_cmd = ground (arith, k.well.pid_cmd);
      closed_idle = ground arith;
      conns_client = ground (arith, k.well.conns_client);
    };
    orphans = k.orphans;
    children = ground (arith, k.children);
    fits = ground (arith, k.fits);
  };
}

after_stop-Closed :
    (log_fails : Bool) (m₀ : Manager) (orphans : List ℕ) (x : Result (Unit {0}) × Manager)
    → Kept m₀
    → Kept x.1
    → Stops true m₀ orphans x
    → Closed (finish_close log_fails x).0 (finish_close log_fails x).1
after_stop-Closed log_fails m₀ orphans (ok u, m) k₀ k (d, _, _) =
    finish_close-Closed log_fails (ok u) m k d.cmd
after_stop-Closed log_fails m₀ orphans (err e, m) k₀ k (inl (shut, same)) =
    finish_close-Closed log_fails (err e) m k (rw same (k₀.well.closed_idle shut))
after_stop-Closed log_fails m₀ orphans (err e, m) k₀ k (inr (d, _, _)) =
    finish_close-Closed log_fails (err e) m k d.cmd

-- The first Close, whatever the plugin and the system answer, ends with a manager that is marked
-- closed, holds no process or connection, is not healthy, has no open connection and a closed log,
-- and remembers the result that Close returned.
pub close-Closed :
    (env : Halt) (log_fails : Bool) (m : Manager)
    → Kept m
    → m.close_result ≡ none
    → Closed (close env log_fails m).0 (close env log_fails m).1
unfolding close close_once
close-Closed env log_fails m k first =
    simp (first, close_once)
      (after_stop-Closed log_fails m k.orphans (stop_current env true Reason.manager_close m) k
        (stop_current-Kept env true Reason.manager_close m k)
        (stop_current-Stops env true Reason.manager_close m k.orphans k.well k.children))

-- A closed manager refuses everything but a further Close.
pub Closed-final :
    (r : Result (Unit {0})) (m : Manager) (halt : Halt) (log_fails : Bool) (launch : Launch)
    (beat : Reply HeartbeatResponse) (said : Reply Text) (done : Reply (Unit {0}))
    (between later : Manager → Manager)
    → Closed r m
    → (close halt log_fails m ≡ (r, m))
      × (start_locked launch m ≡ (err Error.manager_closed, m))
      × (kill halt m ≡ (err Error.manager_closed, m))
      × (restart halt launch m ≡ (err Error.manager_closed, m))
      × (heartbeat beat between later m ≡ (err Error.manager_closed, m))
      × (echo said between m ≡ (err Error.manager_closed, m))
      × (sleep done between m ≡ (err Error.manager_closed, m))
      × (crash done between m ≡ (err Error.manager_closed, m))
unfolding close close_once start_locked begin_start after_begin kill stop_current begin_stop
    after_detach restart heartbeat heartbeat_from echo sleep crash routed_call snapshot
Closed-final r m halt log_fails launch beat said done between later c = (
  simp c.remembered,
  simp c.closed,
  simp c.closed,
  simp c.closed,
  simp c.closed,
  simp c.closed,
  simp c.closed,
  simp c.closed,
)
