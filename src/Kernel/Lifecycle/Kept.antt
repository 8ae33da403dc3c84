-- ===== src/Kernel/Lifecycle/Kept.antt =====
-- internal/kernel/manager.go: Start, Kill, Restart and Close keep a well-formed manager, and what
-- each makes of the generation, the epoch and the health.
use rpc_plugin_system.Prelude.{ℕ, ◌≡◌, inl, inr, sym, ap, Bool, List, [], arith, ◌<◌, ◌^◌}
use rpc_plugin_system.Kernel.Types.{Reason, Result, ok, err, LogEntry, Manager, inc64, log_event}
use rpc_plugin_system.Kernel.Invariant.{IsWellFormed, Children}
use rpc_plugin_system.Kernel.Start.{Launch, start_locked}
use rpc_plugin_system.Kernel.Start.Outcome.{RolledBack}
use rpc_plugin_system.Kernel.Start.Phases.{Started}
use rpc_plugin_system.Kernel.Start.Total.{Fate, start_locked-Fate}
use rpc_plugin_system.Kernel.Stop.{Halt, stop_current}
use rpc_plugin_system.Kernel.Stop.Detach.{Detached, Stops, stop_current-Stops}

-- Well-formed, with an account of every child process, and a generation that fits 64 bits.
pub record Kept (m : Manager) : Type 0 where
  pub well : IsWellFormed m
  pub orphans : List ℕ
  pub children : Children m orphans
  pub fits : m.state.generation_id < 2 ^ 64

pub log-Kept : (e : LogEntry) (m : Manager) → Kept m → Kept (log_event e m)
log-Kept e m k = record {
  well = record {
    client_cmd = k.well.client_cmd;
    health_client = k.well.health_client;
    pid_cmd = k.well.pid_cmd;
    closed_idle = k.well.closed_idle;
    conns_client = k.well.conns_client;
  };
  orphans = k.orphans;
  children = k.children;
  fits = k.fits;
}

Started-Kept :
    (env : Launch) (m₀ : Manager) (g : ℕ) (orphans : List ℕ) (m : Manager)
    → Started env m₀ (inc64 g) orphans m
    → Kept m
Started-Kept env m₀ g orphans m s =
    let (c, e) = s.connected in
    record {
      well = record {
        client_cmd = λ x. ground (arith, s.pid);
        health_client = λ x. ground (arith, e);
        pid_cmd = ground (arith, s.pid);
        closed_idle = λ x. ground (arith, s.still_open);
        conns_client = sym s.conn;
      };
      orphans = orphans;
      children = s.running;
      fits = omega (arith, s.claimed);
    }

RolledBack-Kept :
    (m₀ : Manager) (g : ℕ) (orphans : List ℕ) (m : Manager) → RolledBack m₀ g orphans m → Kept m
RolledBack-Kept m₀ g orphans m r = record {
  well = record {
    client_cmd = λ x. r.client;
    health_client = λ x. ap (λ s. s.healthy) r.state;
    pid_cmd = ground (arith, r.state, r.cmd);
    closed_idle = λ x. r.cmd;
    conns_client = ground (arith, r.conns, r.client);
  };
  orphans = orphans;
  children = ground (arith, r.running, r.cmd);
  fits = omega (arith, ap (λ s. s.generation_id) r.state);
}

Detached-Kept :
    (m₀ : Manager) (b : Bool) (procs : List ℕ) (m : Manager)
    → m₀.state.generation_id < 2 ^ 64
    → Detached m₀ b m
    → m.world.running ≡ procs
    → m.world.conns ≡ []
    → Kept m
Detached-Kept m₀ b procs m fits d run conns = record {
  well = record {
    client_cmd = λ x. d.client;
    health_client = λ x. d.unhealthy;
    pid_cmd = ground (arith, d.pid, d.cmd);
    closed_idle = λ x. d.cmd;
    conns_client = ground (arith, conns, d.client);
  };
  orphans = procs;
  children = ground (arith, run, d.cmd);
  fits = omega (arith, d.generation);
}

Fate-Kept :
    (env : Launch) (m₀ : Manager) (orphans : List ℕ) (x : Result (Unit {0}) × Manager)
    → Kept m₀
    → Fate env m₀ orphans x
    → Kept x.1
Fate-Kept env m₀ orphans (ok _, m) k f = Started-Kept env m₀ m₀.state.generation_id orphans m f
Fate-Kept env m₀ orphans (err e, m) k (inl (same, _)) = rw same k
Fate-Kept env m₀ orphans (err e, m) k (inr r) = RolledBack-Kept m₀ _ orphans m r

Stops-Kept :
    (b : Bool) (m₀ : Manager) (orphans : List ℕ) (x : Result (Unit {0}) × Manager)
    → Kept m₀
    → Stops b m₀ orphans x
    → Kept x.1
Stops-Kept b m₀ orphans (ok _, m) k (d, run, conns) = Detached-Kept m₀ b _ m k.fits d run conns
Stops-Kept b m₀ orphans (err e, m) k (inl (_, same)) = rw same k
Stops-Kept b m₀ orphans (err e, m) k (inr (d, run, conns)) =
    Detached-Kept m₀ b _ m k.fits d run conns

pub start_locked-Kept : (env : Launch) (m : Manager) → Kept m → Kept (start_locked env m).1
start_locked-Kept env m k =
    Fate-Kept env m k.orphans _ k (start_locked-Fate env m k.orphans k.well k.children)

pub stop_current-Kept :
    (env : Halt) (b : Bool) (reason : Reason) (m : Manager)
    → Kept m
    → Kept (stop_current env b reason m).1
stop_current-Kept env b reason m k =
    Stops-Kept b m k.orphans _ k (stop_current-Stops env b reason m k.orphans k.well k.children)
