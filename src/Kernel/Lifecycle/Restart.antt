-- ===== src/Kernel/Lifecycle/Restart.antt =====
-- internal/kernel/manager.go: Restart and Close, on every branch.
use rpc_plugin_system.Prelude.{
  ℕ, ◌≡◌, ◌⊎◌, inl, inr, refl, ap, ◌∙◌, Bool, true, false, none, List, arith, if_cases, ◌<◌, ◌^◌,
}
use rpc_plugin_system.Kernel.Types.{
  Level, EventName, Reason, Result, ok, err, LogEntry, Manager, inc64, log_event,
}
use rpc_plugin_system.Kernel.Start.{Launch, start_locked}
use rpc_plugin_system.Kernel.Start.Total.{Fate, start_locked-Fate}
use rpc_plugin_system.Kernel.Stop.{Halt}
use rpc_plugin_system.Kernel.Stop.Detach.{Detached, Stops, stop_current-Stops}
use rpc_plugin_system.Kernel.Lifecycle.{
  after_restart_start, after_restart_stop, restart, manager_entry,
}
use rpc_plugin_system.Kernel.Lifecycle.Kept.{Kept, log-Kept, start_locked-Kept, stop_current-Kept}

-- The next generation, healthy and connected, under the next epoch.
pub record Renewed (launch : Launch) (m₀ m : Manager) : Type 0 where
  pub generation : m.state.generation_id ≡ inc64 m₀.state.generation_id
  pub epoch : m.rpc_epoch ≡ inc64 m₀.rpc_epoch
  pub healthy : m.state.healthy ≡ true
  pub client : m.client ≡ launch.dial
  pub cmd : m.cmd ≡ launch.spawn
  pub still_open : m.closed ≡ false
  pub kept : Kept m

-- Nothing runs, the generation is the old one, and the old epoch is over.
pub record Idle (m₀ m : Manager) : Type 0 where
  pub generation : m.state.generation_id ≡ m₀.state.generation_id
  pub epoch : m.rpc_epoch ≡ inc64 m₀.rpc_epoch
  pub unhealthy : m.state.healthy ≡ false
  pub client : m.client ≡ none
  pub cmd : m.cmd ≡ none
  pub kept : Kept m

abbrev pub Restarts : Launch → Manager → Result (Unit {0}) × Manager → Type 0
Restarts launch m₀ (ok _, m) = Renewed launch m₀ m
Restarts launch m₀ (err e, m) = ((m₀.closed ≡ true) × (m ≡ m₀)) ⊎ Idle m₀ m

module _ (launch : Launch) (m₀ : Manager) (bound : m₀.state.generation_id < 2 ^ 64) where
  after_start-Restarts :
      (m₁ : Manager) (orphans : List ℕ) (x : Result (Unit {0}) × Manager)
      → Detached m₀ false m₁
      → Kept x.1
      → Fate launch m₁ orphans x
      → Restarts launch m₀ (after_restart_start m₀ x)
  unfolding after_restart_start
  after_start-Restarts m₁ orphans (ok _, m) d k s = record {
    generation = s.claimed ∙ ap inc64 d.generation;
    epoch = s.epoch ∙ d.epoch;
    healthy = s.healthy;
    client = s.client;
    cmd = s.cmd;
    still_open = s.still_open;
    kept = log-Kept (manager_entry Level.info EventName.restart_succeeded m) m k;
  }
  after_start-Restarts m₁ orphans (err e, m) d k (inl (same, inl shut)) = cc (shut, d.closed)
  after_start-Restarts m₁ orphans (err e, m) d k (inl (same, inr (inl busy))) = absurd (busy d.cmd)
  after_start-Restarts m₁ orphans (err e, m) d k (inl (same, inr (inr busy))) =
      absurd (busy d.client)
  after_start-Restarts m₁ orphans (err e, m) d k (inr r) = inr (record {
    generation = omega (arith, ap (λ s. s.generation_id) r.state, d.generation, bound);
    epoch = r.epoch ∙ d.epoch;
    unhealthy = ap (λ s. s.healthy) r.state;
    client = r.client;
    cmd = r.cmd;
    kept = log-Kept _ m k;
  })

  after_stop-Restarts :
      (orphans : List ℕ) (x : Result (Unit {0}) × Manager)
      → m₀.closed ≡ false
      → Kept x.1
      → Stops false m₀ orphans x
      → Restarts launch m₀ (after_restart_stop launch m₀ x)
  unfolding after_restart_stop
  after_stop-Restarts orphans (ok _, m) live k (d, run, conns) =
      after_start-Restarts m k.orphans (start_locked launch m) d (start_locked-Kept launch m k)
        (start_locked-Fate launch m k.orphans k.well k.children)
  after_stop-Restarts orphans (err e, m) live k (inl (shut, same)) = cc (shut, live)
  after_stop-Restarts orphans (err e, m) live k (inr (d, run, conns)) = inr (record {
    generation = d.generation;
    epoch = d.epoch;
    unhealthy = d.unhealthy;
    client = d.client;
    cmd = d.cmd;
    kept = log-Kept _ m k;
  })

logged-Stops :
    (e : LogEntry) (b : Bool) (m₀ : Manager) (orphans : List ℕ) (x : Result (Unit {0}) × Manager)
    → m₀.closed ≡ false
    → Stops b (log_event e m₀) orphans x
    → Stops b m₀ orphans x
logged-Stops e b m₀ orphans (ok _, m) live (d, run, conns) = (
  record {
    cfg = d.cfg;
    generation = d.generation;
    cmd = d.cmd;
    client = d.client;
    unhealthy = d.unhealthy;
    pid = d.pid;
    epoch = d.epoch;
    closed = d.closed;
  },
  run,
  conns,
)
logged-Stops e b m₀ orphans (err _, m) live (inl (shut, same)) = cc (shut, live)
logged-Stops e b m₀ orphans (err _, m) live (inr (d, run, conns)) = inr (
  record {
    cfg = d.cfg;
    generation = d.generation;
    cmd = d.cmd;
    client = d.client;
    unhealthy = d.unhealthy;
    pid = d.pid;
    epoch = d.epoch;
    closed = d.closed;
  },
  run,
  conns,
)

-- A restart of a closed manager is refused and changes nothing. Any other restart either succeeds, and the next
-- generation is published as healthy under the next epoch with the new process and connection, or
-- it fails, and no process or connection is in use, the generation is the old one, and the old
-- epoch is over.
pub restart-Restarts :
    (halt : Halt) (launch : Launch) (m : Manager)
    → Kept m
    → Restarts launch m (restart halt launch m)
unfolding restart
restart-Restarts halt launch m k =
    if_cases (Restarts launch m) m.closed (λ shut. inl (shut, refl))
      (λ live.
        let k' = log-Kept (manager_entry Level.warn EventName.restart_requested m) m k in
        after_stop-Restarts launch m k.fits k'.orphans _ live
          (stop_current-Kept halt false Reason.restart_requested _ k')
          (logged-Stops _ false m k'.orphans _ live (
            stop_current-Stops halt false Reason.restart_requested _ k'.orphans k'.well
              k'.children)))
