-- ===== src/Kernel/Lifecycle/History.antt =====
-- internal/kernel/manager.go: whole histories of one manager, operation after operation. What each
-- operation meets outside is part of the history.
use rpc_plugin_system.Prelude.{
  ℕ, ◌≡◌, ◌+◌, ◌%◌, inl, inr, refl, ap, Bool, true, false, Option, none, some, List, [], ◌∷◌, arith,
  ◌<◌, ◌^◌, Text,
}
use rpc_plugin_system.Kernel.Types.{Method, Reason, Result, ok, err, World, Config, Manager}
use rpc_plugin_system.Kernel.Rpc.{Reply}
use rpc_plugin_system.Kernel.Artifacts.{cleanup_artifacts}
use rpc_plugin_system.Kernel.Start.{Launch, start_locked}
use rpc_plugin_system.Kernel.Start.Total.{Fate, start_locked-Fate}
use rpc_plugin_system.Kernel.Stop.{Halt, stop_current}
use rpc_plugin_system.Kernel.Stop.Detach.{Stops, stop_current-Stops}
use rpc_plugin_system.Kernel.Requests.{HeartbeatResponse, snapshot, echo, sleep, crash, heartbeat}
use rpc_plugin_system.Kernel.Requests.Kept.{Same, routed_call-Same, heartbeat_from-Same}
use rpc_plugin_system.Kernel.Lifecycle.{Setup, new, kill, restart, finish_close, close, close_once}
use rpc_plugin_system.Kernel.Lifecycle.Kept.{Kept, start_locked-Kept, stop_current-Kept}
use rpc_plugin_system.Kernel.Lifecycle.Restart.{Restarts, restart-Restarts}
use rpc_plugin_system.Kernel.Lifecycle.Closing.{close-Closed}

pub data Op : Type 0 where
  starts : Launch → Op
  kills : Halt → Op
  restarts : Halt → Launch → Op
  closes : Halt → Bool → Op
  beats : Reply HeartbeatResponse → Op
  echoes : Reply Text → Op
  sleeps : Reply (Unit {0}) → Op
  crashes : Reply (Unit {0}) → Op

abbrev pub did : Result (Unit {0}) → ℕ
did (ok _) = 1
did (err e) = 0

-- The manager after one operation, and the number of generations that it has published.
unfoldable pub step : Manager → Op → Manager × ℕ
step m (starts env) = ((start_locked env m).1, did (start_locked env m).0)
step m (kills halt) = ((kill halt m).1, 0)
step m (restarts halt env) = ((restart halt env m).1, did (restart halt env m).0)
step m (closes halt b) = ((close halt b m).1, 0)
step m (beats reply) = ((heartbeat reply (λ x. x) (λ x. x) m).1, 0)
step m (echoes reply) = ((echo reply (λ x. x) m).1, 0)
step m (sleeps reply) = ((sleep reply (λ x. x) m).1, 0)
step m (crashes reply) = ((crash reply (λ x. x) m).1, 0)

unfoldable pub run : Manager → List Op → Manager × ℕ
run m [] = (m, 0)
run m (op ∷ ops) = let (m₁, n) = step m op in let (m₂, k) = run m₁ ops in (m₂, n + k)

-- One step keeps the invariant and moves the generation by the number published.
record Counts (m₀ : Manager) (x : Manager × ℕ) : Type 0 where
  kept : Kept x.0
  moved : x.0.state.generation_id ≡ (m₀.state.generation_id + x.1) % 2 ^ 64

abbrev Counted : Manager → Result (Unit {0}) × Manager → Type 0
Counted m₀ x = x.1.state.generation_id ≡ (m₀.state.generation_id + did x.0) % 2 ^ 64

Fate-moves :
    (env : Launch) (m : Manager) (orphans : List ℕ) (x : Result (Unit {0}) × Manager)
    → m.state.generation_id < 2 ^ 64
    → Fate env m orphans x
    → Counted m x
Fate-moves env m orphans (ok _, m') b s = omega (arith, s.claimed)
Fate-moves env m orphans (err e, m') b (inl (same, _)) = rw same (omega arith)
Fate-moves env m orphans (err e, m') b (inr r) = omega (arith, ap (λ s. s.generation_id) r.state)

Stops-move :
    (b : Bool) (m : Manager) (orphans : List ℕ) (x : Result (Unit {0}) × Manager)
    → Stops b m orphans x
    → x.1.state.generation_id ≡ m.state.generation_id
Stops-move b m orphans (ok _, m') (d, _, _) = d.generation
Stops-move b m orphans (err e, m') (inl (_, same)) = rw same
Stops-move b m orphans (err e, m') (inr (d, _, _)) = d.generation

Restarts-move :
    (env : Launch) (m : Manager) (x : Result (Unit {0}) × Manager)
    → Kept m
    → Restarts env m x
    → Kept x.1 × Counted m x
Restarts-move env m (ok _, m') k r = (r.kept, omega (arith, r.generation))
Restarts-move env m (err e, m') k (inl (_, same)) = (rw same k, rw same (omega (arith, k.fits)))
Restarts-move env m (err e, m') k (inr i) = (i.kept, omega (arith, i.generation, k.fits))

Same-Counts : (m m' : Manager) → Kept m → Same m m' → Counts m (m', 0)
Same-Counts m m' k s = record {
  kept = record {
    well = s.well;
    orphans = k.orphans;
    children = ground (arith, s.running, s.cmd, k.children);
    fits = omega (arith, s.generation, k.fits);
  };
  moved = omega (arith, s.generation, k.fits);
}

finish_moves :
    (b : Bool) (x : Result (Unit {0}) × Manager)
    → (finish_close b x).1.state.generation_id ≡ x.1.state.generation_id
unfolding finish_close cleanup_artifacts
finish_moves b (r, m) = ground arith

close-Counts :
    (halt : Halt) (b : Bool) (m : Manager) (done : Option (Result (Unit {0})))
    → m.close_result ≡ done
    → Kept m
    → Counts m ((close halt b m).1, 0)
unfolding close close_once
close-Counts halt b m (some r) e k = simp e (record { kept = k; moved = omega (arith, k.fits) })
close-Counts halt b m none e k = record {
  kept = (close-Closed halt b m k e).kept;
  moved = simp e (
      omega (
        arith,
        finish_moves b (stop_current halt true Reason.manager_close m),
        Stops-move true m k.orphans _
            (stop_current-Stops halt true Reason.manager_close m k.orphans k.well k.children),
        k.fits,
      ));
}

step-Counts : (m : Manager) (op : Op) → Kept m → Counts m (step m op)
unfolding step kill echo sleep crash heartbeat
step-Counts m (starts env) k = record {
  kept = start_locked-Kept env m k;
  moved = Fate-moves env m k.orphans _ k.fits (start_locked-Fate env m k.orphans k.well k.children);
}
step-Counts m (kills halt) k = record {
  kept = stop_current-Kept halt false Reason.kill_requested m k;
  moved = omega (
    arith,
    k.fits,
    Stops-move false m k.orphans _
        (stop_current-Stops halt false Reason.kill_requested m k.orphans k.well k.children),
  );
}
step-Counts m (restarts halt env) k =
    let (kept, moved) = Restarts-move env m _ k (restart-Restarts halt env m k) in
    record { kept = kept; moved = moved }
step-Counts m (closes halt b) k = close-Counts halt b m m.close_result refl k
step-Counts m (beats reply) k =
    Same-Counts m _ k (heartbeat_from-Same reply m (snapshot m) k.well refl)
step-Counts m (echoes reply) k =
    Same-Counts m _ k (routed_call-Same Method.echo reply m (snapshot m) k.well refl)
step-Counts m (sleeps reply) k =
    Same-Counts m _ k (routed_call-Same Method.sleep reply m (snapshot m) k.well refl)
step-Counts m (crashes reply) k =
    Same-Counts m _ k (routed_call-Same Method.crash reply m (snapshot m) k.well refl)

-- One operation keeps the invariant.
pub step-Kept : (m : Manager) (op : Op) → Kept m → Kept (step m op).0
step-Kept m op k = (step-Counts m op k).kept

run-Counts : (m : Manager) (ops : List Op) → Kept m → Counts m (run m ops)
unfolding run
run-Counts m [] k = record { kept = k; moved = omega (arith, k.fits) }
run-Counts m (op ∷ ops) k =
    let s = step-Counts m op k in
    let r = run-Counts (step m op).0 ops s.kept in
    record { kept = r.kept; moved = omega (arith, s.moved, r.moved) }

-- The invariant and the generation counter, from a fresh manager on.
pub record IsSound (x : Manager × ℕ) : Type 0 where
  pub kept : Kept x.0
  pub generation : x.0.state.generation_id ≡ x.1 % 2 ^ 64

pub new-Kept :
    (env : Setup) (world : World) (cfg : Config) (m : Manager)
    → world.running ≡ []
    → world.conns ≡ []
    → new env world cfg ≡ ok m
    → Kept m × (m.state.generation_id ≡ 0)
unfolding new
new-Kept env world cfg m procs conns h = (
  record { well = ground arith; orphans = []; children = ground arith; fits = ground arith },
  ground arith,
)

-- After any history of starts, kills, restarts, closes, heartbeats, echoes, sleeps and crashes of a
-- new manager, whatever the plugin and the system answered, the manager is well formed: it has a
-- connection only with a process, is healthy only with a connection, records the pid of its process,
-- holds none once closed, has no other connection open, and every child that runs is its process or
-- one that an earlier failed stop lost. Its generation is the number of starts and restarts that
-- succeeded (mod 2^64), so a failed start uses no generation up.
pub history-IsSound :
    (env : Setup) (world : World) (cfg : Config) (m : Manager) (ops : List Op)
    → world.running ≡ []
    → world.conns ≡ []
    → new env world cfg ≡ ok m
    → IsSound (run m ops)
history-IsSound env world cfg m ops procs conns h =
    let (k, zero_generation) = new-Kept env world cfg m procs conns h in
    let c = run-Counts m ops k in
    record { kept = c.kept; generation = omega (arith, c.moved, zero_generation) }
