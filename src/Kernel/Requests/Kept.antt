-- ===== src/Kernel/Requests/Kept.antt =====
-- internal/kernel/manager.go: Heartbeat and Echo keep a well-formed manager, also when they poison
-- their connection, and never touch the generation.
use rpc_plugin_system.Prelude.{
  ℕ, ◌≡◌, ◌≢◌, refl, Bool, true, false, none, some, arith, if_cases, opt_eq_iff,
}
use rpc_plugin_system.Kernel.Types.{
  Method, Error, Reason, Result, ok, err, LogEntry, Manager, log_event, without,
}
use rpc_plugin_system.Kernel.Rpc.{
  Reply, answer, failure, timeout, call, call_started, is_stale, is_rpc_poison_error, poison_client,
  call_done,
}
use rpc_plugin_system.Kernel.Invariant.{IsWellFormed}
use rpc_plugin_system.Kernel.Requests.{
  HeartbeatResponse, Snapshot, snapshot, routed_call, heartbeat_from, after_heartbeat,
  heartbeat_is_stale, commit_heartbeat, log_health,
}

-- What a request may change: the health, and the connection, which it can only take away.
pub record Same (m₀ m : Manager) : Type 0 where
  pub generation : m.state.generation_id ≡ m₀.state.generation_id
  pub cmd : m.cmd ≡ m₀.cmd
  pub pid : m.state.pid ≡ m₀.state.pid
  pub epoch : m.rpc_epoch ≡ m₀.rpc_epoch
  pub closed : m.closed ≡ m₀.closed
  pub running : m.world.running ≡ m₀.world.running
  pub well : IsWellFormed m

pub Same-refl : (m : Manager) → IsWellFormed m → Same m m
Same-refl m v = record {
  generation = refl;
  cmd = refl;
  pid = refl;
  epoch = refl;
  closed = refl;
  running = refl;
  well = v;
}

module _ (m₀ : Manager) (c : ℕ) (v : IsWellFormed m₀) (current : m₀.client ≡ some c) where
  poisoned-Same :
      (generation : ℕ) (method : Method) (reason : Reason) (cause : Error) (m : Manager)
      → Same m₀ m
      → m.client ≡ some c
      → Same m₀ (poison_client c generation method reason cause m)
  unfolding poison_client without
  poisoned-Same generation method reason cause m s e = ground (arith, opt_eq_iff m.client (some c))

  logged-Same : (e : LogEntry) (m : Manager) → Same m₀ m → Same m₀ (log_event e m)
  logged-Same e m s = record {
    generation = s.generation;
    cmd = s.cmd;
    pid = s.pid;
    epoch = s.epoch;
    closed = s.closed;
    running = s.running;
    well = record {
      client_cmd = s.well.client_cmd;
      health_client = s.well.health_client;
      pid_cmd = s.well.pid_cmd;
      closed_idle = s.well.closed_idle;
      conns_client = s.well.conns_client;
    };
  }

  call-Same :
      {A : Type 0} (generation epoch : ℕ) (method : Method) (reply : Reply A)
      → Same m₀ (call c generation epoch method reply (λ x. x) m₀).1
  unfolding call call_done call_started
  call-Same generation epoch method (answer a) =
      if_cases {A = Result _ × Manager} (λ x. Same m₀ x.1)
        (is_stale c generation epoch (call_started generation method m₀))
        (λ _. logged-Same _ _ (logged-Same _ m₀ (Same-refl m₀ v)))
        (λ _. logged-Same _ _ (logged-Same _ m₀ (Same-refl m₀ v)))
  call-Same generation epoch method (failure e) = logged-Same _ _ (
      if_cases (Same m₀) (is_rpc_poison_error e)
        (λ _. poisoned-Same generation method _ _ _ (logged-Same _ m₀ (Same-refl m₀ v)) current)
        (λ _. logged-Same _ m₀ (Same-refl m₀ v)))
  call-Same generation epoch method timeout =
      logged-Same _ _
        (poisoned-Same generation method _ _ _ (logged-Same _ m₀ (Same-refl m₀ v)) current)

  health-Same :
      (s : Snapshot) (was now : Bool) (m : Manager) → Same m₀ m → Same m₀ (log_health s was now m)
  unfolding log_health
  health-Same s true true m h = h
  health-Same s false true m h = logged-Same _ m h
  health-Same s was false m h = logged-Same _ m h

  marked-Same :
      (healthy : Bool) (m : Manager)
      → Same m₀ m
      → m.client ≢ none
      → Same m₀ (record m { state = record m.state { healthy = healthy } })
  marked-Same healthy m h held = record {
    generation = h.generation;
    cmd = h.cmd;
    pid = h.pid;
    epoch = h.epoch;
    closed = h.closed;
    running = h.running;
    well = record {
      client_cmd = h.well.client_cmd;
      health_client = λ e. absurd (held e);
      pid_cmd = h.well.pid_cmd;
      closed_idle = h.well.closed_idle;
      conns_client = h.well.conns_client;
    };
  }

  fresh_client : (s : Snapshot) (m : Manager) → heartbeat_is_stale s m ≡ false → m.client ≢ none
  unfolding heartbeat_is_stale
  fresh_client s m h e = ground (arith, opt_eq_iff m.client (some s.client))

  after_heartbeat-Same :
      (s : Snapshot) (x : Result HeartbeatResponse × Manager)
      → Same m₀ x.1
      → Same m₀ (after_heartbeat s (λ m. m) x).1
  unfolding after_heartbeat commit_heartbeat
  after_heartbeat-Same s (err e, m) h = logged-Same _ m h
  after_heartbeat-Same s (ok out, m) h =
      if_cases {A = Result HeartbeatResponse × Manager} (λ x. Same m₀ x.1) (heartbeat_is_stale s m)
        (λ _. h) (λ fresh. health-Same s _ _ _ (marked-Same _ m h (fresh_client s m fresh)))

snapshot-ok : (m : Manager) (s : Snapshot) → snapshot m ≡ ok s → m.client ≡ some s.client
unfolding snapshot
snapshot-ok m s h = ground arith

-- Echo, Sleep and Crash, after what the snapshot gave.
pub routed_call-Same :
    {A : Type 0} (method : Method) (reply : Reply A) (m : Manager) (x : Result Snapshot)
    → IsWellFormed m
    → snapshot m ≡ x
    → Same m (routed_call method reply (λ y. y) x m).1
unfolding routed_call
routed_call-Same method reply m (err e) v h = Same-refl m v
routed_call-Same method reply m (ok s) v h =
    call-Same m s.client v (snapshot-ok m s h) s.generation s.epoch method reply

pub heartbeat_from-Same :
    (reply : Reply HeartbeatResponse) (m : Manager) (x : Result Snapshot)
    → IsWellFormed m
    → snapshot m ≡ x
    → Same m (heartbeat_from reply (λ y. y) (λ y. y) x m).1
unfolding heartbeat_from
heartbeat_from-Same reply m (err e) v h = Same-refl m v
heartbeat_from-Same reply m (ok s) v h =
    after_heartbeat-Same m s.client v (snapshot-ok m s h) s
      (call s.client s.generation s.epoch Method.heartbeat reply (λ y. y) m)
      (call-Same m s.client v (snapshot-ok m s h) s.generation s.epoch Method.heartbeat reply)
