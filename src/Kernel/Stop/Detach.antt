-- ===== src/Kernel/Stop/Detach.antt =====
-- internal/kernel/manager.go, stopCurrent: what a stop leaves behind, on every branch.
use rpc_plugin_system.Prelude.{
  ℕ, ◌≡◌, ◌⊎◌, inl, inr, refl, ap, ◌∙◌, Bool, true, false, Option, none, some, List, [], ◌∷◌, ◌++◌,
  arith, Bool-cases,
}
use rpc_plugin_system.Kernel.Types.{
  Method, LogEntry, Reason, Error, Result, ok, err, Manager, inc64, log_event, without,
}
use rpc_plugin_system.Kernel.Rpc.{
  Reply, answer, failure, timeout, call, call_started, is_stale, is_rpc_poison_error, close_conn,
}
use rpc_plugin_system.Kernel.Artifacts.{cleanup_artifacts, reap}
use rpc_plugin_system.Kernel.Invariant.{owned, IsWellFormed, Children}
use rpc_plugin_system.Kernel.Stop.{
  Halt, Wait, exited, gone, wait_failed, Stopping, begin_stop, after_shutdown, shut_down, stopped,
  killed, after_wait, after_kill, end_process, after_detach, stop_current,
}

-- The process and the connection are given up and the epoch has moved on; the generation stays.
pub record Detached (m₀ : Manager) (mark_closed : Bool) (m : Manager) : Type 0 where
  pub cfg : m.cfg ≡ m₀.cfg
  pub generation : m.state.generation_id ≡ m₀.state.generation_id
  pub cmd : m.cmd ≡ none
  pub client : m.client ≡ none
  pub unhealthy : m.state.healthy ≡ false
  pub pid : m.state.pid ≡ 0
  pub epoch : m.rpc_epoch ≡ inc64 m₀.rpc_epoch
  pub closed : m.closed ≡ mark_closed

module _ (m₀ : Manager) (b : Bool) (s : Stopping) (orphans : List ℕ) where
  -- A detached manager with these processes and connections.
  record Holding (procs conns : List ℕ) (m : Manager) : Type 0 where
    detached : Detached m₀ b m
    running : m.world.running ≡ procs
    open_conns : m.world.conns ≡ conns

  cleanup-Holding :
      (procs conns : List ℕ) (m : Manager) (generation : ℕ)
      → Holding procs conns m
      → Holding procs conns (cleanup_artifacts generation m)
  unfolding cleanup_artifacts
  cleanup-Holding procs conns m generation h = ground arith

  -- The connection `c` may or may not be closed already.
  record Loose (procs : List ℕ) (c : ℕ) (m : Manager) : Type 0 where
    detached : Detached m₀ b m
    running : m.world.running ≡ procs
    open_conns : (m.world.conns ≡ c ∷ []) ⊎ (m.world.conns ≡ [])

  call-Loose :
      (procs : List ℕ) (c generation : ℕ) (method : Method) (reply : Reply (Unit {0})) (m : Manager)
      → Holding procs (c ∷ []) m
      → Loose procs c (call c generation 0 method reply (λ x. x) m).1
  unfolding call without
  call-Loose procs c generation method (answer a) m h =
      elim (Bool-cases (is_stale c generation 0 (call_started generation method m))) [
        | inl stale ↦ rw stale (unfold call_started in ground arith)
        | inr fresh ↦ rw fresh (unfold call_started in ground arith)
      ]
  call-Loose procs c generation method (failure e) m h = elim (Bool-cases (is_rpc_poison_error e)) [
    | inl p ↦ rw p (ground arith)
    | inr p ↦ rw p (ground arith)
  ]
  call-Loose procs c generation method timeout m h = ground arith

  after_shutdown-Loose :
      (procs : List ℕ) (c : ℕ) (x : Result (Unit {0}) × Manager)
      → Loose procs c x.1
      → Loose procs c (after_shutdown s x)
  unfolding after_shutdown
  after_shutdown-Loose procs c (ok _, m) h = ground arith
  after_shutdown-Loose procs c (err e, m) h = ground arith

  close_conn-Holding :
      (procs : List ℕ) (c : ℕ) (m : Manager) → Loose procs c m → Holding procs [] (close_conn c m)
  unfolding close_conn without
  close_conn-Holding procs c m h = ground arith

  log-Holding :
      (procs conns : List ℕ) (e : LogEntry) (m : Manager)
      → Holding procs conns m
      → Holding procs conns (log_event e m)
  log-Holding procs conns e m h = ground arith

  shut_down-Holding :
      (env : Halt) (procs : List ℕ) (client : Option ℕ) (m : Manager)
      → Holding procs (owned client) m
      → Holding procs [] (shut_down env s client m)
  unfolding shut_down
  shut_down-Holding env procs none m h = h
  shut_down-Holding env procs (some c) m h = close_conn-Holding procs c _ (
      after_shutdown-Loose procs c _ (
        call-Loose procs c s.generation Method.shutdown env.shutdown _
          (log-Holding procs (c ∷ []) _ m h)))

  -- After a stop that reports success no process is left; after one that fails it may still run.
  abbrev Ended : List ℕ → Result (Unit {0}) × Manager → Type 0
  Ended procs (ok _, m) = Holding orphans [] m
  Ended procs (err e, m) = Holding procs [] m

  reap-Holding :
      (pid : ℕ) (m : Manager) → Holding (pid ∷ orphans) [] m → Holding orphans [] (reap pid m)
  unfolding reap without
  reap-Holding pid m h = ground arith

  stopped-Ended :
      (reason : Reason) (procs : List ℕ) (m : Manager)
      → Holding orphans [] m
      → Ended procs (stopped reason s m)
  unfolding stopped
  stopped-Ended reason procs m h = cleanup-Holding orphans [] _ _ (log-Holding orphans [] _ m h)

  killed-Ended :
      (reason : Reason) (procs : List ℕ) (m : Manager)
      → Holding orphans [] m
      → Ended procs (killed reason s m)
  unfolding killed
  killed-Ended reason procs m h = cleanup-Holding orphans [] _ _ (log-Holding orphans [] _ m h)

  after_wait-Ended :
      (reason : Reason) (pid : ℕ) (w : Wait) (m : Manager)
      → Holding (pid ∷ orphans) [] m
      → Ended (pid ∷ orphans) (after_wait reason s pid w m)
  unfolding after_wait
  after_wait-Ended reason pid exited m h =
      stopped-Ended reason (pid ∷ orphans) _ (reap-Holding pid m h)
  after_wait-Ended reason pid gone m h =
      stopped-Ended reason (pid ∷ orphans) _ (reap-Holding pid m h)
  after_wait-Ended reason pid wait_failed m h = h

  after_kill-Ended :
      (reason : Reason) (pid : ℕ) (refused : Bool) (w : Wait) (m : Manager)
      → Holding (pid ∷ orphans) [] m
      → Ended (pid ∷ orphans) (after_kill reason s pid refused w m)
  unfolding after_kill
  after_kill-Ended reason pid true w m h = h
  after_kill-Ended reason pid false exited m h =
      killed-Ended reason (pid ∷ orphans) _ (reap-Holding pid m h)
  after_kill-Ended reason pid false gone m h =
      killed-Ended reason (pid ∷ orphans) _ (reap-Holding pid m h)
  after_kill-Ended reason pid false wait_failed m h = h

  end_process-Ended :
      (env : Halt) (reason : Reason) (cmd : Option ℕ) (m : Manager)
      → Holding (owned cmd ++ orphans) [] m
      → Ended (owned cmd ++ orphans) (end_process env reason s cmd m)
  unfolding end_process
  end_process-Ended env reason none m h = stopped-Ended reason orphans m h
  end_process-Ended env reason (some pid) m h = elim (Bool-cases env.in_time) [
    | inl e ↦ simp e (after_wait-Ended reason pid env.wait m h)
    | inr e ↦ simp e (after_kill-Ended reason pid env.signal_failed env.wait m h)
  ]

-- A stop of a closed manager is refused; any other detaches.
abbrev pub Stops : Bool → Manager → List ℕ → Result (Unit {0}) × Manager → Type 0
Stops b m₀ orphans (ok _, m) = Detached m₀ b m × (m.world.running ≡ orphans) × (m.world.conns ≡ [])
Stops b m₀ orphans (err e, m) =
    ((m₀.closed ≡ true) × (m ≡ m₀))
    ⊎ (Detached m₀ b m × (m.world.running ≡ owned m₀.cmd ++ orphans) × (m.world.conns ≡ []))

Ended-Stops :
    (m₀ : Manager) (b : Bool) (s : Stopping) (orphans procs : List ℕ)
    (x : Result (Unit {0}) × Manager)
    → procs ≡ owned m₀.cmd ++ orphans
    → Ended m₀ b s orphans procs x
    → Stops b m₀ orphans x
Ended-Stops m₀ b s orphans procs (ok _, m) e h = (h.detached, h.running, h.open_conns)
Ended-Stops m₀ b s orphans procs (err _, m) e h = inr (h.detached, h.running ∙ e, h.open_conns)

begin_stop-err :
    (b : Bool) (m : Manager) (e : Error) (m' : Manager)
    → begin_stop b m ≡ (err e, m')
    → (m.closed ≡ true) × (m' ≡ m)
unfolding begin_stop
begin_stop-err b m e m' h = ground arith

begin_stop-ok :
    (b : Bool) (m : Manager) (s : Stopping) (m' : Manager) (orphans : List ℕ)
    → IsWellFormed m
    → Children m orphans
    → begin_stop b m ≡ (ok s, m')
    → (s.cmd ≡ m.cmd) × Holding m b s orphans (owned s.cmd ++ orphans) (owned s.client) m'
unfolding begin_stop
begin_stop-ok b m s m' orphans v n h = ground (arith, n, v.conns_client)

after_detach-Stops :
    (env : Halt) (b : Bool) (reason : Reason) (m₀ : Manager) (orphans : List ℕ)
    (x : Result Stopping × Manager)
    → IsWellFormed m₀
    → Children m₀ orphans
    → begin_stop b m₀ ≡ x
    → Stops b m₀ orphans (after_detach env reason x)
unfolding after_detach
after_detach-Stops env b reason m₀ orphans (err e, m) v n h = inl (begin_stop-err b m₀ e m h)
after_detach-Stops env b reason m₀ orphans (ok s, m) v n h =
    let (cmd, held) = begin_stop-ok b m₀ s m orphans v n h in
    Ended-Stops m₀ b s orphans (owned s.cmd ++ orphans) _ (ap (λ c. owned c ++ orphans) cmd) (
      end_process-Ended m₀ b s orphans env reason s.cmd _ (
        shut_down-Holding m₀ b s orphans env (owned s.cmd ++ orphans) s.client _
          (log-Holding m₀ b s orphans (owned s.cmd ++ orphans) (owned s.client) _ m held)))

-- A stop of a closed manager changes nothing. Any other stop, whatever the plugin and the system
-- answer, leaves no process and no connection in the manager, an unhealthy state with pid 0, the
-- same generation and the next epoch, and no open connection. If it reports success the process has
-- ended; if it reports an error the process that was held may still run.
pub stop_current-Stops :
    (env : Halt) (b : Bool) (reason : Reason) (m : Manager) (orphans : List ℕ)
    → IsWellFormed m
    → Children m orphans
    → Stops b m orphans (stop_current env b reason m)
unfolding stop_current
stop_current-Stops env b reason m orphans v n =
    after_detach-Stops env b reason m orphans (begin_stop b m) v n refl
