-- ===== src/Kernel/Start/Total.antt =====
-- internal/kernel/manager.go, startLocked as a whole: every start ends published or rolled back.
use rpc_plugin_system.Prelude.{
  ℕ, ◌≡◌, ◌≢◌, ◌⊎◌, inl, inr, refl, ap, ◌∙◌, Bool, true, false, Option, none, some, List, [], ◌∷◌,
  arith, ◌==◌, Bool-cases, opt_eq_iff, ==_iff,
}
use rpc_plugin_system.Kernel.Types.{Component, Error, Result, ok, err, Manager, inc64}
use rpc_plugin_system.Kernel.Artifacts.{rollback_generation}
use rpc_plugin_system.Kernel.Invariant.{IsWellFormed, Children}
use rpc_plugin_system.Kernel.Start.{
  Launch, verify_peer_cred, check_peer, dial, after_dial, connect, log_peer, add_child, clear_stale,
  write_token, with_token, after_token, claim, fail_early, after_spawn, launch, begin_start,
  after_begin, start_locked,
}
use rpc_plugin_system.Kernel.Start.Outcome.{Claimed, RolledBack, cleanup_failed_start-RolledBack}
use rpc_plugin_system.Kernel.Start.Phases.{Held, Started, Outcome, authenticate-Outcome}

-- A claimed start without a process yet, or with one and no connection.
record Alone (m₀ : Manager) (generation : ℕ) (procs : List ℕ) (m : Manager) : Type 0 where
  claim : Claimed m₀ generation m
  running : m.world.running ≡ procs
  conns : m.world.conns ≡ []

module _ (env : Launch) (m₀ : Manager) (generation : ℕ) (orphans : List ℕ) where
  log_peer-Held :
      (pid client : ℕ) (m : Manager)
      → Held m₀ generation orphans pid client m
      → Held m₀ generation orphans pid client (log_peer pid generation m)
  unfolding log_peer
  log_peer-Held pid client m h = ground arith

  check_peer-Outcome :
      (pid client : ℕ) (m : Manager) (peer : Option ℕ)
      → Held m₀ generation orphans pid client m
      → env.spawn ≡ some pid
      → env.dial ≡ some client
      → env.peer ≡ peer
      → Outcome env m₀ generation orphans
          (check_peer env pid client generation (verify_peer_cred peer pid) m)
  unfolding check_peer verify_peer_cred
  check_peer-Outcome pid client m none h sp di pe =
      cleanup_failed_start-RolledBack m₀ generation orphans pid (some client) _ _ _ (ground arith)
        h.running (inl h.conns)
  check_peer-Outcome pid client m (some p) h sp di pe = elim (Bool-cases (p == pid)) [
    | inl same ↦ rw same (
        authenticate-Outcome env m₀ generation orphans pid client sp di
          (pe ∙ ap some ((==_iff p pid).0 same)) (log_peer pid generation m)
          (log_peer-Held pid client m h))
    | inr other ↦ rw other (
        cleanup_failed_start-RolledBack m₀ generation orphans pid (some client) _ _ _ (ground arith)
          h.running (inl h.conns))
  ]

  dial-Held :
      (pid client : ℕ) (m : Manager)
      → Alone m₀ generation (pid ∷ orphans) m
      → Held m₀ generation orphans pid client (dial (some client) generation m).1
  unfolding dial
  dial-Held pid client m h = ground arith

  after_dial-Outcome :
      (pid : ℕ) (m : Manager) (dialled : Option ℕ)
      → Alone m₀ generation (pid ∷ orphans) m
      → env.spawn ≡ some pid
      → env.dial ≡ dialled
      → Outcome env m₀ generation orphans
          (after_dial env pid generation (dial dialled generation m))
  unfolding after_dial dial
  after_dial-Outcome pid m none h sp di =
      cleanup_failed_start-RolledBack m₀ generation orphans pid none _ _ _ (ground arith) h.running
        (inl h.conns)
  after_dial-Outcome pid m (some c) h sp di =
      check_peer-Outcome pid c (dial (some c) generation m).1 env.peer (dial-Held pid c m h) sp di
        refl

  fail_early-RolledBack :
      (component : Component) (e : Error) (m : Manager)
      → Alone m₀ generation orphans m
      → Outcome env m₀ generation orphans (fail_early generation component e m)
  unfolding rollback_generation
  fail_early-RolledBack component e m h = ground arith

  add_child-Alone :
      (listens : Bool) (pid : ℕ) (m : Manager)
      → Alone m₀ generation orphans m
      → Alone m₀ generation (pid ∷ orphans) (add_child listens pid m)
  unfolding add_child
  add_child-Alone listens pid m h = ground arith

  after_spawn-Outcome :
      (spawned : Option ℕ) (m : Manager)
      → env.spawn ≡ spawned
      → Alone m₀ generation orphans m
      → Outcome env m₀ generation orphans (after_spawn env generation spawned m)
  unfolding after_spawn connect
  after_spawn-Outcome none m sp h = fail_early-RolledBack _ _ m h
  after_spawn-Outcome (some pid) m sp h =
      after_dial-Outcome pid (add_child env.listens pid m) env.dial
        (add_child-Alone env.listens pid m h) sp refl

  prepared-Alone :
      (m : Manager)
      → Alone m₀ generation orphans m
      → Alone m₀ generation orphans (clear_stale generation m)
        × Alone m₀ generation orphans (write_token m)
  unfolding clear_stale write_token
  prepared-Alone m h = ground arith

  after_token-Outcome :
      (wrote : Bool) (m : Manager)
      → Alone m₀ generation orphans m
      → Outcome env m₀ generation orphans (after_token env generation wrote m)
  unfolding after_token
  after_token-Outcome false m h = fail_early-RolledBack _ _ m h
  after_token-Outcome true m h =
      after_spawn-Outcome env.spawn (write_token m) refl (prepared-Alone m h).1

  with_token-Outcome :
      (made : Bool) (m : Manager)
      → Alone m₀ generation orphans m
      → Outcome env m₀ generation orphans (with_token env generation made m)
  unfolding with_token
  with_token-Outcome false m h = fail_early-RolledBack _ _ m h
  with_token-Outcome true m h = after_token-Outcome env.write_auth m h

  launch-Outcome :
      (m : Manager)
      → Alone m₀ generation orphans m
      → Outcome env m₀ generation orphans (launch env generation m)
  unfolding launch
  launch-Outcome m h =
      with_token-Outcome env.token (clear_stale generation m) (prepared-Alone m h).0

-- A refused start changes nothing; the others are started or rolled back.
abbrev pub Fate : Launch → Manager → List ℕ → Result (Unit {0}) × Manager → Type 0
Fate env m orphans (ok _, m') = Started env m (inc64 m.state.generation_id) orphans m'
Fate env m orphans (err e, m') =
    ((m' ≡ m) × ((m.closed ≡ true) ⊎ ((m.cmd ≢ none) ⊎ (m.client ≢ none))))
    ⊎ RolledBack m (inc64 m.state.generation_id) orphans m'

Outcome-Fate :
    (env : Launch) (m : Manager) (orphans : List ℕ) (x : Result (Unit {0}) × Manager)
    → Outcome env m (inc64 m.state.generation_id) orphans x
    → Fate env m orphans x
Outcome-Fate env m orphans (ok _, m') o = o
Outcome-Fate env m orphans (err e, m') o = inr o

claim-Alone :
    (m : Manager) (orphans : List ℕ)
    → m.closed ≡ false
    → m.cmd ≡ none
    → m.client ≡ none
    → m.world.running ≡ orphans
    → m.world.conns ≡ []
    → Alone m (inc64 m.state.generation_id) orphans (claim m)
unfolding claim
claim-Alone m orphans live idle free procs conns = ground arith

-- The one case in which the claim is granted.
begin_start-ok :
    (m : Manager) (g : ℕ) (m' : Manager)
    → begin_start m ≡ (ok g, m')
    → (g ≡ inc64 m.state.generation_id)
      × (m' ≡ claim m)
      × (m.closed ≡ false)
      × (m.cmd ≡ none)
      × (m.client ≡ none)
unfolding begin_start
begin_start-ok m g m' h = ground (arith, opt_eq_iff m.cmd none, opt_eq_iff m.client none)

begin_start-err :
    (m : Manager) (e : Error) (m' : Manager)
    → begin_start m ≡ (err e, m')
    → (m' ≡ m) × ((m.closed ≡ true) ⊎ ((m.cmd ≢ none) ⊎ (m.client ≢ none)))
unfolding begin_start
begin_start-err m e m' h = ground (arith, opt_eq_iff m.cmd none, opt_eq_iff m.client none)

after_begin-Fate :
    (env : Launch) (m : Manager) (orphans : List ℕ) (x : Result ℕ × Manager)
    → IsWellFormed m
    → Children m orphans
    → begin_start m ≡ x
    → Fate env m orphans (after_begin env x)
unfolding after_begin
after_begin-Fate env m orphans (err e, m') v n h = inl (begin_start-err m e m' h)
after_begin-Fate env m orphans (ok g, m') v n h =
    let (eg, em, live, idle, free) = begin_start-ok m g m' h in
    rw (eg, em)
      (Outcome-Fate env m orphans _ (
        launch-Outcome env m (inc64 m.state.generation_id) orphans (claim m) (
          claim-Alone m orphans live idle free (ground (arith, n))
            (ground (arith, v.conns_client)))))

-- Every start ends in one of three ways. It is refused, with the manager unchanged, since the
-- manager is closed or busy; or it fails, and no process of it and no connection is left, and the
-- state, the epoch and the generation are given back, whatever becomes of the runtime files; or it
-- succeeds, and then the process behind the socket is the launched
-- one, both replies named this plugin and the claimed generation, no capability is the sentinel,
-- and the manager is published as healthy under that generation.
pub start_locked-Fate :
    (env : Launch) (m : Manager) (orphans : List ℕ)
    → IsWellFormed m
    → Children m orphans
    → Fate env m orphans (start_locked env m)
unfolding start_locked
start_locked-Fate env m orphans v n = after_begin-Fate env m orphans (begin_start m) v n refl
