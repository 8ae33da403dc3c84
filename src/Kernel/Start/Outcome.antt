-- ===== src/Kernel/Start/Outcome.antt =====
-- internal/kernel/manager.go, startLocked: what a start that fails undoes, and what a start that
-- succeeds has checked.
use rpc_plugin_system.Prelude.{ℕ, ◌≡◌, ◌⊎◌, false, Option, none, some, List, [], ◌∷◌, arith}
use rpc_plugin_system.Kernel.Types.{Reason, Error, Manager, dec64, empty_state, without}
use rpc_plugin_system.Kernel.Artifacts.{cleanup_artifacts, cleanup_failed_start, undo_start}
use rpc_plugin_system.Kernel.Invariant.{owned}

-- Between the claim of a generation and the end of the start.
pub record Claimed (m₀ : Manager) (generation : ℕ) (m : Manager) : Type 0 where
  pub cfg : m.cfg ≡ m₀.cfg
  pub claimed : m.state.generation_id ≡ generation
  pub cmd : m.cmd ≡ none
  pub client : m.client ≡ none
  pub epoch : m.rpc_epoch ≡ m₀.rpc_epoch
  pub still_open : m.closed ≡ false

-- No process and no connection of the failed start is in use (`orphans` are processes of earlier failed
-- stops), and the generation number is given back. The runtime files are not looked at.
pub record RolledBack (m₀ : Manager) (generation : ℕ) (orphans : List ℕ) (m : Manager)
    : Type 0 where
  pub cfg : m.cfg ≡ m₀.cfg
  pub state :
      m.state
      ≡ record empty_state { plugin_id = m₀.cfg.plugin_id; generation_id = dec64 generation }
  pub cmd : m.cmd ≡ none
  pub client : m.client ≡ none
  pub epoch : m.rpc_epoch ≡ m₀.rpc_epoch
  pub still_open : m.closed ≡ false
  pub running : m.world.running ≡ orphans
  pub conns : m.world.conns ≡ []

module _ (m₀ : Manager) (generation : ℕ) (orphans : List ℕ) where
  cleanup-RolledBack :
      (m : Manager)
      → RolledBack m₀ generation orphans m
      → RolledBack m₀ generation orphans (cleanup_artifacts generation m)
  unfolding cleanup_artifacts
  cleanup-RolledBack m r = ground arith

  undo_start-RolledBack :
      (pid : ℕ) (client : Option ℕ) (reason : Reason) (cause : Error) (m : Manager)
      → Claimed m₀ generation m
      → m.world.running ≡ pid ∷ orphans
      → (m.world.conns ≡ owned client) ⊎ (m.world.conns ≡ [])
      → RolledBack m₀ generation orphans (undo_start pid client generation reason cause m)
  unfolding undo_start without
  undo_start-RolledBack pid none reason cause m c procs conns = ground arith
  undo_start-RolledBack pid (some x) reason cause m c procs conns = ground arith

  -- A failed start that had a process, and perhaps a connection, to undo.
  pub cleanup_failed_start-RolledBack :
      (pid : ℕ) (client : Option ℕ) (reason : Reason) (cause : Error) (m : Manager)
      → Claimed m₀ generation m
      → m.world.running ≡ pid ∷ orphans
      → (m.world.conns ≡ owned client) ⊎ (m.world.conns ≡ [])
      → RolledBack m₀ generation orphans (cleanup_failed_start pid client generation reason cause m)
  cleanup_failed_start-RolledBack pid client reason cause m c procs conns =
      unfold cleanup_failed_start in
      cleanup-RolledBack _ (undo_start-RolledBack pid client reason cause m c procs conns)
