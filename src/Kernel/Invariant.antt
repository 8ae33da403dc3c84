-- ===== src/Kernel/Invariant.antt =====
-- internal/kernel/manager.go: what holds of a Manager between its operations.
use rpc_plugin_system.Prelude.{ℕ, ◌≡◌, true, false, Option, none, some, List, [], ◌∷◌, ◌++◌}
use rpc_plugin_system.Kernel.Types.{Manager}

-- The resource that a pointer stands for.
abbrev pub owned : Option ℕ → List ℕ
owned none = []
owned (some x) = x ∷ []

abbrev pub pid_of : Option ℕ → ℕ
pid_of none = 0
pid_of (some p) = p

-- A connection needs a process, health needs a connection, the recorded pid is that of the
-- process, and no connection is open but the current one.
pub record IsWellFormed (m : Manager) : Type 0 where
  pub client_cmd : m.cmd ≡ none → m.client ≡ none
  pub health_client : m.client ≡ none → m.state.healthy ≡ false
  pub pid_cmd : m.state.pid ≡ pid_of m.cmd
  pub closed_idle : m.closed ≡ true → m.cmd ≡ none
  pub conns_client : m.world.conns ≡ owned m.client

-- The child processes are the one that the manager holds, and orphans that it has lost sight of.
abbrev pub Children : Manager → List ℕ → Type 0
Children m orphans = m.world.running ≡ owned m.cmd ++ orphans
