-- ===== src/Kernel/Rpc/Fence.antt =====
-- internal/kernel/manager.go, call and poisonClient: when an RPC result is accepted, and what a
-- failed call leaves behind.
use rpc_plugin_system.Prelude.{ℕ, ◌≡◌, ◌≢◌, false, some, arith, opt_eq_iff}
use rpc_plugin_system.Kernel.Types.{Manager}
use rpc_plugin_system.Kernel.Rpc.{is_stale}

-- The manager still serves the generation, connection and epoch that a request was made under.
pub record IsCurrent (client generation epoch : ℕ) (m : Manager) : Type 0 where
  pub same_generation : generation ≡ m.state.generation_id
  pub still_open : m.closed ≡ false
  pub same_client : m.client ≡ some client
  pub same_epoch : m.rpc_epoch ≡ epoch

pub is_stale-IsCurrent :
    (client generation epoch : ℕ) (m : Manager)
    → epoch ≢ 0
    → is_stale client generation epoch m ≡ false
    → IsCurrent client generation epoch m
unfolding is_stale
is_stale-IsCurrent client generation epoch m pos h =
    ground (arith, opt_eq_iff m.client (some client))

pub IsCurrent-is_stale :
    (client generation epoch : ℕ) (m : Manager)
    → IsCurrent client generation epoch m
    → is_stale client generation epoch m ≡ false
unfolding is_stale
IsCurrent-is_stale client generation epoch m c = ground (
  arith,
  c.same_generation,
  c.still_open,
  c.same_client,
  c.same_epoch,
  opt_eq_iff m.client (some client),
)
