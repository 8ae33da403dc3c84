-- ===== src/Kernel/Start/Success.antt =====
-- internal/kernel/manager.go, startLocked: the answers under which a start succeeds.
use rpc_plugin_system.Prelude.{
  ℕ, ◌≡◌, true, false, List, Text, none, some, arith, ◌==◌, text_eq_refl,
}
use rpc_plugin_system.Kernel.Types.{ok, Manager, inc64}
use rpc_plugin_system.Kernel.Rpc.{answer, is_stale, call_started, call_done, call}
use rpc_plugin_system.Kernel.Start.{
  Launch, has_sentinel, check_capabilities, after_capabilities, load_capabilities, accept_auth,
  start_auth, check_identity, after_auth, authenticate, verify_peer_cred, check_peer, log_peer,
  dial, after_dial, connect, after_spawn, add_child, write_token, after_token, with_token,
  clear_stale, launch, claim, begin_start, after_begin, start_locked,
}

-- Everything that a start asks for is answered as it should be.
pub record IsGood (env : Launch) (m : Manager) (names : List Text) : Type 0 where
  pub token : env.token ≡ true
  pub write_auth : env.write_auth ≡ true
  pub pid : ℕ
  pub spawn : env.spawn ≡ some pid
  pub peer : env.peer ≡ some pid
  pub conn : ℕ
  pub dial : env.dial ≡ some conn
  pub auth :
      env.auth
      ≡ answer (record { plugin_id = m.cfg.plugin_id; generation_id = inc64 m.state.generation_id })
  pub caps :
      env.caps
      ≡ answer (record {
        identity = record {
          plugin_id = m.cfg.plugin_id;
          generation_id = inc64 m.state.generation_id;
        };
        names = names;
      })
  pub no_sentinel : has_sentinel names ≡ false

==_refl : (n : ℕ) → (n == n) ≡ true
==_refl n = ground arith

-- A start of an open and idle manager succeeds whenever every answer is as it should be.
pub start_locked-succeeds :
    (env : Launch) (m : Manager) (names : List Text)
    → m.closed ≡ false
    → m.cmd ≡ none
    → m.client ≡ none
    → IsGood env m names
    → (start_locked env m).0 ≡ ok tt
unfolding start_locked begin_start after_begin launch with_token after_token after_spawn connect
    after_dial dial check_peer verify_peer_cred authenticate after_auth check_identity
    load_capabilities after_capabilities check_capabilities call call_done is_stale call_started
    claim clear_stale write_token add_child log_peer start_auth accept_auth
start_locked-succeeds env m names live idle free g = simp (
  live, idle, free, g.token, g.write_auth, g.spawn, g.dial, g.peer, g.auth, g.caps, g.no_sentinel,
  ==_refl, text_eq_refl,
)
