-- ===== src/Kernel/Start.antt =====
-- internal/kernel/manager.go: startLocked, in its five stretches (launch, connect, authenticate,
-- load the capabilities, publish), with dial and verifyPeerCred.
-- What the outside gives is a `Launch`. The start runs alone: until it publishes, the manager has no
-- connection, so that no other goroutine can act on it but by writing log entries.
pub mod Outcome
pub mod Phases
pub mod Total
pub mod Success
use rpc_plugin_system.Prelude.{
  ℕ, Bool, true, false, not, ◌&&◌, ◌||◌, Option, none, some, List, [], ◌∷◌, Text, codes, text_eq,
  ◌==◌, opt_eq, if◌then◌else◌,
}
use rpc_plugin_system.Kernel.Types.{
  Level, Component, EventName, Method, Error, Reason, Result, ok, err, LogEntry, entry, State, File,
  World, Manager, inc64, log_event, empty_state,
}
use rpc_plugin_system.Kernel.Rpc.{Reply, call}
use rpc_plugin_system.Kernel.Artifacts.{
  socket_path, remove_file, cleanup_failed_start, rollback_generation,
}

-- AuthResponse and CapabilitiesResponse, without the version
pub record Identity : Type 0 where
  pub plugin_id : Text
  pub generation_id : ℕ

pub record Capabilities : Type 0 where
  pub identity : Identity
  pub names : List Text

-- What the system and the plugin answer during one start.
pub record Launch : Type 0 where
  pub token : Bool  -- newBootstrapToken succeeds
  pub write_auth : Bool  -- the token file is written
  pub spawn : Option ℕ  -- cmd.Start: the pid
  pub listens : Bool  -- the child binds its socket path
  pub dial : Option ℕ  -- the connection, before DialTimeout
  pub peer : Option ℕ  -- SO_PEERCRED: the pid behind the socket
  pub auth : Reply Identity
  pub caps : Reply Capabilities

abbrev pub sentinel : Text
sentinel = codes "__capabilities_error__"

unfoldable pub has_sentinel : List Text → Bool
has_sentinel [] = false
has_sentinel (c ∷ cs) = text_eq c sentinel || has_sentinel cs

-- A start that fails after the process exists.
abbrev pub fail_start : ℕ → Option ℕ → ℕ → Reason → Error → Manager → Result (Unit {0}) × Manager
fail_start pid client generation reason cause m =
    (err cause, cleanup_failed_start pid client generation reason cause m)

abbrev kernel_entry : Level → EventName → ℕ → ℕ → LogEntry
kernel_entry level event generation pid = entry level Component.kernel event generation pid

abbrev auth_entry : Level → EventName → ℕ → ℕ → LogEntry
auth_entry level event generation pid = entry level Component.auth event generation pid

abbrev with_error : Error → LogEntry → LogEntry
with_error e x = record x { error = some e }

-- Lines 467 to 502.
unfoldable pub publish : ℕ → ℕ → Capabilities → Manager → Manager
unfolding socket_path
publish pid client caps m =
    let generation = caps.identity.generation_id in
    log_event (kernel_entry Level.info EventName.plugin_started generation pid) (
      log_event (kernel_entry Level.info EventName.capabilities_loaded generation pid) (record m {
        cmd = some pid;
        client = some client;
        state = record {
          plugin_id = caps.identity.plugin_id;
          generation_id = generation;
          healthy = true;
          capabilities = caps.names;
          socket_path = socket_path m.cfg;
          pid = pid;
        };
      }))

-- Lines 416 to 465, over the capabilities that arrived.
unfoldable pub check_capabilities : ℕ → ℕ → ℕ → Capabilities → Manager → Result (Unit {0}) × Manager
unfolding has_sentinel publish
check_capabilities pid client generation caps m =
    if not (text_eq caps.identity.plugin_id m.cfg.plugin_id)
    then fail_start pid (some client) generation Reason.capabilities_id_mismatch Error.id_mismatch (
        log_event
          (with_error Error.id_mismatch
            (kernel_entry Level.error EventName.capabilities_failed generation pid))
          m)
    else if not (caps.identity.generation_id == generation)
    then fail_start pid (some client) generation Reason.capabilities_generation_mismatch
        Error.generation_mismatch
        (log_event
          (with_error Error.generation_mismatch
            (kernel_entry Level.error EventName.capabilities_failed generation pid))
          m)
    else if has_sentinel caps.names
    then fail_start pid (some client) generation Reason.capabilities_sentinel Error.sentinel_failure
        (log_event
          (with_error Error.sentinel_failure
            (kernel_entry Level.error EventName.capabilities_failed generation pid))
          m)
    else (ok tt, publish pid client caps m)

-- Lines 399 to 415: the result of the capabilities call.
unfoldable pub after_capabilities :
    ℕ → ℕ → ℕ → Result Capabilities × Manager → Result (Unit {0}) × Manager
unfolding check_capabilities
after_capabilities pid client generation (err e, m) =
    fail_start pid (some client) generation Reason.capabilities_rpc_failure e (
      log_event
        (with_error e (kernel_entry Level.error EventName.capabilities_failed generation pid)) m)
after_capabilities pid client generation (ok caps, m) =
    check_capabilities pid client generation caps m

-- Lines 377 to 398: accepted, so the token file goes.
unfoldable pub accept_auth : ℕ → ℕ → Manager → Manager
unfolding remove_file
accept_auth pid generation m =
    let accepted = log_event (auth_entry Level.info EventName.auth_succeeded generation pid) m in
    log_event (kernel_entry Level.info EventName.capabilities_started generation pid)
      (record accepted { world = record m.world { auth_file = (remove_file m.world.auth_file).0 } })

unfoldable pub load_capabilities : Launch → ℕ → ℕ → ℕ → Manager → Result (Unit {0}) × Manager
unfolding after_capabilities accept_auth call
load_capabilities env pid client generation m =
    after_capabilities pid client generation (
      call client generation 0 Method.capabilities env.caps (λ x. x) (accept_auth pid generation m))

-- Lines 345 to 376, over the identity that the plugin answered.
unfoldable pub check_identity :
    Launch → ℕ → ℕ → ℕ → Identity → Manager → Result (Unit {0}) × Manager
unfolding load_capabilities
check_identity env pid client generation identity m =
    if not (text_eq identity.plugin_id m.cfg.plugin_id)
    then fail_start pid (some client) generation Reason.auth_id_mismatch Error.id_mismatch (
        log_event
          (with_error Error.id_mismatch
            (auth_entry Level.error EventName.auth_failed generation pid))
          m)
    else if not (identity.generation_id == generation)
    then fail_start pid (some client) generation Reason.auth_generation_mismatch
        Error.generation_mismatch
        (log_event
          (with_error Error.generation_mismatch
            (auth_entry Level.error EventName.auth_failed generation pid))
          m)
    else load_capabilities env pid client generation m

-- Lines 328 to 344.
unfoldable pub after_auth :
    Launch → ℕ → ℕ → ℕ → Result Identity × Manager → Result (Unit {0}) × Manager
unfolding check_identity
after_auth env pid client generation (err e, m) =
    fail_start pid (some client) generation Reason.auth_rpc_failure e
      (log_event (with_error e (auth_entry Level.error EventName.auth_failed generation pid)) m)
after_auth env pid client generation (ok identity, m) =
    check_identity env pid client generation identity m

unfoldable pub start_auth : ℕ → ℕ → Manager → Manager
start_auth pid generation m =
    log_event (auth_entry Level.info EventName.auth_started generation pid) m

-- Lines 318 to 344.
unfoldable pub authenticate : Launch → ℕ → ℕ → ℕ → Manager → Result (Unit {0}) × Manager
unfolding after_auth call start_auth
authenticate env pid client generation m =
    after_auth env pid client generation
      (call client generation 0 Method.auth env.auth (λ x. x) (start_auth pid generation m))

-- verifyPeerCred: the process at the other end is the one that was launched.
unfoldable pub verify_peer_cred : Option ℕ → ℕ → Option Error
verify_peer_cred none want = some Error.peer_cred_error
verify_peer_cred (some pid) want = if pid == want then none else some Error.peer_pid_mismatch

unfoldable pub log_peer : ℕ → ℕ → Manager → Manager
log_peer pid generation m =
    log_event (auth_entry Level.info EventName.peer_cred_verified generation pid) m

-- Lines 302 to 317.
unfoldable pub check_peer :
    Launch → ℕ → ℕ → ℕ → Option Error → Manager → Result (Unit {0}) × Manager
unfolding authenticate log_peer
check_peer env pid client generation (some e) m =
    fail_start pid (some client) generation Reason.peer_credential_mismatch e
      (log_event (with_error e (auth_entry Level.error EventName.auth_failed generation pid)) m)
check_peer env pid client generation none m =
    authenticate env pid client generation (log_peer pid generation m)

abbrev dial_entry : Level → EventName → ℕ → LogEntry
dial_entry level event generation = entry level Component.rpc event generation 0

-- dial: retried until DialTimeout; the first argument is the connection that it ends with.
unfoldable pub dial : Option ℕ → ℕ → Manager → Option ℕ × Manager
dial none generation m = (
  none,
  log_event
      (with_error Error.dial_timeout
        (dial_entry Level.error EventName.plugin_dial_failed generation))
      (log_event (dial_entry Level.info EventName.plugin_dial_started generation) m),
)
dial (some c) generation m = (
  some c,
  log_event (dial_entry Level.info EventName.plugin_dial_succeeded generation)
      (record (log_event (dial_entry Level.info EventName.plugin_dial_started generation) m) {
        world = record m.world { conns = c ∷ m.world.conns };
      }),
)

-- Lines 297 to 316.
unfoldable pub after_dial : Launch → ℕ → ℕ → Option ℕ × Manager → Result (Unit {0}) × Manager
unfolding check_peer verify_peer_cred
after_dial env pid generation (none, m) =
    fail_start pid none generation Reason.dial_failure Error.dial_timeout m
after_dial env pid generation (some c, m) =
    check_peer env pid c generation (verify_peer_cred env.peer pid) m

unfoldable pub connect : Launch → ℕ → ℕ → Manager → Result (Unit {0}) × Manager
unfolding after_dial dial
connect env pid generation m = after_dial env pid generation (dial env.dial generation m)

-- Lines 238 to 250, 252 to 266 and 281 to 295: a start that fails before the process exists.
abbrev pub fail_early : ℕ → Component → Error → Manager → Result (Unit {0}) × Manager
fail_early generation component e m = (
  err e,
  log_event (with_error e (entry Level.error component EventName.plugin_start_failed generation 0))
      (rollback_generation generation m),
)

unfoldable pub add_child : Bool → ℕ → Manager → Manager
add_child listens pid m = record m {
  world = record m.world {
    running = pid ∷ m.world.running;
    socket_file =
        if listens then record m.world.socket_file { present = true } else m.world.socket_file;
  };
}

-- Lines 268 to 297.
unfoldable pub after_spawn : Launch → ℕ → Option ℕ → Manager → Result (Unit {0}) × Manager
unfolding connect rollback_generation add_child
after_spawn env generation none m = fail_early generation Component.kernel Error.spawn_error m
after_spawn env generation (some pid) m = connect env pid generation (add_child env.listens pid m)

-- Lines 221 to 235.
unfoldable pub clear_stale : ℕ → Manager → Manager
unfolding remove_file
clear_stale generation m =
    log_event (entry Level.info Component.kernel EventName.plugin_start_requested generation 0)
      (record m {
        world = record m.world {
          socket_file = (remove_file m.world.socket_file).0;
          auth_file = (remove_file m.world.auth_file).0;
        };
      })

unfoldable pub write_token : Manager → Manager
write_token m = record m {
  world = record m.world { auth_file = record m.world.auth_file { present = true } };
}

-- Lines 252 to 297; the test is whether the token file was written.
unfoldable pub after_token : Launch → ℕ → Bool → Manager → Result (Unit {0}) × Manager
unfolding after_spawn rollback_generation write_token
after_token env generation false m = fail_early generation Component.auth Error.write_token_error m
after_token env generation true m = after_spawn env generation env.spawn (write_token m)

-- Lines 237 to 297; the test is whether a token could be made.
unfoldable pub with_token : Launch → ℕ → Bool → Manager → Result (Unit {0}) × Manager
unfolding after_token rollback_generation
with_token env generation false m = fail_early generation Component.auth Error.token_error m
with_token env generation true m = after_token env generation env.write_auth m

-- Lines 221 to 297.
unfoldable pub launch : Launch → ℕ → Manager → Result (Unit {0}) × Manager
unfolding with_token clear_stale
launch env generation m = with_token env generation env.token (clear_stale generation m)

-- Lines 202 to 219: the locked section that claims the next generation.
unfoldable pub claim : Manager → Manager
unfolding socket_path
claim m = record m {
  state = record empty_state {
    plugin_id = m.cfg.plugin_id;
    generation_id = inc64 m.state.generation_id;
    socket_path = socket_path m.cfg;
  };
}

unfoldable pub begin_start : Manager → Result ℕ × Manager
unfolding claim
begin_start m =
    if m.closed
    then (err Error.manager_closed, m)
    else if not (opt_eq m.cmd none) || not (opt_eq m.client none)
    then (err Error.already_started, m)
    else (ok (inc64 m.state.generation_id), claim m)

unfoldable pub after_begin : Launch → Result ℕ × Manager → Result (Unit {0}) × Manager
unfolding launch
after_begin env (err e, m) = (err e, m)
after_begin env (ok generation, m) = launch env generation m

unfoldable pub start_locked : Launch → Manager → Result (Unit {0}) × Manager
unfolding begin_start after_begin
start_locked env m = after_begin env (begin_start m)
