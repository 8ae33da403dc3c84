-- ===== src/Kernel/Frame.antt =====
-- internal/kernel/manager.go: closeOnce is touched by Close alone, and the configuration by
-- nothing.
pub mod Requests
use rpc_plugin_system.Prelude.{
  ℕ, ◌≡◌, refl, ◌∙◌, Bool, true, false, not, ◌&&◌, ◌||◌, Option, none, some, text_eq, ◌==◌, opt_eq,
  arith, if_cases, if◌then◌else◌,
}
use rpc_plugin_system.Kernel.Types.{Error, Method, Reason, Result, ok, err, Manager}
use rpc_plugin_system.Kernel.Rpc.{
  Reply, answer, failure, timeout, is_rpc_poison_error, close_conn, detach, poison_client, is_stale,
  call_done, call_started, call,
}
use rpc_plugin_system.Kernel.Artifacts.{
  owns_artifacts, remove_artifacts, remove_failed, cleanup_artifacts, rollback_generation, reap,
  close_client, undo_start, cleanup_failed_start,
}
use rpc_plugin_system.Kernel.Start.{
  Identity, Capabilities, Launch, has_sentinel, fail_start, fail_early, publish, check_capabilities,
  after_capabilities, accept_auth, load_capabilities, check_identity, after_auth, start_auth,
  authenticate, verify_peer_cred, log_peer, check_peer, dial, after_dial, connect, add_child,
  after_spawn, clear_stale, write_token, after_token, with_token, launch, claim, begin_start,
  after_begin, start_locked,
}

-- The same remembered result and interval of heartbeats.
abbrev pub kept_fields : Manager → Option (Result (Unit {0})) × ℕ
kept_fields m = (m.close_result, m.cfg.heartbeat_every)

abbrev pub Stays : Manager → Manager → Type 0
Stays m m' = kept_fields m' ≡ kept_fields m

pub cleanup_artifacts-Stays : (g : ℕ) (m : Manager) → Stays m (cleanup_artifacts g m)
unfolding cleanup_artifacts
cleanup_artifacts-Stays g m =
    if_cases (Stays m) (not (g == 0) && not (owns_artifacts g m)) (λ h. refl)
      (λ h. if_cases (Stays m) (remove_failed m.world) (λ k. refl) (λ k. refl))

rollback_generation-Stays : (g : ℕ) (m : Manager) → Stays m (rollback_generation g m)
unfolding rollback_generation
rollback_generation-Stays g m =
    if_cases (Stays m) (m.state.generation_id == g) (λ h. refl) (λ h. refl)

close_client-Stays : (c : Option ℕ) (m : Manager) → Stays m (close_client c m)
unfolding close_client close_conn
close_client-Stays none m = refl
close_client-Stays (some c) m = refl

cleanup_failed_start-Stays :
    (pid : ℕ) (c : Option ℕ) (g : ℕ) (reason : Reason) (e : Error) (m : Manager)
    → Stays m (cleanup_failed_start pid c g reason e m)
unfolding cleanup_failed_start undo_start reap
cleanup_failed_start-Stays pid c g reason e m =
    cleanup_artifacts-Stays g (undo_start pid c g reason e m)
    ∙ (rollback_generation-Stays g (reap pid (close_client c m)) ∙ close_client-Stays c m)

poison_client-Stays :
    (c g : ℕ) (method : Method) (reason : Reason) (e : Error) (m : Manager)
    → Stays m (poison_client c g method reason e m)
unfolding poison_client detach close_conn
poison_client-Stays c g method reason e m =
    if_cases (Stays m) (opt_eq m.client (some c)) (λ h. refl) (λ h. refl)

call_done-Stays :
    {A : Type 0} (c g epoch : ℕ) (method : Method) (pid : ℕ) (reply : Reply A) (m : Manager)
    → Stays m (call_done c g epoch method pid reply m).1
unfolding call_done
call_done-Stays {A} c g epoch method pid (answer a) m =
    if_cases {A = Result A × Manager} (λ x. Stays m x.1) (is_stale c g epoch m) (λ h. refl)
      (λ h. refl)
call_done-Stays c g epoch method pid (failure e) m =
    if_cases (Stays m) (is_rpc_poison_error e)
      (λ h. poison_client-Stays c g method Reason.transport_failure (Error.call_failed e) m)
      (λ h. refl)
call_done-Stays c g epoch method pid timeout m =
    poison_client-Stays c g method Reason.deadline_passed Error.call_timeout m

pub call-Stays :
    {A : Type 0} (c g epoch : ℕ) (method : Method) (reply : Reply A) (m : Manager)
    → Stays m (call c g epoch method reply (λ x. x) m).1
unfolding call call_started
call-Stays c g epoch method reply m =
    call_done-Stays c g epoch method m.state.pid reply (call_started g method m)

-- A step that goes on from a result and a manager.
abbrev Ends : Manager → Result (Unit {0}) × Manager → Type 0
Ends m x = Stays m x.1

check_capabilities-Stays :
    (pid c g : ℕ) (caps : Capabilities) (m : Manager) → Ends m (check_capabilities pid c g caps m)
unfolding check_capabilities publish
check_capabilities-Stays pid c g caps m =
    if_cases (Ends m) (not (text_eq caps.identity.plugin_id m.cfg.plugin_id))
      (λ h.
        cleanup_failed_start-Stays pid (some c) g Reason.capabilities_id_mismatch Error.id_mismatch
          _)
      (λ h.
        if_cases (Ends m) (not (caps.identity.generation_id == g))
          (λ k.
            cleanup_failed_start-Stays pid (some c) g Reason.capabilities_generation_mismatch
              Error.generation_mismatch _)
          (λ k.
            if_cases (Ends m) (has_sentinel caps.names)
              (λ l.
                cleanup_failed_start-Stays pid (some c) g Reason.capabilities_sentinel
                  Error.sentinel_failure _)
              (λ l. refl)))

after_capabilities-Stays :
    (pid c g : ℕ) (x : Result Capabilities × Manager) → Ends x.1 (after_capabilities pid c g x)
unfolding after_capabilities
after_capabilities-Stays pid c g (err e, m) =
    cleanup_failed_start-Stays pid (some c) g Reason.capabilities_rpc_failure e _
after_capabilities-Stays pid c g (ok caps, m) = check_capabilities-Stays pid c g caps m

load_capabilities-Stays :
    (env : Launch) (pid c g : ℕ) (m : Manager) → Ends m (load_capabilities env pid c g m)
unfolding load_capabilities accept_auth
load_capabilities-Stays env pid c g m =
    after_capabilities-Stays pid c g
      (call c g 0 Method.capabilities env.caps (λ x. x) (accept_auth pid g m))
    ∙ call-Stays c g 0 Method.capabilities env.caps (accept_auth pid g m)

check_identity-Stays :
    (env : Launch) (pid c g : ℕ) (i : Identity) (m : Manager)
    → Ends m (check_identity env pid c g i m)
unfolding check_identity
check_identity-Stays env pid c g i m =
    if_cases (Ends m) (not (text_eq i.plugin_id m.cfg.plugin_id))
      (λ h. cleanup_failed_start-Stays pid (some c) g Reason.auth_id_mismatch Error.id_mismatch _)
      (λ h.
        if_cases (Ends m) (not (i.generation_id == g))
          (λ k.
            cleanup_failed_start-Stays pid (some c) g Reason.auth_generation_mismatch
              Error.generation_mismatch _)
          (λ k. load_capabilities-Stays env pid c g m))

after_auth-Stays :
    (env : Launch) (pid c g : ℕ) (x : Result Identity × Manager)
    → Ends x.1 (after_auth env pid c g x)
unfolding after_auth
after_auth-Stays env pid c g (err e, m) =
    cleanup_failed_start-Stays pid (some c) g Reason.auth_rpc_failure e _
after_auth-Stays env pid c g (ok i, m) = check_identity-Stays env pid c g i m

authenticate-Stays :
    (env : Launch) (pid c g : ℕ) (m : Manager) → Ends m (authenticate env pid c g m)
unfolding authenticate start_auth
authenticate-Stays env pid c g m =
    after_auth-Stays env pid c g (call c g 0 Method.auth env.auth (λ x. x) (start_auth pid g m))
    ∙ call-Stays c g 0 Method.auth env.auth (start_auth pid g m)

check_peer-Stays :
    (env : Launch) (pid c g : ℕ) (o : Option Error) (m : Manager)
    → Ends m (check_peer env pid c g o m)
unfolding check_peer log_peer
check_peer-Stays env pid c g (some e) m =
    cleanup_failed_start-Stays pid (some c) g Reason.peer_credential_mismatch e _
check_peer-Stays env pid c g none m = authenticate-Stays env pid c g (log_peer pid g m)

after_dial-Stays :
    (env : Launch) (pid g : ℕ) (x : Option ℕ × Manager) → Ends x.1 (after_dial env pid g x)
unfolding after_dial
after_dial-Stays env pid g (none, m) =
    cleanup_failed_start-Stays pid none g Reason.dial_failure Error.dial_timeout m
after_dial-Stays env pid g (some c, m) =
    check_peer-Stays env pid c g (verify_peer_cred env.peer pid) m

dial-Stays : (o : Option ℕ) (g : ℕ) (m : Manager) → Stays m (dial o g m).1
unfolding dial
dial-Stays none g m = refl
dial-Stays (some c) g m = refl

after_spawn-Stays :
    (env : Launch) (g : ℕ) (o : Option ℕ) (m : Manager) → Ends m (after_spawn env g o m)
unfolding after_spawn connect add_child
after_spawn-Stays env g none m = rollback_generation-Stays g m
after_spawn-Stays env g (some pid) m =
    after_dial-Stays env pid g (dial env.dial g (add_child env.listens pid m))
    ∙ dial-Stays env.dial g (add_child env.listens pid m)

after_token-Stays : (env : Launch) (g : ℕ) (b : Bool) (m : Manager) → Ends m (after_token env g b m)
unfolding after_token write_token
after_token-Stays env g false m = rollback_generation-Stays g m
after_token-Stays env g true m = after_spawn-Stays env g env.spawn (write_token m)

with_token-Stays : (env : Launch) (g : ℕ) (b : Bool) (m : Manager) → Ends m (with_token env g b m)
unfolding with_token
with_token-Stays env g false m = rollback_generation-Stays g m
with_token-Stays env g true m = after_token-Stays env g env.write_auth m

after_begin-Stays : (env : Launch) (x : Result ℕ × Manager) → Ends x.1 (after_begin env x)
unfolding after_begin launch clear_stale
after_begin-Stays env (err e, m) = refl
after_begin-Stays env (ok g, m) = with_token-Stays env g env.token (clear_stale g m)

begin_start-Stays : (m : Manager) → Stays m (begin_start m).1
unfolding begin_start claim
begin_start-Stays m =
    if_cases {A = Result ℕ × Manager} (λ x. Stays m x.1) m.closed (λ h. refl)
      (λ h.
        if_cases {A = Result ℕ × Manager} (λ x. Stays m x.1)
          (not (opt_eq m.cmd none) || not (opt_eq m.client none)) (λ k. refl) (λ k. refl))

pub start_locked-Stays : (env : Launch) (m : Manager) → Stays m (start_locked env m).1
unfolding start_locked
start_locked-Stays env m = after_begin-Stays env (begin_start m) ∙ begin_start-Stays m
