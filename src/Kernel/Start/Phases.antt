-- ===== src/Kernel/Start/Phases.antt =====
-- internal/kernel/manager.go, lines 302 to 502: the stretches of a start that has a process and a
-- connection, from the last to the first.
use rpc_plugin_system.Prelude.{
  ℕ, ◌≡◌, ◌⊎◌, inl, inr, refl, sym, ap, ◌∙◌, true, false, some, List, [], ◌∷◌, ◌++◌, arith, text_eq,
  ◌==◌, text_eq_iff, Bool-cases, ==_iff,
}
use rpc_plugin_system.Kernel.Types.{Method, Reason, Error, Result, ok, err, Manager, without}
use rpc_plugin_system.Kernel.Rpc.{
  Reply, answer, failure, timeout, call, call_started, is_stale, is_rpc_poison_error,
}
use rpc_plugin_system.Kernel.Artifacts.{cleanup_failed_start}
use rpc_plugin_system.Kernel.Invariant.{owned}
use rpc_plugin_system.Kernel.Start.{
  Identity, Capabilities, Launch, has_sentinel, publish, check_capabilities, after_capabilities,
  load_capabilities, accept_auth, start_auth, check_identity, after_auth, authenticate,
}
use rpc_plugin_system.Kernel.Start.Outcome.{Claimed, RolledBack, cleanup_failed_start-RolledBack}

-- What a start that succeeded has seen: the process behind the socket is the launched one, and both
-- replies name this plugin and this generation.
pub record Started (env : Launch) (m₀ : Manager) (generation : ℕ) (orphans : List ℕ) (m : Manager)
    : Type 0 where
  pub cfg : m.cfg ≡ m₀.cfg
  pub claimed : m.state.generation_id ≡ generation
  pub plugin_id : m.state.plugin_id ≡ m₀.cfg.plugin_id
  pub healthy : m.state.healthy ≡ true
  pub cmd : m.cmd ≡ env.spawn
  pub peer : env.peer ≡ env.spawn
  pub client : m.client ≡ env.dial
  pub pid : some m.state.pid ≡ m.cmd
  pub conn : owned m.client ≡ m.world.conns
  pub connected : (c : ℕ) × (m.client ≡ some c)
  pub authenticated :
      env.auth ≡ answer (record { plugin_id = m₀.cfg.plugin_id; generation_id = generation })
  pub loaded :
      env.caps
      ≡ answer (record {
        identity = record { plugin_id = m₀.cfg.plugin_id; generation_id = generation };
        names = m.state.capabilities;
      })
  pub no_sentinel : has_sentinel m.state.capabilities ≡ false
  pub token_gone : m.world.auth_file.removable ≡ true → m.world.auth_file.present ≡ false
  pub epoch : m.rpc_epoch ≡ m₀.rpc_epoch
  pub still_open : m.closed ≡ false
  pub running : m.world.running ≡ owned m.cmd ++ orphans

abbrev pub Outcome : Launch → Manager → ℕ → List ℕ → Result (Unit {0}) × Manager → Type 0
Outcome env m₀ generation orphans (ok _, m) = Started env m₀ generation orphans m
Outcome env m₀ generation orphans (err e, m) = RolledBack m₀ generation orphans m

-- A claimed start that has launched `pid` and dialled `client`.
pub record Held (m₀ : Manager) (generation : ℕ) (orphans : List ℕ) (pid client : ℕ) (m : Manager)
    : Type 0 where
  pub claim : Claimed m₀ generation m
  pub running : m.world.running ≡ pid ∷ orphans
  pub conns : m.world.conns ≡ client ∷ []

module _ (env : Launch) (m₀ : Manager) (generation : ℕ) (orphans : List ℕ) (pid client : ℕ) where
  abbrev Calls : {A : Type 0} → Manager → Reply A → Result A × Manager → Type 0
  Calls m reply (ok a, m') =
      (reply ≡ answer a)
      × Held m₀ generation orphans pid client m'
      × (m'.world.auth_file ≡ m.world.auth_file)
  Calls m reply (err e, m') =
      Claimed m₀ generation m'
      × (m'.world.running ≡ pid ∷ orphans)
      × ((m'.world.conns ≡ client ∷ []) ⊎ (m'.world.conns ≡ []))

  fresh_reply :
      (method : Method) (m : Manager)
      → Held m₀ generation orphans pid client m
      → is_stale client generation 0 (call_started generation method m) ≡ false
  unfolding is_stale call_started
  fresh_reply method m h = ground arith

  -- A call of the start itself: nothing is published yet, so a failure can only close the connection.
  call-Calls :
      {A : Type 0} (method : Method) (reply : Reply A) (m : Manager)
      → Held m₀ generation orphans pid client m
      → Calls m reply (call client generation 0 method reply (λ x. x) m)
  unfolding call without
  call-Calls method (answer a) m h =
      rw (fresh_reply method m h)
        (refl, record { claim = ground arith; running = ground arith; conns = ground arith }, refl)
  call-Calls method (failure e) m h = elim (Bool-cases (is_rpc_poison_error e)) [
    | inl p ↦ rw p (ground arith)
    | inr p ↦ rw p (ground arith)
  ]
  call-Calls method timeout m h = ground arith

  accept_auth-Held :
      (m : Manager)
      → Held m₀ generation orphans pid client m
      → Held m₀ generation orphans pid client (accept_auth pid generation m)
  unfolding accept_auth
  accept_auth-Held m h = ground arith

  accept_auth-token :
      (m : Manager)
      → (accept_auth pid generation m).world.auth_file.removable ≡ true
      → (accept_auth pid generation m).world.auth_file.present ≡ false
  unfolding accept_auth
  accept_auth-token m h = ground arith

  publish-Started :
      (caps : Capabilities) (m : Manager)
      → Held m₀ generation orphans pid client m
      → env.spawn ≡ some pid
      → env.dial ≡ some client
      → env.peer ≡ some pid
      → env.auth ≡ answer (record { plugin_id = m₀.cfg.plugin_id; generation_id = generation })
      → env.caps ≡ answer caps
      → caps.identity.plugin_id ≡ m₀.cfg.plugin_id
      → caps.identity.generation_id ≡ generation
      → has_sentinel caps.names ≡ false
      → (m.world.auth_file.removable ≡ true → m.world.auth_file.present ≡ false)
      → Started env m₀ generation orphans (publish pid client caps m)
  unfolding publish
  publish-Started caps m h sp di pe au ca id gen sent tok = record {
    cfg = h.claim.cfg;
    claimed = gen;
    plugin_id = id;
    healthy = refl;
    cmd = sym sp;
    peer = pe ∙ sym sp;
    client = sym di;
    pid = refl;
    conn = sym h.conns;
    connected = (client, refl);
    authenticated = au;
    loaded = ca ∙ ap answer (ground arith);
    no_sentinel = sent;
    token_gone = tok;
    epoch = h.claim.epoch;
    still_open = h.claim.still_open;
    running = h.running;
  }

  module _ (sp : env.spawn ≡ some pid) (di : env.dial ≡ some client)
      (pe : env.peer ≡ some pid) where
    -- A start that gives up while it holds the process and perhaps the connection.
    give_up :
        (reason : Reason) (cause : Error) (m : Manager)
        → Claimed m₀ generation m
        → m.world.running ≡ pid ∷ orphans
        → (m.world.conns ≡ client ∷ []) ⊎ (m.world.conns ≡ [])
        → RolledBack m₀ generation orphans
            (cleanup_failed_start pid (some client) generation reason cause m)
    give_up reason cause m c procs conns =
        cleanup_failed_start-RolledBack m₀ generation orphans pid (some client) reason cause m c
          procs conns

    check_capabilities-Outcome :
        (caps : Capabilities) (m : Manager)
        → Held m₀ generation orphans pid client m
        → env.auth ≡ answer (record { plugin_id = m₀.cfg.plugin_id; generation_id = generation })
        → env.caps ≡ answer caps
        → (m.world.auth_file.removable ≡ true → m.world.auth_file.present ≡ false)
        → Outcome env m₀ generation orphans (check_capabilities pid client generation caps m)
    unfolding check_capabilities
    check_capabilities-Outcome caps m h au ca tok =
        elim (Bool-cases (text_eq caps.identity.plugin_id m.cfg.plugin_id)) [
          | inr wrong ↦ rw wrong (give_up _ _ _ (ground arith) h.running (inl h.conns))
          | inl same ↦ rw same (elim (Bool-cases (caps.identity.generation_id == generation)) [
            | inr wrong ↦ rw wrong (give_up _ _ _ (ground arith) h.running (inl h.conns))
            | inl right ↦ rw right (elim (Bool-cases (has_sentinel caps.names)) [
              | inl bad ↦ rw bad (give_up _ _ _ (ground arith) h.running (inl h.conns))
              | inr good ↦ rw good (
                  publish-Started caps m h sp di pe au ca
                    ((text_eq_iff _ _).0 same ∙ ap (λ c. c.plugin_id) h.claim.cfg)
                    ((==_iff _ _).0 right) good tok)
            ])
          ])
        ]

    after_capabilities-Outcome :
        (m : Manager) (x : Result Capabilities × Manager)
        → Calls m env.caps x
        → env.auth ≡ answer (record { plugin_id = m₀.cfg.plugin_id; generation_id = generation })
        → (m.world.auth_file.removable ≡ true → m.world.auth_file.present ≡ false)
        → Outcome env m₀ generation orphans (after_capabilities pid client generation x)
    unfolding after_capabilities
    after_capabilities-Outcome m (err e, m') (c, procs, conns) au tok =
        give_up _ _ _ (ground arith) procs conns
    after_capabilities-Outcome m (ok caps, m') (ca, h, same) au tok =
        check_capabilities-Outcome caps m' h au ca (rw same tok)

    load_capabilities-Outcome :
        (m : Manager)
        → Held m₀ generation orphans pid client m
        → env.auth ≡ answer (record { plugin_id = m₀.cfg.plugin_id; generation_id = generation })
        → Outcome env m₀ generation orphans (load_capabilities env pid client generation m)
    load_capabilities-Outcome m h au =
        unfold load_capabilities in
        after_capabilities-Outcome (accept_auth pid generation m) _
          (call-Calls Method.capabilities env.caps (accept_auth pid generation m)
            (accept_auth-Held m h))
          au (accept_auth-token m)

    check_identity-Outcome :
        (identity : Identity) (m : Manager)
        → Held m₀ generation orphans pid client m
        → env.auth ≡ answer identity
        → Outcome env m₀ generation orphans (check_identity env pid client generation identity m)
    unfolding check_identity
    check_identity-Outcome identity m h au =
        elim (Bool-cases (text_eq identity.plugin_id m.cfg.plugin_id)) [
          | inr wrong ↦ rw wrong (give_up _ _ _ (ground arith) h.running (inl h.conns))
          | inl same ↦ rw same (elim (Bool-cases (identity.generation_id == generation)) [
            | inr wrong ↦ rw wrong (give_up _ _ _ (ground arith) h.running (inl h.conns))
            | inl right ↦ rw right (
                load_capabilities-Outcome m h (
                  au
                  ∙ ap answer (
                      ground (arith, text_eq_iff identity.plugin_id m.cfg.plugin_id, h.claim.cfg))))
          ])
        ]

    after_auth-Outcome :
        (m : Manager) (x : Result Identity × Manager)
        → Calls m env.auth x
        → Outcome env m₀ generation orphans (after_auth env pid client generation x)
    unfolding after_auth
    after_auth-Outcome m (err e, m') (c, procs, conns) = give_up _ _ _ (ground arith) procs conns
    after_auth-Outcome m (ok identity, m') (au, h, same) = check_identity-Outcome identity m' h au

    pub authenticate-Outcome :
        (m : Manager)
        → Held m₀ generation orphans pid client m
        → Outcome env m₀ generation orphans (authenticate env pid client generation m)
    authenticate-Outcome m h =
        unfold authenticate in
        after_auth-Outcome (start_auth pid generation m) _ (
          call-Calls Method.auth env.auth (start_auth pid generation m)
            (unfold start_auth in ground arith))
