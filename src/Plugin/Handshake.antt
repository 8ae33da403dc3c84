-- ===== src/Plugin/Handshake.antt =====
-- internal/kernel/manager.go, Start, against pkg/plugin/plugin.go: the handshake of the two sides.
use rpc_plugin_system.Prelude.{
  ℕ, ◌≡◌, refl, ap, ◌∙◌, codes, true, false, Option, none, some, List, Text, text_eq, text_eq_refl,
  arith,
}
use rpc_plugin_system.Kernel.Types.{Method, ok, Manager, inc64, RpcError}
use rpc_plugin_system.Kernel.Rpc.{Reply, answer, failure}
use rpc_plugin_system.Kernel.Start.{Identity, Capabilities, Launch, has_sentinel, start_locked}
use rpc_plugin_system.Kernel.Start.Success.{start_locked-succeeds}
use rpc_plugin_system.Plugin.Config.{Config}
use rpc_plugin_system.Plugin.Logging.{PluginLogger}
use rpc_plugin_system.Plugin.Server.{
  Core, Outcome, identity_or, after_hook, note_info, Server, auths, lists, identified, listed_as,
  beat, said, empty, Answer, given, failed, check_token, authenticate, require_auth,
  list_capabilities, handle, new_server, detect_capabilities,
}

-- What net/rpc makes of an answer to Auth and to Capabilities.
abbrev pub to_identity : Answer → Reply Identity
to_identity (given (identified i)) = answer i
to_identity (given (listed_as c)) = failure RpcError.handler_error
to_identity (given (beat b)) = failure RpcError.handler_error
to_identity (given (said t)) = failure RpcError.handler_error
to_identity (given empty) = failure RpcError.handler_error
to_identity (failed e) = failure RpcError.handler_error

abbrev pub to_capabilities : Answer → Reply Capabilities
to_capabilities (given (listed_as c)) = answer c
to_capabilities (given (identified i)) = failure RpcError.handler_error
to_capabilities (given (beat b)) = failure RpcError.handler_error
to_capabilities (given (said t)) = failure RpcError.handler_error
to_capabilities (given empty) = failure RpcError.handler_error
to_capabilities (failed e) = failure RpcError.handler_error

-- The server after its first request.
abbrev pub introduced : Core → Text → Server → Server
introduced core token s = (handle core (auths token) s).1

-- A launch whose plugin is a server of the SDK: Auth with this token, then Capabilities.
abbrev pub served : Launch → Core → Text → Server → Launch
served env core token s = record env {
  auth = to_identity (handle core (auths token) s).0;
  caps = to_capabilities (handle core lists (introduced core token s)).0;
}

-- The system does its part: the token is made and written, the plugin runs, is reached, and is the
-- process at the other end.
pub record IsReached (env : Launch) : Type 0 where
  pub token : env.token ≡ true
  pub write_auth : env.write_auth ≡ true
  pub pid : ℕ
  pub spawn : env.spawn ≡ some pid
  pub peer : env.peer ≡ some pid
  pub conn : ℕ
  pub dial : env.dial ≡ some conn

-- A plugin of the SDK, started for this manager's next generation.
pub record IsOwn (m : Manager) (cfg : Config) : Type 0 where
  pub id : cfg.plugin_id ≡ m.cfg.plugin_id
  pub generation : cfg.generation_id ≡ inc64 m.state.generation_id

-- The first request, with the right token and no hook.
record IsOpened (core : Core) (s : Server) (x : Answer × Server) : Type 0 where
  answered : x.0 ≡ given (identified (identity_or s.cfg core.identity))
  used : x.1.auth_used ≡ true
  cfg : x.1.cfg ≡ s.cfg
  capabilities : x.1.capabilities ≡ s.capabilities

check_token-IsOpened :
    (core : Core) (s s' : Server)
    → s.auth_used ≡ false
    → s'.auth_used ≡ false
    → s'.cfg ≡ s.cfg
    → s'.capabilities ≡ s.capabilities
    → IsOpened core s (check_token core s.cfg.auth_token s')
unfolding check_token
check_token-IsOpened core s s' fresh fresh' c n =
    let same : text_eq s.cfg.auth_token s'.cfg.auth_token ≡ true =
      ap (λ x. text_eq s.cfg.auth_token x.auth_token) c ∙ text_eq_refl s.cfg.auth_token in
    rw (fresh', same)
      (record {
        answered = ap (λ x. given (identified (identity_or x core.identity))) c;
        used = refl;
        cfg = c;
        capabilities = n;
      })

after_hook-IsOpened :
    (core : Core) (hook : Option (Outcome (Unit {0}))) (s s' : Server)
    → hook ≡ none
    → s.auth_used ≡ false
    → s'.auth_used ≡ false
    → s'.cfg ≡ s.cfg
    → s'.capabilities ≡ s.capabilities
    → IsOpened core s (after_hook core s.cfg.auth_token hook s')
after_hook-IsOpened core hook s s' h fresh fresh' c n =
    rw h (check_token-IsOpened core s s' fresh fresh' c n)

handle-IsOpened :
    (core : Core) (s : Server)
    → core.auth_hook ≡ none
    → s.auth_used ≡ false
    → IsOpened core s (handle core (auths s.cfg.auth_token) s)
unfolding handle authenticate
handle-IsOpened core s h fresh =
    after_hook-IsOpened core core.auth_hook s
      (note_info (codes "plugin_auth_attempt") Method.auth (codes "plugin auth attempt received") s)
      h fresh fresh refl refl

handle-lists :
    (core : Core) (s : Server)
    → s.auth_used ≡ true
    → (handle core lists s).0
      ≡ given (
          listed_as (record { identity = identity_or s.cfg core.identity; names = s.capabilities }))
unfolding handle require_auth list_capabilities
handle-lists core s used = ground (arith, used)

own-identity :
    (m : Manager) (cfg : Config) (i : Option Identity)
    → i ≡ none
    → IsOwn m cfg
    → identity_or cfg i
      ≡ record { plugin_id = m.cfg.plugin_id; generation_id = inc64 m.state.generation_id }
own-identity m cfg i none_own own = rw none_own (ground (arith, own.id, own.generation))

-- A start of an open manager without a process or a connection succeeds against a plugin of the SDK that was given the
-- manager's id and next generation and the token, if the system does its part, the plugin has no hook
-- on Auth and no identity of its own, and it does not list the name that marks a failure among its
-- capabilities.
pub start_locked-served :
    (env : Launch) (m : Manager) (cfg : Config) (core : Core) (logger : Option PluginLogger)
    → m.closed ≡ false
    → m.cmd ≡ none
    → m.client ≡ none
    → IsReached env
    → IsOwn m cfg
    → core.auth_hook ≡ none
    → core.identity ≡ none
    → has_sentinel (detect_capabilities core) ≡ false
    → (start_locked (served env core cfg.auth_token (new_server cfg core logger)) m).0 ≡ ok tt
unfolding new_server
start_locked-served env m cfg core logger live idle free r own hook identity names =
    let s = new_server cfg core logger in
    let first = handle-IsOpened core s hook refl in
    let name = own-identity m cfg core.identity identity own in
    let second = handle-lists core (introduced core cfg.auth_token s) first.used in
    start_locked-succeeds (served env core cfg.auth_token s) m (detect_capabilities core) live idle
      free
      (record {
        token = r.token;
        write_auth = r.write_auth;
        pid = r.pid;
        spawn = r.spawn;
        peer = r.peer;
        conn = r.conn;
        dial = r.dial;
        auth = ap to_identity first.answered ∙ ap answer name;
        caps =
            ap to_capabilities second
            ∙ ap
                (λ (c : Config). answer (record {
                  identity = identity_or c core.identity;
                  names = (introduced core cfg.auth_token s).capabilities;
                }))
                first.cfg
            ∙ ap
                (λ (n : List Text).
                  answer (record { identity = identity_or cfg core.identity; names = n }))
                first.capabilities
            ∙ ap
                (λ (i : Identity).
                  answer (record { identity = i; names = detect_capabilities core }))
                name;
        no_sentinel = names;
      })
