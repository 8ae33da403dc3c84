-- ===== src/Plugin/Server.antt =====
-- pkg/plugin/plugin.go: the service behind the socket. A request is handled from end to end; the
-- locked sections of Auth and of requireAuth, which are all that the mutex guards, are each within
-- one request.
use rpc_plugin_system.Prelude.{
  ℕ, ◌+◌, Bool, true, false, not, ◌||◌, Option, none, some, List, [], ◌∷◌, ◌++◌, Text, codes,
  text_eq, if◌then◌else◌,
}
use rpc_plugin_system.EventLog.Types.{Event, empty_event}
use rpc_plugin_system.Kernel.Types.{Method}
use rpc_plugin_system.Kernel.Start.{Identity, Capabilities}
use rpc_plugin_system.Kernel.Requests.{HeartbeatResponse}
use rpc_plugin_system.Plugin.Config.{Config}
use rpc_plugin_system.Plugin.Logging.{PluginLogger, write_event}

-- What a method of the plugin's own code returns.
pub data Outcome {ℓ} (A : Type ℓ) : Type ℓ where
  returned : A → Outcome A
  raised : Text → Outcome A

-- The plugin's own code, as it answers one request: the optional interfaces are options.
pub record Core : Type 0 where
  pub listed : Option (List Text)  -- Capabilities
  pub auth_hook : Option (Outcome (Unit {0}))  -- OnAuthAttempt
  pub identity : Option Identity
  pub heartbeat : Outcome HeartbeatResponse
  pub shutdown : Outcome (Unit {0})
  pub echo : Option (Text → Outcome Text)
  pub sleep : Option (ℕ → Outcome (Unit {0}))
  pub crash : Option (ℕ → Outcome (Unit {0}))

-- `calls` are the methods of the plugin's own code that were called for a request, newest first, but
-- the hook, whose calls `hook_calls` counts, and Version and Identity, which only name the plugin; a
-- logger that is nil is `none`.
pub record Server : Type 0 where
  pub cfg : Config
  pub auth_used : Bool
  pub capabilities : List Text
  pub logger : Option PluginLogger
  pub calls : List Method
  pub hook_calls : ℕ

pub data Request : Type 0 where
  auths : Text → Request
  lists beats shuts : Request
  echoes : Text → Request
  sleeps : ℕ → Request
  crashes : ℕ → Request

pub data Response : Type 0 where
  identified : Identity → Response
  listed_as : Capabilities → Response
  beat : HeartbeatResponse → Response
  said : Text → Response
  empty : Response

pub data Failure : Type 0 where
  permission no_handler : Failure  -- os.ErrPermission, rpc.ErrShutdown
  own : Text → Failure

pub data Answer : Type 0 where
  given : Response → Answer
  failed : Failure → Answer

abbrev if_implements : {A : Type 0} → Option A → Text → List Text
if_implements none name = []
if_implements (some f) name = name ∷ []

abbrev detect_from : Core → Option (List Text) → List Text
detect_from core (some names) = names
detect_from core none =
    (codes "heartbeat" ∷ (codes "shutdown" ∷ []))
    ++ (if_implements core.echo (codes "echo")
        ++ (if_implements core.sleep (codes "sleep") ++ if_implements core.crash (codes "crash")))

unfoldable pub detect_capabilities : Core → List Text
detect_capabilities core = detect_from core core.listed

-- EqualToken
abbrev pub equal_token : Text → Text → Bool
equal_token a b = text_eq a b

abbrev pub log_with : Event → Option PluginLogger → Option PluginLogger
log_with e none = none
log_with e (some l) = some (write_event e l)

-- The names of the methods, behind ServiceName.
abbrev pub method_name : Method → Text
method_name Method.auth = codes "TestPlugin.Auth"
method_name Method.capabilities = codes "TestPlugin.Capabilities"
method_name Method.heartbeat = codes "TestPlugin.Heartbeat"
method_name Method.shutdown = codes "TestPlugin.Shutdown"
method_name Method.echo = codes "TestPlugin.Echo"
method_name Method.sleep = codes "TestPlugin.Sleep"
method_name Method.crash = codes "TestPlugin.Crash"

-- An event, without the fields Error and Details.
abbrev pub note : Text → Text → Method → Text → Text → Server → Server
note level name method message reason s = record s {
  logger =
      log_with
        (record empty_event {
          level = level;
          event = name;
          method = method_name method;
          message = message;
          reason = reason;
        })
        s.logger;
}

abbrev pub note_info : Text → Method → Text → Server → Server
note_info name method message s = note [] name method message [] s

abbrev pub note_warn : Text → Method → Text → Text → Server → Server
note_warn name method message reason s = note (codes "warn") name method message reason s

abbrev pub identity_or : Config → Option Identity → Identity
identity_or cfg (some i) = i
identity_or cfg none = record { plugin_id = cfg.plugin_id; generation_id = cfg.generation_id }

-- Lines 230 to 248, under the mutex.
unfoldable pub check_token : Core → Text → Server → Answer × Server
check_token core token s =
    if s.auth_used || not (equal_token token s.cfg.auth_token)
    then (
      failed permission,
      note_warn (codes "plugin_auth_rejected") Method.auth (codes "plugin auth token rejected")
          (codes "used or mismatched token") s,
    )
    else (
      given (identified (identity_or s.cfg core.identity)),
      note_info (codes "plugin_auth_accepted") Method.auth (codes "plugin auth accepted")
          (record s { auth_used = true }),
    )

abbrev pub hooked : Server → Server
hooked s = record s { hook_calls = s.hook_calls + 1 }

-- Lines 222 to 229.
abbrev pub after_hook : Core → Text → Option (Outcome (Unit {0})) → Server → Answer × Server
after_hook core token none s = check_token core token s
after_hook core token (some (returned _)) s = check_token core token (hooked s)
after_hook core token (some (raised e)) s = (
  failed (own e),
  note_warn (codes "plugin_auth_rejected") Method.auth (codes "plugin auth hook rejected request")
      [] (hooked s),
)

unfoldable pub authenticate : Core → Text → Server → Answer × Server
unfolding check_token
authenticate core token s =
    after_hook core token core.auth_hook
      (note_info (codes "plugin_auth_attempt") Method.auth (codes "plugin auth attempt received") s)

-- logRPC
abbrev pub log_rpc : Method → Answer → Server → Server
log_rpc method (given r) s =
    note_info (codes "plugin_request_handled") method (codes "plugin rpc handler completed") s
log_rpc method (failed e) s =
    note_warn (codes "plugin_request_failed") method (codes "plugin rpc handler failed") [] s

-- requireAuth, and the handler behind it
unfoldable pub require_auth : Method → (Server → Answer × Server) → Server → Answer × Server
require_auth method handler s = if s.auth_used then handler s else (
  failed permission,
  log_rpc method (failed permission) (
      note_warn (codes "plugin_auth_rejected") method (codes "plugin rpc rejected before auth")
        (codes "auth required") s),
)

abbrev pub answer_of : {A : Type 0} → (A → Response) → Outcome A → Answer
answer_of f (returned a) = given (f a)
answer_of f (raised e) = failed (own e)

-- A call of the plugin's own code, logged.
abbrev pub call_core : {A : Type 0} → Method → (A → Response) → Outcome A → Server → Answer × Server
call_core method f out s =
    (answer_of f out, log_rpc method (answer_of f out) (record s { calls = method ∷ s.calls }))

abbrev pub call_optional :
    {A : Type 0} → Method → (A → Response) → Option (Outcome A) → Server → Answer × Server
call_optional method f none s = (failed no_handler, log_rpc method (failed no_handler) s)
call_optional method f (some out) s = call_core method f out s

abbrev pub apply_to : {A B : Type 0} → A → Option (A → Outcome B) → Option (Outcome B)
apply_to a none = none
apply_to a (some f) = some (f a)

unfoldable pub list_capabilities : Core → Server → Answer × Server
list_capabilities core s = (
  given (listed_as (record { identity = identity_or s.cfg core.identity; names = s.capabilities })),
  note_info (codes "plugin_capabilities_reported") Method.capabilities
      (codes "plugin capabilities reported") s,
)

unfoldable pub handle : Core → Request → Server → Answer × Server
unfolding require_auth authenticate list_capabilities
handle core (auths token) s = authenticate core token s
handle core lists s = require_auth Method.capabilities (list_capabilities core) s
handle core beats s =
    require_auth Method.heartbeat (call_core Method.heartbeat beat core.heartbeat) s
handle core shuts s =
    require_auth Method.shutdown
      (λ x.
        call_core Method.shutdown (λ _. empty) core.shutdown
          (note_info (codes "plugin_shutdown_called") Method.shutdown
            (codes "plugin shutdown requested") x))
      s
handle core (echoes m) s =
    require_auth Method.echo (call_optional Method.echo said (apply_to m core.echo)) s
handle core (sleeps d) s =
    require_auth Method.sleep (call_optional Method.sleep (λ _. empty) (apply_to d core.sleep)) s
handle core (crashes c) s =
    require_auth Method.crash (call_optional Method.crash (λ _. empty) (apply_to c core.crash)) s

-- The server of ServeWithConfig, and the requests that arrive one after the other.
unfoldable pub new_server : Config → Core → Option PluginLogger → Server
unfolding detect_capabilities
new_server cfg core logger = record {
  cfg = cfg;
  auth_used = false;
  capabilities = detect_capabilities core;
  logger = logger;
  calls = [];
  hook_calls = 0;
}

unfoldable pub serve : List (Core × Request) → Server → List Answer × Server
unfolding handle
serve [] s = ([], s)
serve ((core, request) ∷ rest) s =
    let (a, s') = handle core request s in let (as', s'') = serve rest s' in (a ∷ as', s'')
