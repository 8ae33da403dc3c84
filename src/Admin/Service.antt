-- ===== src/Admin/Service.antt =====
-- internal/adminrpc/adminrpc.go: the methods of Service. A nil host is `none`.
use rpc_plugin_system.Prelude.{Option, none, some, List, Text, if◌then◌else◌}
use rpc_plugin_system.Kernel.Requests.{HeartbeatResponse}
use rpc_plugin_system.Kernel.Snapshot.{View}
use rpc_plugin_system.Host.Types.{Member, HostError, HostResult, done, failed}
use rpc_plugin_system.Host.Build.{validate_plugin_id}
use rpc_plugin_system.Host.Routing.{HostState, CapabilityMap, Route, host_state, Exchange}
use rpc_plugin_system.Host.Direct.{plugin, host_echo, host_heartbeat, restart_plugin}

pub data AdminRequest : Type 0 where
  statuses plugin_list capability_list route_list : AdminRequest
  one_plugin beat_to restart_of : Text → AdminRequest
  echo_to : Text → Text → AdminRequest

pub data AdminResponse : Type 0 where
  whole : HostState → AdminResponse
  capabilities : CapabilityMap → AdminResponse
  routes : List Route → AdminResponse
  state : View → AdminResponse
  said : Text → AdminResponse
  beat : HeartbeatResponse → AdminResponse

pub data AdminResult : Type 0 where
  given : AdminResponse → AdminResult
  host_required bad_plugin_id : AdminResult
  host_error : HostError → AdminResult

abbrev pub to_admin : {A : Type 0} → (A → AdminResponse) → HostResult A → AdminResult
to_admin f (done a) = given (f a)
to_admin f (failed e) = host_error e

-- The check that stands before every method with an id.
abbrev pub with_id :
    Text → (List Member → AdminResult × List Member) → List Member → AdminResult × List Member
with_id id method members =
    if validate_plugin_id id then method members else (bad_plugin_id, members)

abbrev pub admitted :
    {A : Type 0} → (A → AdminResponse) → HostResult A × List Member → AdminResult × List Member
admitted f (r, members) = (to_admin f r, members)

-- The methods over a host.
unfoldable pub serve_host : Exchange → AdminRequest → List Member → AdminResult × List Member
serve_host env statuses members = (given (whole (host_state members)), members)
serve_host env plugin_list members = (given (whole (host_state members)), members)
serve_host env capability_list members =
    (given (capabilities (host_state members).capability_map), members)
serve_host env route_list members = (given (routes (host_state members).routes), members)
serve_host env (one_plugin id) members =
    with_id id (λ ms. (to_admin state (plugin id ms), ms)) members
serve_host env (echo_to id message) members =
    with_id id (λ ms. admitted said (host_echo env id message ms)) members
serve_host env (beat_to id) members =
    with_id id (λ ms. admitted beat (host_heartbeat env id ms)) members
serve_host env (restart_of id) members =
    with_id id (λ ms. admitted state (restart_plugin env id ms)) members

unfoldable pub serve_admin :
    Exchange → AdminRequest → Option (List Member) → AdminResult × Option (List Member)
unfolding serve_host
serve_admin env r none = (host_required, none)
serve_admin env r (some members) = ((serve_host env r members).0, some (serve_host env r members).1)
