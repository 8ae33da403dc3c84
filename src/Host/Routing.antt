-- ===== src/Host/Routing.antt =====
-- internal/kernel/host.go: State with the capability map, and the routing of calls.
use rpc_plugin_system.Prelude.{
  ℕ, Bool, Option, none, some, List, [], ◌∷◌, ◌++◌, map, Text, text_eq, text_leb, if◌then◌else◌,
}
use rpc_plugin_system.Kernel.Types.{Result, ok, err, Manager}
use rpc_plugin_system.Kernel.Rpc.{Reply}
use rpc_plugin_system.Kernel.Start.{Launch}
use rpc_plugin_system.Kernel.Stop.{Halt}
use rpc_plugin_system.Kernel.Requests.{HeartbeatResponse, echo, heartbeat}
use rpc_plugin_system.Kernel.Lifecycle.{restart}
use rpc_plugin_system.Kernel.Snapshot.{View, view, CoreState, core_state}
use rpc_plugin_system.Host.Types.{
  Member, HostError, HostResult, done, failed, find_member, set_member,
}

-- Without the mode, a constant.
pub record Route : Type 0 where
  pub plugin_id : Text
  pub capabilities : List Text
  pub healthy : Bool
  pub generation_id : ℕ

abbrev pub route_of : Manager → Route
route_of m = record {
  plugin_id = m.state.plugin_id;
  capabilities = m.state.capabilities;
  healthy = m.state.healthy;
  generation_id = m.state.generation_id;
}

-- CapabilityMap, with the keys in the order in which they came up.
abbrev pub CapabilityMap : Type 0
CapabilityMap = List (Text × List Text)

-- out.CapabilityMap[name] = append(out.CapabilityMap[name], id)
unfoldable pub append_at : Text → Text → CapabilityMap → CapabilityMap
append_at name id [] = (name, id ∷ []) ∷ []
append_at name id ((k, ids) ∷ rest) =
    if text_eq k name then (k, ids ++ id ∷ []) ∷ rest else (k, ids) ∷ append_at name id rest

unfoldable pub add_capabilities : Text → List Text → CapabilityMap → CapabilityMap
unfolding append_at
add_capabilities id [] out = out
add_capabilities id (name ∷ caps) out = add_capabilities id caps (append_at name id out)

unfoldable pub collect : List Member → CapabilityMap → CapabilityMap
unfolding add_capabilities
collect [] out = out
collect (x ∷ xs) out = collect xs (add_capabilities x.id x.manager.state.capabilities out)

abbrev pub insert_text : Text → List Text → List Text
insert_text x [] = x ∷ []
insert_text x (y ∷ ys) = if text_leb x y then x ∷ (y ∷ ys) else y ∷ insert_text x ys

abbrev pub sort_texts : List Text → List Text
sort_texts [] = []
sort_texts (x ∷ xs) = insert_text x (sort_texts xs)

pub record HostState : Type 0 where
  pub plugins : List View
  pub capability_map : CapabilityMap
  pub routes : List Route

unfoldable pub host_state : List Member → HostState
unfolding collect
host_state members = record {
  plugins = map (λ x. view x.manager) members;
  capability_map = map (λ (name, ids). (name, sort_texts ids)) (collect members []);
  routes = map (λ x. route_of x.manager) members;
}

-- CoreSnapshot
unfoldable pub core_snapshot : List Member → List CoreState
core_snapshot members = map (λ x. core_state x.manager) members

pub data RoutedCall : Type 0 where
  heartbeats echoes restarts : RoutedCall
  other : Text → RoutedCall

pub data Body : Type 0 where
  beat : HeartbeatResponse → Body
  said : Text → Body
  restarted : View → Body

pub record RoutedResponse : Type 0 where
  pub route : Route
  pub call : RoutedCall
  pub body : Body

-- What one request meets outside.
pub record Exchange : Type 0 where
  pub beat_reply : Reply HeartbeatResponse
  pub echo_reply : Text → Reply Text  -- to the message
  pub between : Manager → Manager
  pub later : Manager → Manager
  pub halt : Halt
  pub launch : Launch

abbrev pub respond :
    {A : Type 0}
    → Manager
    → RoutedCall
    → (A → Manager → Body)
    → Result A × Manager
    → HostResult RoutedResponse × Manager
respond m₀ c body (err e, m) = (failed (HostError.manager_error e), m)
respond m₀ c body (ok a, m) = (done (record { route = route_of m₀; call = c; body = body a m }), m)

-- `message, _ := req.Arg.(string)`; `none` is an Arg that is not a string.
abbrev pub message_of : Option Text → Text
message_of none = []
message_of (some message) = message

-- The switch of CallRequest, on the manager that the id stands for, with the Arg of the request.
unfoldable pub dispatch :
    Exchange → RoutedCall → Option Text → Manager → HostResult RoutedResponse × Manager
dispatch env RoutedCall.heartbeats arg m =
    respond m RoutedCall.heartbeats (λ out m'. beat out)
      (heartbeat env.beat_reply env.between env.later m)
dispatch env RoutedCall.echoes arg m =
    respond m RoutedCall.echoes (λ out m'. said out)
      (echo (env.echo_reply (message_of arg)) env.between m)
dispatch env RoutedCall.restarts arg m =
    respond m RoutedCall.restarts (λ out m'. restarted (view m')) (restart env.halt env.launch m)
dispatch env (RoutedCall.other name) arg m = (failed HostError.unsupported_call, m)

abbrev pub route_to :
    Exchange
    → Text
    → RoutedCall
    → Option Text
    → List Member
    → Option Manager
    → HostResult RoutedResponse × List Member
route_to env id c arg members none = (failed HostError.unknown_plugin_id, members)
route_to env id c arg members (some m) =
    ((dispatch env c arg m).0, set_member id (dispatch env c arg m).1 members)

unfoldable pub call_request :
    Exchange
    → Text
    → RoutedCall
    → Option Text
    → List Member
    → HostResult RoutedResponse × List Member
unfolding dispatch
call_request env id c arg members = route_to env id c arg members (find_member id members)
