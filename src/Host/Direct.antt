-- ===== src/Host/Direct.antt =====
-- internal/kernel/host.go: Plugin, Echo, Heartbeat and RestartPlugin.
use rpc_plugin_system.Prelude.{Option, none, some, List, Text}
use rpc_plugin_system.Kernel.Types.{Result, ok, err, Manager}
use rpc_plugin_system.Kernel.Requests.{HeartbeatResponse, echo, heartbeat}
use rpc_plugin_system.Kernel.Snapshot.{View, view}
use rpc_plugin_system.Host.Types.{
  Member, HostError, HostResult, done, failed, find_member, set_member,
}
use rpc_plugin_system.Host.Routing.{
  restarts, Body, beat, said, restarted, RoutedResponse, Exchange, call_request,
}

abbrev view_found : Option Manager → HostResult View
view_found none = failed HostError.unknown_plugin_id
view_found (some m) = done (view m)

unfoldable pub plugin : Text → List Member → HostResult View
plugin id members = view_found (find_member id members)

abbrev pub to_host : {A : Type 0} → Result A → HostResult A
to_host (ok a) = done a
to_host (err e) = failed (HostError.manager_error e)

-- A method of the manager that the id stands for.
abbrev pub on_member :
    {A : Type 0}
    → Text
    → List Member
    → (Manager → Result A × Manager)
    → Option Manager
    → HostResult A × List Member
on_member id members method none = (failed HostError.unknown_plugin_id, members)
on_member id members method (some m) = (to_host (method m).0, set_member id (method m).1 members)

unfoldable pub host_echo : Exchange → Text → Text → List Member → HostResult Text × List Member
host_echo env id message members =
    on_member id members (λ m. echo (env.echo_reply message) env.between m) (find_member id members)

unfoldable pub host_heartbeat :
    Exchange → Text → List Member → HostResult HeartbeatResponse × List Member
host_heartbeat env id members =
    on_member id members (λ m. heartbeat env.beat_reply env.between env.later m)
      (find_member id members)

abbrev pub state_of_body : Body → HostResult View
state_of_body (restarted v) = done v
state_of_body (beat b) = failed HostError.type_mismatch
state_of_body (said t) = failed HostError.type_mismatch

abbrev pub state_of_response : HostResult RoutedResponse → HostResult View
state_of_response (failed e) = failed e
state_of_response (done r) = state_of_body r.body

unfoldable pub restart_plugin : Exchange → Text → List Member → HostResult View × List Member
restart_plugin env id members = (
  state_of_response (call_request env id restarts none members).0,
  (call_request env id restarts none members).1,
)
