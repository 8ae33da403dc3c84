-- ===== src/Host/Agreeing.antt =====
-- internal/kernel/host.go: RestartPlugin through the generic call.
use rpc_plugin_system.Prelude.{◌≡◌, refl, ap, Option, none, some, List, Text}
use rpc_plugin_system.Kernel.Types.{Result, ok, err, Manager}
use rpc_plugin_system.Kernel.Lifecycle.{restart}
use rpc_plugin_system.Kernel.Snapshot.{View, view}
use rpc_plugin_system.Host.Types.{
  Member, HostError, HostResult, done, failed, find_member, set_member,
}
use rpc_plugin_system.Host.Routing.{
  restarts, restarted, Exchange, respond, dispatch, route_to, call_request,
}
use rpc_plugin_system.Host.Direct.{state_of_response, restart_plugin}

-- A restart, and the state afterwards.
abbrev pub restarted_view : Result (Unit {0}) × Manager → HostResult View
restarted_view (ok _, m) = done (view m)
restarted_view (err e, m) = failed (HostError.manager_error e)

abbrev pub restart_found :
    Exchange → Text → List Member → Option Manager → HostResult View × List Member
restart_found env id ms none = (failed HostError.unknown_plugin_id, ms)
restart_found env id ms (some m) = (
  restarted_view (restart env.halt env.launch m),
  set_member id (restart env.halt env.launch m).1 ms,
)

respond-restart :
    (m : Manager) (x : Result (Unit {0}) × Manager)
    → (state_of_response (respond m restarts (λ u m'. restarted (view m')) x).0 ≡ restarted_view x)
      × ((respond m restarts (λ u m'. restarted (view m')) x).1 ≡ x.1)
respond-restart m (ok _, m') = (refl, refl)
respond-restart m (err e, m') = (refl, refl)

route_to-restart :
    (env : Exchange) (id : Text) (ms : List Member) (o : Option Manager)
    → (state_of_response (route_to env id restarts none ms o).0 ≡ (restart_found env id ms o).0)
      × ((route_to env id restarts none ms o).1 ≡ (restart_found env id ms o).1)
route_to-restart env id ms none = (refl, refl)
route_to-restart env id ms (some m) =
    let (v, s) = respond-restart m (restart env.halt env.launch m) in
    unfold dispatch in (v, ap (λ m'. set_member id m' ms) s)

-- RestartPlugin restarts the manager of its id and answers its state afterwards, or the error, and
-- never reports a response of the wrong type.
pub restart_plugin-found :
    (env : Exchange) (id : Text) (ms : List Member)
    → ((restart_plugin env id ms).0 ≡ (restart_found env id ms (find_member id ms)).0)
      × ((restart_plugin env id ms).1 ≡ (restart_found env id ms (find_member id ms)).1)
unfolding call_request restart_plugin
restart_plugin-found env id ms = route_to-restart env id ms (find_member id ms)
