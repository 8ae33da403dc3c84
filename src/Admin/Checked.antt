-- ===== src/Admin/Checked.antt =====
-- internal/adminrpc/adminrpc.go: the guards of the methods, and what they leave alone.
use rpc_plugin_system.Prelude.{
  ◌≡◌, ◌≢◌, refl, Bool, true, false, Option, none, some, List, map, Text, text_eq, text_eq_iff,
  arith, Bool-cases, inl, inr,
}
use rpc_plugin_system.Kernel.Types.{Result, Manager}
use rpc_plugin_system.Host.Types.{Member, find_member, HostResult, done, failed}
use rpc_plugin_system.Host.Build.{validate_plugin_id}
use rpc_plugin_system.Kernel.Requests.{echo, heartbeat}
use rpc_plugin_system.Host.Direct.{plugin, on_member, host_echo, host_heartbeat, restart_plugin}
use rpc_plugin_system.Host.Routing.{RoutedCall, Exchange}
use rpc_plugin_system.Host.Routed.{set_member-ids, find_member-set_other, call_request-IsRouted}
use rpc_plugin_system.Admin.Service.{
  AdminRequest, statuses, plugin_list, capability_list, route_list, one_plugin, echo_to, beat_to,
  restart_of, AdminResponse, state, said, beat, AdminResult, host_required, bad_plugin_id, to_admin,
  admitted, with_id, serve_host, serve_admin,
}

-- The plugin id that a request carries, if its type has one.
abbrev pub named : AdminRequest → Option Text
named (one_plugin id) = some id
named (echo_to id message) = some id
named (beat_to id) = some id
named (restart_of id) = some id
named _ = none

abbrev pub is_admissible : Option Text → Bool
is_admissible none = true
is_admissible (some id) = validate_plugin_id id

abbrev pub is_for : Text → Option Text → Bool
is_for i none = false
is_for i (some id) = text_eq i id

-- The same ids in the same order, and the same manager of `i`.
pub record Keeps (i : Text) (ms xs : List Member) : Type 0 where
  pub ids : map (λ y. y.id) xs ≡ map (λ y. y.id) ms
  pub manager : find_member i xs ≡ find_member i ms

Keeps-refl : (i : Text) (ms : List Member) → Keeps i ms ms
Keeps-refl i ms = record { ids = refl; manager = refl }

other_id : (i id : Text) → text_eq i id ≡ false → i ≢ id
other_id i id h e = ground (arith, text_eq_iff i id)

on_member-Keeps :
    {A : Type 0} (i id : Text) (ms : List Member) (f : Manager → Result A × Manager)
    (o : Option Manager)
    → text_eq i id ≡ false
    → Keeps i ms (on_member id ms f o).1
on_member-Keeps i id ms f none n = Keeps-refl i ms
on_member-Keeps i id ms f (some m) n = record {
  ids = set_member-ids id (f m).1 ms;
  manager = find_member-set_other id i (f m).1 ms (other_id i id n);
}

restart_plugin-Keeps :
    (env : Exchange) (i id : Text) (ms : List Member)
    → text_eq i id ≡ false
    → Keeps i ms (restart_plugin env id ms).1
unfolding restart_plugin
restart_plugin-Keeps env i id ms n =
    let r = call_request-IsRouted env id RoutedCall.restarts none ms in
    record { ids = r.ids; manager = r.others i (other_id i id n) }

-- By the test of the request: a refused one is answered so and changes nothing.
abbrev pub Admits : Bool → Text → List Member → AdminResult × List Member → Type 0
Admits false i ms x = x ≡ (bad_plugin_id, ms)
Admits true i ms x = (x.0 ≢ bad_plugin_id) × Keeps i ms x.1

to_admin-admitted :
    {A : Type 0} (f : A → AdminResponse) (r : HostResult A) → to_admin f r ≢ bad_plugin_id
to_admin-admitted f (done a) e = ground arith
to_admin-admitted f (failed x) e = ground arith

with_id-Admits :
    (i id : Text) (ms : List Member) (method : List Member → AdminResult × List Member)
    → (method ms).0 ≢ bad_plugin_id
    → Keeps i ms (method ms).1
    → Admits (validate_plugin_id id) i ms (with_id id method ms)
with_id-Admits i id ms method n k = elim (Bool-cases (validate_plugin_id id)) [
  | inl h ↦ rw h (n, k)
  | inr h ↦ rw h refl
]

serve_host-Admits :
    (env : Exchange) (r : AdminRequest) (ms : List Member) (i : Text)
    → is_for i (named r) ≡ false
    → Admits (is_admissible (named r)) i ms (serve_host env r ms)
unfolding serve_host host_echo host_heartbeat
serve_host-Admits env statuses ms i n = ((λ e. ground arith), Keeps-refl i ms)
serve_host-Admits env plugin_list ms i n = ((λ e. ground arith), Keeps-refl i ms)
serve_host-Admits env capability_list ms i n = ((λ e. ground arith), Keeps-refl i ms)
serve_host-Admits env route_list ms i n = ((λ e. ground arith), Keeps-refl i ms)
serve_host-Admits env (one_plugin id) ms i n =
    with_id-Admits i id ms (λ xs. (to_admin state (plugin id xs), xs))
      (to_admin-admitted state (plugin id ms)) (Keeps-refl i ms)
serve_host-Admits env (echo_to id message) ms i n =
    with_id-Admits i id ms (λ xs. admitted said (host_echo env id message xs))
      (to_admin-admitted said (host_echo env id message ms).0)
      (on_member-Keeps i id ms (λ m. echo (env.echo_reply message) env.between m)
        (find_member id ms) n)
serve_host-Admits env (beat_to id) ms i n =
    with_id-Admits i id ms (λ xs. admitted beat (host_heartbeat env id xs))
      (to_admin-admitted beat (host_heartbeat env id ms).0)
      (on_member-Keeps i id ms (λ m. heartbeat env.beat_reply env.between env.later m)
        (find_member id ms) n)
serve_host-Admits env (restart_of id) ms i n =
    with_id-Admits i id ms (λ xs. admitted state (restart_plugin env id xs))
      (to_admin-admitted state (restart_plugin env id ms).0) (restart_plugin-Keeps env i id ms n)

-- What a service makes of a request, by the host it is given.
abbrev pub Serves :
    AdminRequest → Text → Option (List Member) → AdminResult × Option (List Member) → Type 0
Serves r i none x = x ≡ (host_required, none)
Serves r i (some ms) x =
    (y : AdminResult × List Member) × (x ≡ (y.0, some y.1))
    × Admits (is_admissible (named r)) i ms y

-- For every request and every id other than the one it is for: without a host the request is refused
-- as such; with a host and an invalid plugin id it is refused and changes nothing; otherwise it is not
-- refused for its id, keeps the ids of the host and their order, and the manager of the other id.
pub serve_admin-Serves :
    (env : Exchange) (r : AdminRequest) (host : Option (List Member)) (i : Text)
    → is_for i (named r) ≡ false
    → Serves r i host (serve_admin env r host)
unfolding serve_admin
serve_admin-Serves env r none i n = refl
serve_admin-Serves env r (some ms) i n = (serve_host env r ms, refl, serve_host-Admits env r ms i n)
