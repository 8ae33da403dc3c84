-- ===== src/Host/Routed.antt =====
-- internal/kernel/host.go, CallRequest: a routed call reaches the manager of its id and no other.
use rpc_plugin_system.Prelude.{
  ◌≡◌, ◌≢◌, inl, inr, refl, ap, true, false, Option, none, some, List, [], ◌∷◌, map, Text, text_eq,
  text_eq_iff, arith, Bool-cases,
}
use rpc_plugin_system.Kernel.Types.{Manager, inc64}
use rpc_plugin_system.Kernel.Lifecycle.Kept.{Kept}
use rpc_plugin_system.Kernel.Snapshot.{View}
use rpc_plugin_system.Host.Types.{
  Member, HostError, HostResult, done, failed, find_member, set_member,
}
use rpc_plugin_system.Host.Routing.{
  RoutedCall, restarted, RoutedResponse, Exchange, dispatch, route_to, call_request,
}

pub set_member-ids :
    (id : Text) (m : Manager) (xs : List Member)
    → map (λ x. x.id) (set_member id m xs) ≡ map (λ x. x.id) xs
set_member-ids id m [] = refl
set_member-ids id m (x ∷ xs) = elim (Bool-cases (text_eq x.id id)) [
  | inl h ↦ rw h refl
  | inr h ↦ rw h (ap (λ ys. x.id ∷ ys) (set_member-ids id m xs))
]

pub find_member-set_other :
    (id id' : Text) (m : Manager) (xs : List Member)
    → id' ≢ id
    → find_member id' (set_member id m xs) ≡ find_member id' xs
find_member-set_other id id' m [] n = refl
find_member-set_other id id' m (x ∷ xs) n = elim (Bool-cases (text_eq x.id id)) [
  | inl h ↦ ground (arith, text_eq_iff x.id id, text_eq_iff x.id id')
  | inr h ↦ ground (arith, find_member-set_other id id' m xs n)
]

find_member-set_member :
    (id : Text) (m m₀ : Manager) (xs : List Member)
    → find_member id xs ≡ some m₀
    → find_member id (set_member id m xs) ≡ some m
find_member-set_member id m m₀ [] h = ground arith
find_member-set_member id m m₀ (x ∷ xs) h = elim (Bool-cases (text_eq x.id id)) [
  | inl e ↦ ground arith
  | inr e ↦ ground (arith, find_member-set_member id m m₀ xs)
]

-- What the call makes of the manager that the id stands for.
abbrev pub Answered :
    Exchange
    → Text
    → RoutedCall
    → Option Text
    → List Member
    → Option Manager
    → HostResult RoutedResponse × List Member
    → Type 0
Answered env id c arg ms none x = x ≡ (failed HostError.unknown_plugin_id, ms)
Answered env id c arg ms (some m) x =
    (x.0 ≡ (dispatch env c arg m).0) × (find_member id x.1 ≡ some (dispatch env c arg m).1)

pub record IsRouted (env : Exchange) (target : Text) (c : RoutedCall) (arg : Option Text)
    (ms : List Member) (x : HostResult RoutedResponse × List Member) : Type 0 where
  pub ids : map (λ y. y.id) x.1 ≡ map (λ y. y.id) ms
  pub others : (id : Text) → id ≢ target → find_member id x.1 ≡ find_member id ms
  pub answered : Answered env target c arg ms (find_member target ms) x

route_to-IsRouted :
    (env : Exchange) (id : Text) (c : RoutedCall) (arg : Option Text) (ms : List Member)
    (o : Option Manager)
    → find_member id ms ≡ o
    → IsRouted env id c arg ms (route_to env id c arg ms o)
route_to-IsRouted env id c arg ms none h = record {
  ids = refl;
  others = λ i n. refl;
  answered = rw h refl;
}
route_to-IsRouted env id c arg ms (some m) h = record {
  ids = set_member-ids id (dispatch env c arg m).1 ms;
  others = λ i n. find_member-set_other id i (dispatch env c arg m).1 ms n;
  answered = rw h (refl, find_member-set_member id (dispatch env c arg m).1 m ms h);
}

-- A routed request keeps the ids and their order and every manager but that of its id; with an
-- unknown id it is refused and changes nothing, and otherwise its result and the new state of the
-- manager are those of the call on that manager alone.
pub call_request-IsRouted :
    (env : Exchange) (id : Text) (c : RoutedCall) (arg : Option Text) (ms : List Member)
    → IsRouted env id c arg ms (call_request env id c arg ms)
unfolding call_request
call_request-IsRouted env id c arg ms = route_to-IsRouted env id c arg ms (find_member id ms) refl

-- The answer of a routed restart.
abbrev pub Tells : HostResult RoutedResponse × Manager → Type 0
Tells (failed e, m) = m.state.healthy ≡ false
Tells (done r, m) =
    (v : View) × (r.body ≡ restarted v)
    × (v.state ≡ m.state)
    × (v.state.healthy ≡ true)
    × (v.state.generation_id ≡ inc64 r.route.generation_id)
