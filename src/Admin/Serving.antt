-- ===== src/Admin/Serving.antt =====
-- internal/adminrpc/adminrpc.go: serve, the loop around the listener; internal/runtime/runtime.go:
-- ListenUnix.
use rpc_plugin_system.Prelude.{ℕ, ◌+◌, Bool, true, false, not, ◌&&◌, List, [], ◌∷◌, if◌then◌else◌}

-- What listener.Accept gives; `stopped` is an error, with whether the context was done.
pub data Accept : Type 0 where
  connected : Accept
  stopped : Bool → Accept

pub data ServeResult : Type 0 where
  finished listen_failed register_failed accept_failed : ServeResult
  waiting : ServeResult  -- no Accept has come back yet

-- What the system answers; `cleared` and `removed` are whether os.Remove, before the socket is bound
-- and after the listener is closed, leaves the path free.
pub record SocketSystem : Type 0 where
  pub cleared : Bool
  pub binds : Bool
  pub chmods : Bool
  pub removed : Bool

pub record Listening : Type 0 where
  pub is_open : Bool
  pub socket_present : Bool
  pub served : ℕ  -- connections handed to the rpc server

-- listener.Close and os.Remove.
abbrev pub shut_down : SocketSystem → Listening → Listening
shut_down sys l = record l { is_open = false; socket_present = l.socket_present && not sys.removed }

-- ListenUnix, and whether there is a listener.
unfoldable pub listen_unix : SocketSystem → Listening → Bool × Listening
listen_unix sys l =
    let cleared : Listening = record l { socket_present = l.socket_present && not sys.cleared } in
    let bound : Listening = record l { is_open = true; socket_present = true } in
    if not sys.binds
    then (false, cleared)
    else if not sys.chmods
    then (false, shut_down sys bound)
    else (true, bound)

unfoldable pub accept_loop : SocketSystem → List Accept → Listening → ServeResult × Listening
accept_loop sys [] l = (waiting, l)
accept_loop sys (connected ∷ rest) l = accept_loop sys rest (record l { served = l.served + 1 })
accept_loop sys (stopped done ∷ rest) l =
    (if done then finished else accept_failed, shut_down sys l)

-- After ListenUnix, by whether registerService succeeds.
unfoldable pub after_listen :
    SocketSystem → Bool → List Accept → Bool × Listening → ServeResult × Listening
unfolding accept_loop
after_listen sys registers accepts (false, l) = (listen_failed, l)
after_listen sys registers accepts (true, l) =
    if registers then accept_loop sys accepts l else (register_failed, shut_down sys l)

unfoldable pub serve : SocketSystem → Bool → List Accept → Listening → ServeResult × Listening
unfolding listen_unix after_listen
serve sys registers accepts l = after_listen sys registers accepts (listen_unix sys l)
