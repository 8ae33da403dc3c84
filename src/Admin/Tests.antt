-- ===== src/Admin/Tests.antt =====
-- internal/adminrpc/adminrpc.go: concrete requests and runs of the socket.
use rpc_plugin_system.Prelude.{refl, true, false, some, [], ◌∷◌, ◌++◌, codes}
use rpc_plugin_system.Host.Tests.{exchange, two_members}
use rpc_plugin_system.Admin.Service.{echo_to, serve_admin}
use rpc_plugin_system.Admin.Serving.{connected, stopped, SocketSystem, Listening, serve}
use rpc_plugin_system.Admin.Checked.{Serves, serve_admin-Serves}
use rpc_plugin_system.Admin.Ended.{connections, Ends, serve-Ends}

serve_admin-Serves_example :
    Serves
      (echo_to (codes "work") (codes "hi"))
      (codes "echo")
      (some two_members)
      (serve_admin exchange (echo_to (codes "work") (codes "hi")) (some two_members))
serve_admin-Serves_example =
    serve_admin-Serves exchange (echo_to (codes "work") (codes "hi")) (some two_members)
      (codes "echo") refl

abbrev usual : SocketSystem
usual = record { cleared = true; binds = true; chmods = true; removed = true }

-- A socket of an earlier daemon stands at the path.
abbrev unbound : Listening
unbound = record { is_open = false; socket_present = true; served = 0 }

serve-Ends_example :
    Ends usual true true 2 unbound
      (serve usual true (connections 2 ++ stopped true ∷ (connected ∷ [])) unbound)
serve-Ends_example = serve-Ends usual true true 2 (connected ∷ []) unbound refl
