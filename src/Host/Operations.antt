-- ===== src/Host/Operations.antt =====
-- internal/kernel/host.go: Close, StartAll and MonitorLoop.
use rpc_plugin_system.Prelude.{Bool, false, ◌||◌, Option, none, some, List, [], ◌∷◌, ◌++◌}
use rpc_plugin_system.Kernel.Types.{Error, Result, ok, err, Manager}
use rpc_plugin_system.Kernel.Start.{start_locked}
use rpc_plugin_system.Kernel.Lifecycle.{ticker_panics, kill, close}
use rpc_plugin_system.Host.Types.{Member, Outside}

abbrev pub with_manager : Member → Manager → Member
with_manager x m = record { id = x.id; manager = m }

-- The first error wins.
abbrev pub first_error : Result (Unit {0}) → Option Error → Option Error
first_error (ok _) later = later
first_error (err e) later = some e

abbrev pub close_member : Outside → Member → Result (Unit {0}) × Manager
close_member env x = close (env.halt x.id) (env.log_close_fails x.id) x.manager

-- Host.Close, and the clean-up of NewHost
unfoldable pub close_all : Outside → List Member → Option Error × List Member
close_all env [] = (none, [])
close_all env (x ∷ xs) =
    let (e, ys) = close_all env xs in
    (first_error (close_member env x).0 e, with_manager x (close_member env x).1 ∷ ys)

-- Kill of each member, errors dropped.
unfoldable pub kill_all : Outside → List Member → List Member
kill_all env [] = []
kill_all env (x ∷ xs) = with_manager x (kill (env.halt x.id) x.manager).1 ∷ kill_all env xs

-- One round of the loop of StartAll, by the result of Start: the members started so far, the
-- current one, those to come, and the loop on them.
unfoldable pub after_start :
    Outside
    → List Member
    → Member
    → List Member
    → (List Member → Option Error × List Member)
    → Result (Unit {0}) × Manager
    → Option Error × List Member
unfolding kill_all
after_start env started x xs loop (err e, m) =
    (some e, kill_all env started ++ with_manager x m ∷ xs)
after_start env started x xs loop (ok _, m) = loop (started ++ with_manager x m ∷ [])

unfoldable pub start_loop : Outside → List Member → List Member → Option Error × List Member
unfolding after_start
start_loop env started [] = (none, started)
start_loop env started (x ∷ xs) =
    after_start env started x xs (λ s. start_loop env s xs)
      (start_locked (env.launch x.id) x.manager)

unfoldable pub start_all : Outside → List Member → Option Error × List Member
start_all env members = start_loop env [] members

-- Host.MonitorLoop: whether one of the loops that it starts panics, which ends the process.
unfoldable pub monitor_panics : List Member → Bool
monitor_panics [] = false
monitor_panics (x ∷ xs) = ticker_panics x.manager || monitor_panics xs
