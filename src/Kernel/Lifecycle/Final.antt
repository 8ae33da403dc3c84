-- ===== src/Kernel/Lifecycle/Final.antt =====
-- internal/kernel/manager.go: whole histories of one manager after its first Close.
use rpc_plugin_system.Prelude.{◌≡◌, refl, ap, ◌∙◌, Bool, true, none, List, [], ◌∷◌}
use rpc_plugin_system.Kernel.Types.{Result, Manager}
use rpc_plugin_system.Kernel.Rpc.{timeout}
use rpc_plugin_system.Kernel.Stop.{Halt}
use rpc_plugin_system.Kernel.Start.{Launch}
use rpc_plugin_system.Kernel.Lifecycle.{close}
use rpc_plugin_system.Kernel.Lifecycle.Kept.{Kept}
use rpc_plugin_system.Kernel.Lifecycle.Closing.{Closed, close-Closed, Closed-final}
use rpc_plugin_system.Kernel.Lifecycle.History.{
  Op, starts, kills, restarts, closes, beats, echoes, sleeps, crashes, did, step, run,
}

-- One operation leaves a closed manager as it is and publishes nothing.
step-final :
    (halt : Halt) (launch : Launch) (r : Result (Unit {0})) (m : Manager) (op : Op)
    → Closed r m
    → step m op ≡ (m, 0)
unfolding step
step-final halt launch r m (starts env) c =
    ap (λ x. (x.1, did x.0))
      (Closed-final r m halt true env timeout timeout timeout (λ x. x) (λ x. x) c).1
step-final halt launch r m (kills h) c =
    ap (λ x. (x.1, 0))
      (Closed-final r m h true launch timeout timeout timeout (λ x. x) (λ x. x) c).2
step-final halt launch r m (restarts h env) c =
    ap (λ x. (x.1, did x.0))
      (Closed-final r m h true env timeout timeout timeout (λ x. x) (λ x. x) c).3
step-final halt launch r m (closes h b) c =
    ap (λ x. (x.1, 0)) (Closed-final r m h b launch timeout timeout timeout (λ x. x) (λ x. x) c).0
step-final halt launch r m (beats reply) c =
    ap (λ x. (x.1, 0))
      (Closed-final r m halt true launch reply timeout timeout (λ x. x) (λ x. x) c).4
step-final halt launch r m (echoes reply) c =
    ap (λ x. (x.1, 0))
      (Closed-final r m halt true launch timeout reply timeout (λ x. x) (λ x. x) c).5
step-final halt launch r m (sleeps reply) c =
    ap (λ x. (x.1, 0))
      (Closed-final r m halt true launch timeout timeout reply (λ x. x) (λ x. x) c).6
step-final halt launch r m (crashes reply) c =
    ap (λ x. (x.1, 0))
      (Closed-final r m halt true launch timeout timeout reply (λ x. x) (λ x. x) c).7

run-final :
    (halt : Halt) (launch : Launch) (r : Result (Unit {0})) (m : Manager) (ops : List Op)
    → Closed r m
    → run m ops ≡ (m, 0)
unfolding run
run-final halt launch r m [] c = refl
run-final halt launch r m (op ∷ ops) c =
    simp (step-final halt launch r m op c, run-final halt launch r m ops c)

-- Close is final. After the first Close of a well-formed manager, whatever the plugin and the system
-- answered to it, no history of starts, kills, restarts, closes, heartbeats, echoes, sleeps and
-- crashes changes the manager or publishes a generation, and a Close after that history returns the
-- result of the first one.
pub run-close :
    (halt again : Halt) (launch : Launch) (log_fails fails : Bool) (m : Manager) (ops : List Op)
    → Kept m
    → m.close_result ≡ none
    → (run (close halt log_fails m).1 ops ≡ ((close halt log_fails m).1, 0))
      × (close again fails (run (close halt log_fails m).1 ops).0 ≡ close halt log_fails m)
run-close halt again launch log_fails fails m ops k first =
    let c = close-Closed halt log_fails m k first in
    let e = run-final halt launch (close halt log_fails m).0 (close halt log_fails m).1 ops c in
    (
      e,
      ap (λ x. close again fails x.0) e
          ∙ (Closed-final (close halt log_fails m).0 (close halt log_fails m).1 again fails launch
              timeout timeout timeout (λ x. x) (λ x. x) c).0,
    )
