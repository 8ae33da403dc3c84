-- ===== src/Host/Ready.antt =====
-- internal/kernel/host.go: managers that Close has not been called on, through every operation.
use rpc_plugin_system.Prelude.{
  ◌≡◌, refl, ◌∙◌, ap, ◌==◌, ◌||◌, not, ltb, ◌^◌, false, Bool-cases, inl, inr, Option, none, some,
  List, [], ◌∷◌, ◌++◌, Text, text_eq, arith,
}
use mathlib.Core.Path.{subst}
use rpc_plugin_system.Kernel.Types.{Error, Method, Reason, Result, ok, err, Manager}
use rpc_plugin_system.Kernel.Rpc.{Reply}
use rpc_plugin_system.Kernel.Start.{Launch, start_locked}
use rpc_plugin_system.Kernel.Stop.{Halt}
use rpc_plugin_system.Kernel.Requests.{HeartbeatResponse, snapshot, echo, heartbeat}
use rpc_plugin_system.Kernel.Lifecycle.{ticker_panics, kill, restart}
use rpc_plugin_system.Kernel.Lifecycle.Kept.{Kept, start_locked-Kept, stop_current-Kept}
use rpc_plugin_system.Kernel.Lifecycle.Closing.{close-Closed}
use rpc_plugin_system.Kernel.Lifecycle.History.{step, beats, echoes, restarts, step-Kept}
use rpc_plugin_system.Kernel.Frame.{Stays, start_locked-Stays}
use rpc_plugin_system.Kernel.Frame.Requests.{
  stop_current-Stays, restart-Stays, routed_call-Stays, heartbeat_from-Stays,
}
use rpc_plugin_system.Host.Types.{Member, Outside, find_member, set_member}
use rpc_plugin_system.Host.Operations.{
  with_manager, close_member, close_all, kill_all, monitor_panics, after_start, start_loop,
  start_all,
}
use rpc_plugin_system.Host.Lists.{All, All-append}
use rpc_plugin_system.Host.Building.{IsClosedMember}

-- Well formed, never closed, and with an interval for its monitor.
pub record IsReady (m : Manager) : Type 0 where
  pub kept : Kept m
  pub first : m.close_result ≡ none
  pub ticks : ticker_panics m ≡ false

abbrev pub Ready : Member → Type 0
Ready x = IsReady x.manager

-- What keeps the invariant, the remembered result and the interval.
Stays-IsReady : (m m' : Manager) → Kept m' → Stays m m' → IsReady m → IsReady m'
unfolding ticker_panics
Stays-IsReady m m' k h r = record {
  kept = k;
  first = ap (λ x. x.0) h ∙ r.first;
  ticks = ap (λ x. (x.1 == 0) || not (ltb x.1 (2 ^ 63))) h ∙ r.ticks;
}

pub start_locked-IsReady : (env : Launch) (m : Manager) → IsReady m → IsReady (start_locked env m).1
start_locked-IsReady env m r =
    Stays-IsReady m (start_locked env m).1 (start_locked-Kept env m r.kept)
      (start_locked-Stays env m) r

kill-IsReady : (env : Halt) (m : Manager) → IsReady m → IsReady (kill env m).1
unfolding kill
kill-IsReady env m r =
    Stays-IsReady m (kill env m).1 (stop_current-Kept env false Reason.kill_requested m r.kept)
      (stop_current-Stays env false Reason.kill_requested m) r

pub restart-IsReady :
    (halt : Halt) (env : Launch) (m : Manager) → IsReady m → IsReady (restart halt env m).1
unfolding step
restart-IsReady halt env m r =
    Stays-IsReady m (restart halt env m).1 (step-Kept m (restarts halt env) r.kept)
      (restart-Stays halt env m) r

pub echo-IsReady :
    (reply : Reply Text) (m : Manager) → IsReady m → IsReady (echo reply (λ x. x) m).1
unfolding step echo
echo-IsReady reply m r =
    Stays-IsReady m (echo reply (λ x. x) m).1 (step-Kept m (echoes reply) r.kept)
      (routed_call-Stays Method.echo reply (snapshot m) m) r

pub heartbeat-IsReady :
    (reply : Reply HeartbeatResponse) (m : Manager)
    → IsReady m
    → IsReady (heartbeat reply (λ x. x) (λ x. x) m).1
unfolding step heartbeat
heartbeat-IsReady reply m r =
    Stays-IsReady m (heartbeat reply (λ x. x) (λ x. x) m).1 (step-Kept m (beats reply) r.kept)
      (heartbeat_from-Stays reply (snapshot m) m) r

pub set_member-Ready :
    (id : Text) (m : Manager) (xs : List Member)
    → IsReady m
    → All Ready xs
    → All Ready (set_member id m xs)
set_member-Ready id m [] r h = tt
set_member-Ready id m (x ∷ xs) r (h, hs) = elim (Bool-cases (text_eq x.id id)) [
  | inl e ↦ rw e (r, hs)
  | inr e ↦ rw e (h, set_member-Ready id m xs r hs)
]

pub find_member-Ready :
    (id : Text) (m : Manager) (xs : List Member)
    → All Ready xs
    → find_member id xs ≡ some m
    → IsReady m
find_member-Ready id m [] h e = ground (arith, e)
find_member-Ready id m (x ∷ xs) (h, hs) e = elim (Bool-cases (text_eq x.id id)) [
  | inl t ↦ subst IsReady (same x.manager m (ground (arith, e, t))) h
  | inr t ↦ find_member-Ready id m xs hs (ground (arith, e, t))
]
  where
    same : (a b : Manager) → some a ≡ some b → a ≡ b
    same a b h = ground (arith, h)

kill_all-Ready : (env : Outside) (xs : List Member) → All Ready xs → All Ready (kill_all env xs)
unfolding kill_all
kill_all-Ready env [] h = tt
kill_all-Ready env (x ∷ xs) (h, hs) =
    (kill-IsReady (env.halt x.id) x.manager h, kill_all-Ready env xs hs)

module _ (env : Outside) where
  after_start-Ready :
      (started : List Member) (x : Member) (xs : List Member)
      (loop : List Member → Option Error × List Member) (r : Result (Unit {0}) × Manager)
      → All Ready started
      → All Ready xs
      → IsReady r.1
      → ((ys : List Member) → All Ready ys → All Ready (loop ys).1)
      → All Ready (after_start env started x xs loop r).1
  unfolding after_start
  after_start-Ready started x xs loop (err e, m) s h r rest =
      All-append Ready (kill_all env started) (with_manager x m ∷ xs) (kill_all-Ready env started s)
        (r, h)
  after_start-Ready started x xs loop (ok _, m) s h r rest =
      rest (started ++ with_manager x m ∷ [])
        (All-append Ready started (with_manager x m ∷ []) s (r, tt))

  start_loop-Ready :
      (started xs : List Member)
      → All Ready started
      → All Ready xs
      → All Ready (start_loop env started xs).1
  unfolding start_loop
  start_loop-Ready started [] s h = s
  start_loop-Ready started (x ∷ xs) s (h, hs) =
      after_start-Ready started x xs (λ ys. start_loop env ys xs)
        (start_locked (env.launch x.id) x.manager) s hs
        (start_locked-IsReady (env.launch x.id) x.manager h) (λ ys k. start_loop-Ready ys xs k hs)

  pub start_all-Ready : (xs : List Member) → All Ready xs → All Ready (start_all env xs).1
  unfolding start_all
  start_all-Ready xs h = start_loop-Ready [] xs tt h

  pub close_all-Closed : (xs : List Member) → All Ready xs → All IsClosedMember (close_all env xs).1
  unfolding close_all
  close_all-Closed [] h = tt
  close_all-Closed (x ∷ xs) (h, hs) = (
    (
      (close_member env x).0,
      close-Closed (env.halt x.id) (env.log_close_fails x.id) x.manager h.kept h.first,
    ),
    close_all-Closed xs hs,
  )

-- No monitor of the host panics.
pub monitor_panics-Ready : (xs : List Member) → All Ready xs → monitor_panics xs ≡ false
unfolding monitor_panics
monitor_panics-Ready [] h = refl
monitor_panics-Ready (x ∷ xs) (h, hs) = ground (arith, h.ticks, monitor_panics-Ready xs hs)
