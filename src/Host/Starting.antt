-- ===== src/Host/Starting.antt =====
-- internal/kernel/host.go, StartAll: all plugins serve, or none that it started does.
use rpc_plugin_system.Prelude.{
  ℕ, ◌≡◌, ◌⊎◌, inl, inr, refl, ap, true, false, Option, none, some, List, [], ◌∷◌, ◌++◌, arith,
}
use mathlib.Core.Path.{subst}
use mathlib.Core.List.{append-nil, append_assoc}
use rpc_plugin_system.Kernel.Types.{Error, Reason, Result, ok, err, Manager, inc64}
use rpc_plugin_system.Kernel.Start.{Launch}
use rpc_plugin_system.Kernel.Start.Total.{Fate, start_locked-Fate}
use rpc_plugin_system.Kernel.Stop.Detach.{Stops, stop_current-Stops}
use rpc_plugin_system.Kernel.Lifecycle.{kill}
use rpc_plugin_system.Kernel.Lifecycle.Kept.{Kept, start_locked-Kept, stop_current-Kept}
use rpc_plugin_system.Host.Types.{Member, Outside}
use rpc_plugin_system.Host.Operations.{with_manager, kill_all, after_start, start_loop, start_all}
use rpc_plugin_system.Host.Lists.{All}

-- Two lists, member by member.
abbrev pub Each : (Member → Member → Type 0) → List Member → List Member → Type 0
Each R [] [] = Unit {0}
Each R (x ∷ xs) (y ∷ ys) = R x y × Each R xs ys
Each R [] (y ∷ ys) = ⊥
Each R (x ∷ xs) [] = ⊥

Each-append :
    (R : Member → Member → Type 0) (xs ys xs' ys' : List Member)
    → Each R xs ys
    → Each R xs' ys'
    → Each R (xs ++ xs') (ys ++ ys')
Each-append R [] [] xs' ys' h k = k
Each-append R [] (y ∷ ys) xs' ys' h k = elim h [ ]
Each-append R (x ∷ xs) [] xs' ys' h k = elim h [ ]
Each-append R (x ∷ xs) (y ∷ ys) xs' ys' (h, hs) k = (h, Each-append R xs ys xs' ys' hs k)

-- The member serves the next generation.
pub record Serves (x y : Member) : Type 0 where
  pub id : y.id ≡ x.id
  pub healthy : y.manager.state.healthy ≡ true
  pub connected : (c : ℕ) × (y.manager.client ≡ some c)
  pub generation : y.manager.state.generation_id ≡ inc64 x.manager.state.generation_id
  pub still_open : y.manager.closed ≡ false
  pub kept : Kept y.manager

-- No process is held, no connection is open, and the manager takes part in no health.
pub record Rests (x y : Member) : Type 0 where
  pub id : y.id ≡ x.id
  pub cmd : y.manager.cmd ≡ none
  pub client : y.manager.client ≡ none
  pub conns : y.manager.world.conns ≡ []
  pub unhealthy : y.manager.state.healthy ≡ false
  pub kept : Kept y.manager

abbrev pub RestsOrSame : Member → Member → Type 0
RestsOrSame x y = (y ≡ x) ⊎ Rests x y

abbrev pub StartsAll : List Member → Option Error × List Member → Type 0
StartsAll xs (none, ys) = Each Serves xs ys
StartsAll xs (some e, ys) = Each RestsOrSame xs ys

abbrev KeptMember : Member → Type 0
KeptMember x = Kept x.manager

Each-same : (xs : List Member) → Each RestsOrSame xs xs
Each-same [] = tt
Each-same (x ∷ xs) = (inl refl, Each-same xs)

Stops-Rests :
    (x y : Member) (orphans : List ℕ) (r : Result (Unit {0}) × Manager)
    → Serves x y
    → Kept r.1
    → Stops false y.manager orphans r
    → Rests x (with_manager y r.1)
Stops-Rests x y orphans (ok _, m) s k (d, _, conns) = record {
  id = s.id;
  cmd = d.cmd;
  client = d.client;
  conns = conns;
  unhealthy = d.unhealthy;
  kept = k;
}
Stops-Rests x y orphans (err _, m) s k (inl (shut, _)) = ground (arith, s.still_open, shut)
Stops-Rests x y orphans (err _, m) s k (inr (d, _, conns)) = record {
  id = s.id;
  cmd = d.cmd;
  client = d.client;
  conns = conns;
  unhealthy = d.unhealthy;
  kept = k;
}

kill_all-Rests :
    (env : Outside) (xs ys : List Member)
    → Each Serves xs ys
    → Each RestsOrSame xs (kill_all env ys)
unfolding kill_all kill
kill_all-Rests env [] [] h = tt
kill_all-Rests env [] (y ∷ ys) h = elim h [ ]
kill_all-Rests env (x ∷ xs) [] h = elim h [ ]
kill_all-Rests env (x ∷ xs) (y ∷ ys) (h, hs) = (
  inr (
      Stops-Rests x y h.kept.orphans _ h
        (stop_current-Kept (env.halt y.id) false Reason.kill_requested y.manager h.kept)
        (stop_current-Stops (env.halt y.id) false Reason.kill_requested y.manager h.kept.orphans
          h.kept.well h.kept.children)),
  kill_all-Rests env xs ys hs,
)

Fate-Serves :
    (env : Launch) (x : Member) (orphans : List ℕ) (u : Unit {0}) (m : Manager)
    → Kept m
    → Fate env x.manager orphans (ok u, m)
    → Serves x (with_manager x m)
Fate-Serves env x orphans u m k f = record {
  id = refl;
  healthy = f.healthy;
  connected = f.connected;
  generation = f.claimed;
  still_open = f.still_open;
  kept = k;
}

Fate-Rests :
    (env : Launch) (x : Member) (orphans : List ℕ) (e : Error) (m : Manager)
    → Kept m
    → Fate env x.manager orphans (err e, m)
    → RestsOrSame x (with_manager x m)
Fate-Rests env x orphans e m k (inl (same, _)) = inl (ap (with_manager x) same)
Fate-Rests env x orphans e m k (inr r) = inr (record {
  id = refl;
  cmd = r.cmd;
  client = r.client;
  conns = r.conns;
  unhealthy = ap (λ s. s.healthy) r.state;
  kept = k;
})

module _ (env : Outside) where
  after_start-StartsAll :
      (before started : List Member) (x : Member) (xs : List Member)
      (loop : List Member → Option Error × List Member) (r : Result (Unit {0}) × Manager)
      → Each Serves before started
      → Kept r.1
      → (orphans : List ℕ) → Fate (env.launch x.id) x.manager orphans r
      → ((started' : List Member)
          → Each Serves (before ++ x ∷ []) started'
          → StartsAll ((before ++ x ∷ []) ++ xs) (loop started'))
      → StartsAll (before ++ x ∷ xs) (after_start env started x xs loop r)
  unfolding after_start
  after_start-StartsAll before started x xs loop (err e, m) s k orphans f rest =
      Each-append RestsOrSame before (kill_all env started) (x ∷ xs) (with_manager x m ∷ xs)
        (kill_all-Rests env before started s)
        (Fate-Rests (env.launch x.id) x orphans e m k f, Each-same xs)
  after_start-StartsAll before started x xs loop (ok u, m) s k orphans f rest =
      subst (λ zs. StartsAll zs (loop (started ++ with_manager x m ∷ [])))
        (append_assoc before (x ∷ []) xs)
        (rest (started ++ with_manager x m ∷ []) (
          Each-append Serves before started (x ∷ []) (with_manager x m ∷ []) s
            (Fate-Serves (env.launch x.id) x orphans u m k f, tt)))

  start_loop-StartsAll :
      (before started xs : List Member)
      → Each Serves before started
      → All KeptMember xs
      → StartsAll (before ++ xs) (start_loop env started xs)
  unfolding start_loop
  start_loop-StartsAll before started [] s k = rw (append-nil before) s
  start_loop-StartsAll before started (x ∷ xs) s (k, ks) =
      after_start-StartsAll before started x xs _ _ s
        (start_locked-Kept (env.launch x.id) x.manager k) k.orphans
        (start_locked-Fate (env.launch x.id) x.manager k.orphans k.well k.children)
        (λ started' h. start_loop-StartsAll (before ++ x ∷ []) started' xs h ks)

  -- StartAll over well-formed managers, whatever the plugins and the system answer: it succeeds, and
  -- then every member is open, connected and healthy under its next generation; or it fails, and
  -- then every member is either exactly as it was before or holds no process and no connection and
  -- is not healthy, so that nothing that StartAll connected stays connected. Every manager that was
  -- touched is well formed.
  pub start_all-StartsAll : (xs : List Member) → All KeptMember xs → StartsAll xs (start_all env xs)
  unfolding start_all
  start_all-StartsAll xs k = start_loop-StartsAll [] [] xs tt k
