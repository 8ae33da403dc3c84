-- ===== src/Kernel/Requests/Fence.antt =====
-- internal/kernel/manager.go, Heartbeat, Echo and call: replies that arrive late. `between` and
-- `later` are arbitrary, so these hold whatever other goroutines do while a request waits.
use rpc_plugin_system.Prelude.{
  ℕ, ◌≡◌, ◌≢◌, inl, inr, refl, sym, ap, ◌∙◌, Bool, true, false, some, Text, arith, opt_eq_iff,
  Bool-cases,
}
use mathlib.Core.Path.{subst₂}
use rpc_plugin_system.Kernel.Types.{Method, Result, ok, err, Manager}
use rpc_plugin_system.Kernel.Rpc.{
  Reply, answer, failure, timeout, is_stale, call_started, call_done, call,
}
use rpc_plugin_system.Kernel.Rpc.Fence.{IsCurrent, is_stale-IsCurrent}
use rpc_plugin_system.Kernel.Requests.{
  HeartbeatResponse, Snapshot, snapshot, is_healthy, heartbeat_is_stale, commit_heartbeat,
  log_health, after_heartbeat, heartbeat_from, heartbeat, routed_call, echo,
}

snapshot-IsCurrent :
    (m : Manager) (s : Snapshot) → snapshot m ≡ ok s → IsCurrent s.client s.generation s.epoch m
unfolding snapshot
snapshot-IsCurrent m s h = ground arith

heartbeat_stale_IsCurrent :
    (s : Snapshot) (m : Manager)
    → heartbeat_is_stale s m ≡ false
    → IsCurrent s.client s.generation s.epoch m
unfolding heartbeat_is_stale
heartbeat_stale_IsCurrent s m h = ground (arith, opt_eq_iff m.client (some s.client))

healthy-log_health :
    (s : Snapshot) (was now : Bool) (m : Manager) → (log_health s was now m).state ≡ m.state
unfolding log_health
healthy-log_health s true true m = refl
healthy-log_health s false true m = refl
healthy-log_health s was false m = refl

-- The second locked section, over the manager that it finds.
commit_heartbeat-IsCurrent :
    (s : Snapshot) (out got : HeartbeatResponse) (m : Manager)
    → (commit_heartbeat s got m).0 ≡ ok out
    → IsCurrent s.client s.generation s.epoch m
      × (got ≡ out)
      × ((commit_heartbeat s got m).1.state ≡ record m.state { healthy = is_healthy got.status })
unfolding commit_heartbeat
commit_heartbeat-IsCurrent s out got m h = elim (Bool-cases (heartbeat_is_stale s m)) [
  | inl stale ↦ cc (rw stale at h)
  | inr fresh ↦ (
    heartbeat_stale_IsCurrent s m fresh,
    cc (rw fresh at h),
    rw fresh (healthy-log_health s _ _ _),
  )
]

call_done-answered :
    {A : Type 0} (c generation epoch : ℕ) (method : Method) (pid : ℕ) (reply : Reply A)
    (m : Manager) (a : A)
    → (call_done c generation epoch method pid reply m).0 ≡ ok a
    → reply ≡ answer a
unfolding call_done
call_done-answered c generation epoch method pid (answer b) m a h =
    elim (Bool-cases (is_stale c generation epoch m)) [
      | inl stale ↦ cc (rw stale at h)
      | inr fresh ↦ cc (rw fresh at h)
    ]
call_done-answered c generation epoch method pid (failure e) m a h = cc h
call_done-answered c generation epoch method pid timeout m a h = cc h

-- What a heartbeat finds when it commits.
abbrev pub found_by :
    Reply HeartbeatResponse
    → (Manager → Manager)
    → (Manager → Manager)
    → ℕ
    → ℕ
    → ℕ
    → Manager
    → Manager
found_by reply between later c generation epoch m =
    later (call c generation epoch Method.heartbeat reply between m).1

-- A heartbeat that succeeded with `out`.
pub record IsCommitted (reply : Reply HeartbeatResponse) (between later : Manager → Manager)
    (m : Manager) (out : HeartbeatResponse) (m' : Manager) : Type 0 where
  pub answered : reply ≡ answer out
  pub client : ℕ
  pub held : m.client ≡ some client
  pub current :
      IsCurrent client m.state.generation_id m.rpc_epoch
        (found_by reply between later client m.state.generation_id m.rpc_epoch m)
  pub health :
      m'.state
      ≡ record (found_by reply between later client m.state.generation_id m.rpc_epoch m).state {
        healthy = is_healthy out.status;
      }

after_heartbeat-IsCurrent :
    (s : Snapshot) (later : Manager → Manager) (x : Result HeartbeatResponse × Manager)
    (out : HeartbeatResponse)
    → (after_heartbeat s later x).0 ≡ ok out
    → (x.0 ≡ ok out)
      × IsCurrent s.client s.generation s.epoch (later x.1)
      × ((after_heartbeat s later x).1.state
          ≡ record (later x.1).state { healthy = is_healthy out.status })
unfolding after_heartbeat
after_heartbeat-IsCurrent s later (err e, m) out h = cc h
after_heartbeat-IsCurrent s later (ok got, m) out h =
    let (current, same, written) = commit_heartbeat-IsCurrent s out got (later m) h in
    (
      ap ok same,
      current,
      written
          ∙ ap (λ (o : HeartbeatResponse). record (later m).state { healthy = is_healthy o.status })
              same,
    )

heartbeat_from-fence :
    (reply : Reply HeartbeatResponse) (between later : Manager → Manager) (m : Manager)
    (x : Result Snapshot) (out : HeartbeatResponse)
    → snapshot m ≡ x
    → (heartbeat_from reply between later x m).0 ≡ ok out
    → IsCommitted reply between later m out (heartbeat_from reply between later x m).1
unfolding heartbeat_from
heartbeat_from-fence reply between later m (err e) out snap h = cc h
heartbeat_from-fence reply between later m (ok s) out snap h =
    let now = snapshot-IsCurrent m s snap in
    let (called, current, written) =
      after_heartbeat-IsCurrent s later
        (call s.client s.generation s.epoch Method.heartbeat reply between m) out h in
    record {
      answered =
          call_done-answered s.client s.generation s.epoch Method.heartbeat m.state.pid reply
            (between (call_started s.generation Method.heartbeat m)) out (unfold call in called);
      client = s.client;
      held = now.same_client;
      current =
          subst₂ (λ g e. IsCurrent s.client g e (found_by reply between later s.client g e m))
            now.same_generation (sym now.same_epoch) current;
      health =
          subst₂
            (λ g e.
              (after_heartbeat s later
                (call s.client s.generation s.epoch Method.heartbeat reply between m)).1.state
              ≡ record (found_by reply between later s.client g e m).state {
                healthy = is_healthy out.status;
              })
            now.same_generation (sym now.same_epoch) written;
    }

-- Whatever other goroutines do while it waits, a heartbeat succeeds only with what the plugin
-- answered, and only if the manager, when it commits, is open and still serves the connection, the
-- generation and the epoch that the request was made under, in epoch 0 too; the state is then the
-- one that it found, with the health that the plugin reported.
pub heartbeat-fence :
    (reply : Reply HeartbeatResponse) (between later : Manager → Manager) (m : Manager)
    (out : HeartbeatResponse)
    → (heartbeat reply between later m).0 ≡ ok out
    → IsCommitted reply between later m out (heartbeat reply between later m).1
unfolding heartbeat
heartbeat-fence reply between later m out h =
    heartbeat_from-fence reply between later m (snapshot m) out refl h

call_done-fence :
    {A : Type 0} (c generation epoch : ℕ) (method : Method) (pid : ℕ) (reply : Reply A)
    (m : Manager) (a : A)
    → epoch ≢ 0
    → (call_done c generation epoch method pid reply m).0 ≡ ok a
    → (reply ≡ answer a) × IsCurrent c generation epoch m
unfolding call_done
call_done-fence c generation epoch method pid (answer b) m a pos h =
    elim (Bool-cases (is_stale c generation epoch m)) [
      | inl stale ↦ cc (rw stale at h)
      | inr fresh ↦ (cc (rw fresh at h), is_stale-IsCurrent c generation epoch m pos fresh)
    ]
call_done-fence c generation epoch method pid (failure e) m a pos h = cc h
call_done-fence c generation epoch method pid timeout m a pos h = cc h

routed_call-fence :
    {A : Type 0} (method : Method) (reply : Reply A) (between : Manager → Manager) (m : Manager)
    (x : Result Snapshot) (a : A)
    → snapshot m ≡ x
    → m.rpc_epoch ≢ 0
    → (routed_call method reply between x m).0 ≡ ok a
    → (reply ≡ answer a)
      × ((c : ℕ) × (m.client ≡ some c)
          × IsCurrent c m.state.generation_id m.rpc_epoch
              (between (call_started m.state.generation_id method m)))
unfolding routed_call call
routed_call-fence method reply between m (err e) a snap pos h = cc h
routed_call-fence method reply between m (ok s) a snap pos h =
    let now = snapshot-IsCurrent m s snap in
    let (answered, current) =
      call_done-fence s.client s.generation s.epoch method m.state.pid reply
        (between (call_started s.generation method m)) a (λ e. pos (now.same_epoch ∙ e)) h in
    (
      answered,
      (
        s.client,
        now.same_client,
        subst₂ (λ g e. IsCurrent s.client g e (between (call_started g method m)))
            now.same_generation (sym now.same_epoch) current,
      ),
    )

-- An echo of a manager whose epoch is not 0 returns a text only if the plugin answered with it and
-- the manager, at the time of the answer, is open and still serves the connection, the generation
-- and the epoch that the request was made under.
pub echo-fence :
    (reply : Reply Text) (between : Manager → Manager) (m : Manager) (a : Text)
    → m.rpc_epoch ≢ 0
    → (echo reply between m).0 ≡ ok a
    → (reply ≡ answer a)
      × ((c : ℕ) × (m.client ≡ some c)
          × IsCurrent c m.state.generation_id m.rpc_epoch
              (between (call_started m.state.generation_id Method.echo m)))
unfolding echo
echo-fence reply between m a pos h =
    routed_call-fence Method.echo reply between m (snapshot m) a refl pos h
