-- ===== src/Host/Building.antt =====
-- internal/kernel/host.go, NewHost: what it makes, and what it leaves behind when it fails.
use rpc_plugin_system.Prelude.{
  ◌≡◌, refl, ◌∙◌, Bool, true, false, not, ◌||◌, none, List, [], ◌∷◌, ◌++◌, Text, is_empty, text_eq,
  matches_id_pattern, arith, if_cases,
}
use rpc_plugin_system.Kernel.Types.{Result, ok, err, Manager, Config, World}
use rpc_plugin_system.Kernel.Lifecycle.{Setup, new, with_defaults}
use rpc_plugin_system.Kernel.Lifecycle.Kept.{Kept}
use rpc_plugin_system.Kernel.Lifecycle.Closing.{Closed, close-Closed}
use rpc_plugin_system.Kernel.Lifecycle.History.{new-Kept}
use rpc_plugin_system.Host.Types.{PluginConfig, HostConfig, Member, HostError, Outside, has_member}
use rpc_plugin_system.Host.Operations.{close_all, close_member}
use rpc_plugin_system.Host.Build.{
  validate_plugin_id, manager_config, Built, built, refused, after_new, build_loop, has_none,
  new_host,
}
use rpc_plugin_system.Host.Lists.{
  All, All-append, All-sort_members, Distinct, append-Distinct, sort_members-Distinct,
  has_member-append, has_member-sort_members, IsSorted, sort_members-IsSorted,
}

-- A manager as New leaves it: nothing started, its log open.
pub record Fresh (x : Member) : Type 0 where
  pub kept : Kept x.manager
  pub generation : x.manager.state.generation_id ≡ 0
  pub first : x.manager.close_result ≡ none
  pub log_open : x.manager.log_open ≡ true
  pub own_id : x.manager.cfg.plugin_id ≡ x.id
  pub valid : matches_id_pattern x.id ≡ true

abbrev pub IsClosedMember : Member → Type 0
IsClosedMember x = (r : Result (Unit {0})) × Closed r x.manager

abbrev pub is_configured : List PluginConfig → Text → Bool
is_configured [] id = false
is_configured (p ∷ ps) id = text_eq p.plugin_id id || is_configured ps id

-- One fresh manager for each id of `ids`, in ascending order.
pub record IsHost (ids : Text → Bool) (members : List Member) : Type 0 where
  pub fresh : All Fresh members
  pub distinct : Distinct members
  pub sorted : IsSorted members
  pub complete : (id : Text) → has_member id members ≡ ids id

-- What the managers made so far are, by the error.
abbrev pub Left : HostError → List Member → Type 0
Left (HostError.manager_error e) members = All IsClosedMember members
Left _ members = All Fresh members

abbrev pub Made : (Text → Bool) → Built → Type 0
Made ids (built members) = IsHost ids members
Made ids (refused e members) = Left e members

-- The children and connections of a plugin that has not been started yet.
pub record IsClean (env : Outside) : Type 0 where
  pub running : (id : Text) → (env.world id).running ≡ []
  pub conns : (id : Text) → (env.world id).conns ≡ []

Made-extend : (c d : Text → Bool) (b : Built) → ((id : Text) → c id ≡ d id) → Made c b → Made d b
Made-extend c d (built members) e h = record {
  fresh = h.fresh;
  distinct = h.distinct;
  sorted = h.sorted;
  complete = λ id. h.complete id ∙ e id;
}
Made-extend c d (refused why members) e h = h

new-first :
    (env : Setup) (world : World) (cfg : Config) (m : Manager)
    → new env world cfg ≡ ok m
    → (m.close_result ≡ none) × (m.log_open ≡ true) × (m.cfg.plugin_id ≡ cfg.plugin_id)
unfolding new with_defaults
new-first env world cfg m h = (ground arith, ground arith, ground arith)

close_all-IsClosedMember :
    (env : Outside) (xs : List Member) → All Fresh xs → All IsClosedMember (close_all env xs).1
unfolding close_all
close_all-IsClosedMember env [] h = tt
close_all-IsClosedMember env (x ∷ xs) (h, hs) = (
  (
    (close_member env x).0,
    close-Closed (env.halt x.id) (env.log_close_fails x.id) x.manager h.kept h.first,
  ),
  close_all-IsClosedMember env xs hs,
)

module _ (env : Outside) (cfg : HostConfig) (clean : IsClean env) where
  new-Fresh :
      (p : PluginConfig) (m : Manager)
      → new (env.setup p.plugin_id) (env.world p.plugin_id) (manager_config env cfg p) ≡ ok m
      → matches_id_pattern p.plugin_id ≡ true
      → Fresh (record { id = p.plugin_id; manager = m })
  new-Fresh p m h v =
      let (k, g) = new-Kept _ _ _ m (clean.running p.plugin_id) (clean.conns p.plugin_id) h in
      let (first, opened, own) = new-first _ _ _ m h in
      record { kept = k; generation = g; first = first; log_open = opened; own_id = own; valid = v }

  abbrev reach : List Member → List PluginConfig → Text → Bool
  reach made ps id = has_member id made || is_configured ps id

  after_new-Made :
      (made : List Member) (p : PluginConfig) (ps : List PluginConfig) (loop : List Member → Built)
      (x : Result Manager)
      → new (env.setup p.plugin_id) (env.world p.plugin_id) (manager_config env cfg p) ≡ x
      → All Fresh made
      → Distinct made
      → matches_id_pattern p.plugin_id ≡ true
      → has_member p.plugin_id made ≡ false
      → ((made' : List Member)
          → All Fresh made'
          → Distinct made'
          → Made (reach made' ps) (loop made'))
      → Made (reach made (p ∷ ps)) (after_new env made p.plugin_id loop x)
  unfolding after_new
  after_new-Made made p ps loop (err e) h f d v n rest = close_all-IsClosedMember env made f
  after_new-Made made p ps loop (ok m) h f d v n rest =
      let x : Member = record { id = p.plugin_id; manager = m } in
      Made-extend (reach (made ++ x ∷ []) ps) (reach made (p ∷ ps)) (loop (made ++ x ∷ []))
        (λ id. ground (arith, has_member-append id made x))
        (rest (made ++ x ∷ []) (All-append Fresh made _ f (new-Fresh p m h v, tt))
          (append-Distinct made x n d))

  build_loop-Made :
      (made : List Member) (ps : List PluginConfig)
      → All Fresh made
      → Distinct made
      → Made (reach made ps) (build_loop env cfg made ps)
  unfolding build_loop
  build_loop-Made made [] f d = record {
    fresh = All-sort_members Fresh made f;
    distinct = sort_members-Distinct made d;
    sorted = sort_members-IsSorted made;
    complete = λ id. ground (arith, has_member-sort_members id made);
  }
  build_loop-Made made (p ∷ ps) f d =
      if_cases (Made (reach made (p ∷ ps))) (not (validate_plugin_id p.plugin_id)) (λ h. f)
        (λ v.
          if_cases (Made (reach made (p ∷ ps))) (is_empty p.plugin_path) (λ h. f)
            (λ h.
              if_cases (Made (reach made (p ∷ ps))) (has_member p.plugin_id made) (λ n. f)
                (λ n.
                  after_new-Made made p ps _ _ refl f d
                    (unfold validate_plugin_id in ground (arith, v)) n
                    (λ made'. build_loop-Made made' ps))))

  -- Over plugins none of which runs yet, NewHost either makes one fresh manager, with its log open
  -- and under generation 0, for each configured id and no other, with valid and distinct ids in
  -- ascending order; or New fails for one plugin and every manager that was made before is closed;
  -- or the configuration is refused and the managers made before are left as New made them, with
  -- their logs open.
  pub new_host-Made : Made (is_configured cfg.plugins) (new_host env cfg)
  unfolding new_host
  new_host-Made =
      if_cases (Made (is_configured cfg.plugins)) (is_empty cfg.runtime_dir) (λ h. tt)
        (λ h.
          if_cases (Made (is_configured cfg.plugins)) (has_none cfg.plugins) (λ k. tt)
            (λ k. build_loop-Made [] cfg.plugins tt tt))
