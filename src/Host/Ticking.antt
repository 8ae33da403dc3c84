-- ===== src/Host/Ticking.antt =====
-- internal/kernel/host.go, NewHost: the interval that the managers get.
use rpc_plugin_system.Prelude.{
  ◌≡◌, refl, ◌<◌, ◌^◌, false, not, List, [], ◌∷◌, ◌++◌, is_empty, arith, if_cases,
}
use rpc_plugin_system.Kernel.Types.{Result, ok, err, Manager, Config, World}
use rpc_plugin_system.Kernel.Lifecycle.{Setup, new, with_defaults, or_default, ticker_panics}
use rpc_plugin_system.Host.Types.{PluginConfig, HostConfig, Member, Outside, has_member}
use rpc_plugin_system.Host.Build.{
  validate_plugin_id, manager_config, Built, built, refused, after_new, build_loop, has_none,
  new_host,
}
use rpc_plugin_system.Host.Lists.{All, All-append, All-sort_members}

abbrev pub Ticks : Member → Type 0
Ticks x = ticker_panics x.manager ≡ false

abbrev pub Ticking : Built → Type 0
Ticking (built members) = All Ticks members
Ticking (refused e members) = Unit {0}

-- New replaces an interval of 0, so that one that is not negative is positive afterwards.
new-ticks :
    (env : Setup) (world : World) (cfg : Config) (m : Manager)
    → cfg.heartbeat_every < 2 ^ 63
    → new env world cfg ≡ ok m
    → ticker_panics m ≡ false
unfolding new with_defaults or_default ticker_panics
new-ticks env world cfg m pace h = ground arith

module _ (env : Outside) (cfg : HostConfig) (pace : cfg.heartbeat_every < 2 ^ 63) where
  after_new-Ticking :
      (made : List Member) (p : PluginConfig) (loop : List Member → Built) (x : Result Manager)
      → new (env.setup p.plugin_id) (env.world p.plugin_id) (manager_config env cfg p) ≡ x
      → All Ticks made
      → ((made' : List Member) → All Ticks made' → Ticking (loop made'))
      → Ticking (after_new env made p.plugin_id loop x)
  unfolding after_new
  after_new-Ticking made p loop (err e) h t rest = tt
  after_new-Ticking made p loop (ok m) h t rest =
      rest (made ++ record { id = p.plugin_id; manager = m } ∷ [])
        (All-append Ticks made _ t (new-ticks _ _ _ m pace h, tt))

  build_loop-Ticking :
      (made : List Member) (ps : List PluginConfig)
      → All Ticks made
      → Ticking (build_loop env cfg made ps)
  unfolding build_loop
  build_loop-Ticking made [] t = All-sort_members Ticks made t
  build_loop-Ticking made (p ∷ ps) t =
      if_cases Ticking (not (validate_plugin_id p.plugin_id)) (λ h. tt)
        (λ v.
          if_cases Ticking (is_empty p.plugin_path) (λ h. tt)
            (λ h.
              if_cases Ticking (has_member p.plugin_id made) (λ n. tt)
                (λ n. after_new-Ticking made p _ _ refl t (λ made'. build_loop-Ticking made' ps))))

  -- With an interval that is not negative, no monitor of a new host panics.
  pub new_host-Ticking : Ticking (new_host env cfg)
  unfolding new_host
  new_host-Ticking =
      if_cases Ticking (is_empty cfg.runtime_dir) (λ h. tt)
        (λ h.
          if_cases Ticking (has_none cfg.plugins) (λ k. tt)
            (λ k. build_loop-Ticking [] cfg.plugins tt))
