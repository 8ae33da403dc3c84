-- ===== src/Daemon/Accepted.antt =====
-- cmd/rpcplugind/main.go and internal/kernel/host.go: NewHost on what the daemon has parsed.
use rpc_plugin_system.Prelude.{
  ℕ, ◌≡◌, refl, ap, Bool, true, false, not, ◌||◌, Option, none, some, List, [], ◌∷◌, Text, codes,
  is_empty, trim_space, ◌==◌, arith, if_cases, if◌then◌else◌,
}
use mathlib.Core.Path.{subst}
use rpc_plugin_system.Kernel.Types.{Result, ok, err, Manager}
use rpc_plugin_system.Host.Types.{PluginConfig, HostConfig, Member, HostError, Outside, has_member}
use rpc_plugin_system.Host.Build.{
  validate_plugin_id, Built, built, refused, after_new, build_loop, has_none, new_host,
}
use rpc_plugin_system.Daemon.Plugins.{
  DaemonError, Parsed, parsed, rejected, TomlPluginSection, DaemonOptions, split, split_once,
  to_head, plugin_config, prepend, with_plugin, with_fields, parse_parts, parse_plugins,
  parse_sections, has_sections, resolve_plugins,
}
use rpc_plugin_system.Daemon.Config.{
  System, TomlDaemonConfig, ResolvedDaemonConfig, with_plugins, with_durations, with_file,
  load_toml_config, parse_daemon_config,
}

abbrev pub are_usable : List PluginConfig → Bool
are_usable [] = true
are_usable (p ∷ ps) =
    if validate_plugin_id p.plugin_id
    then (if is_empty p.plugin_path then false else are_usable ps)
    else false

abbrev Usable : Parsed (List PluginConfig) → Type 0
Usable (rejected e) = Unit {0}
Usable (parsed ps) = are_usable ps ≡ true

-- At least one, and all usable.
abbrev Full : Parsed (List PluginConfig) → Type 0
Full (rejected e) = Unit {0}
Full (parsed ps) = (are_usable ps ≡ true) × (has_none ps ≡ false)

prepend-Full :
    (id path : Text) (rest : Parsed (List PluginConfig))
    → validate_plugin_id id ≡ true
    → is_empty path ≡ false
    → Usable rest
    → Full (prepend (plugin_config id path) rest)
prepend-Full id path (rejected e) v p u = tt
prepend-Full id path (parsed ps) v p u = (ground (arith, v, p, u), refl)

with_plugin-Full :
    (e : DaemonError) (id path : Text) (rest : Parsed (List PluginConfig))
    → Usable rest
    → Full (with_plugin e id path rest)
with_plugin-Full e id path rest u =
    if_cases Full (is_empty id || is_empty path) (λ h. tt)
      (λ h.
        if_cases Full (not (validate_plugin_id id)) (λ v. tt)
          (λ v. prepend-Full id path rest (ground (arith, v)) (ground (arith, h)) u))

Full-Usable : (x : Parsed (List PluginConfig)) → Full x → Usable x
Full-Usable (rejected e) h = tt
Full-Usable (parsed ps) h = h.0

with_fields-Full :
    (x : Option (Text × Text)) (rest : Parsed (List PluginConfig))
    → Usable rest
    → Full (with_fields x rest)
with_fields-Full none rest u = tt
with_fields-Full (some (id, path)) rest u =
    with_plugin-Full DaemonError.invalid_plugin_spec id path rest u

parse_parts-Full : (t : Text) (ts : List Text) → Full (parse_parts (t ∷ ts))
unfolding parse_parts
parse_parts-Full t [] = with_fields-Full (split_once 61 (trim_space t)) (parsed []) refl
parse_parts-Full t (u ∷ ts) =
    with_fields-Full (split_once 61 (trim_space t)) (parse_parts (u ∷ ts))
      (Full-Usable (parse_parts (u ∷ ts)) (parse_parts-Full u ts))

parse_sections-Full :
    (p : TomlPluginSection) (ps : List TomlPluginSection) → Full (parse_sections (p ∷ ps))
unfolding parse_sections
parse_sections-Full p [] =
    with_plugin-Full DaemonError.invalid_config_plugin p.id p.path (parsed []) refl
parse_sections-Full p (q ∷ ps) =
    with_plugin-Full DaemonError.invalid_config_plugin p.id p.path (parse_sections (q ∷ ps))
      (Full-Usable (parse_sections (q ∷ ps)) (parse_sections-Full q ps))

split-cons : (sep : ℕ) (s : Text) → (t : Text) × (ts : List Text) × (split sep s ≡ t ∷ ts)
unfolding split
split-cons sep [] = ([], [], refl)
split-cons sep (c ∷ s) =
    let (t, ts, e) = split-cons sep s in
    if_cases (λ x. (t' : Text) × (ts' : List Text) × (x ≡ t' ∷ ts')) (c == sep)
      (λ h. ([], split sep s, refl)) (λ h. (c ∷ t, ts, ap (to_head c) e))

parse_plugins-Full : (arg id path : Text) → Full (parse_plugins arg id path)
unfolding parse_plugins
parse_plugins-Full arg id path =
    if_cases Full (not (is_empty arg))
      (λ h. let (t, ts, e) = split-cons 44 arg in rw e (parse_parts-Full t ts))
      (λ h.
        if_cases Full (is_empty path) (λ k. tt)
          (λ k.
            if_cases Full (not (validate_plugin_id id)) (λ v. tt)
              (λ v. (ground (arith, v, k), refl))))

resolve_plugins-Full :
    (opts : DaemonOptions) (ps : List TomlPluginSection) → Full (resolve_plugins opts ps)
unfolding resolve_plugins
resolve_plugins-Full opts ps =
    if_cases Full (opts.explicit_flags (codes "plugins"))
      (λ h. parse_plugins-Full opts.plugins_arg opts.plugin_id opts.plugin_path)
      (λ h.
        if_cases Full
          (opts.explicit_flags (codes "plugin") || opts.explicit_flags (codes "plugin-id"))
          (λ k. parse_plugins-Full [] opts.plugin_id opts.plugin_path) (λ k. sections-or opts ps))
  where
    sections-or :
        (opts : DaemonOptions) (ps : List TomlPluginSection)
        → Full (
            if has_sections ps
            then parse_sections ps
            else parse_plugins opts.plugins_arg opts.plugin_id opts.plugin_path)
    sections-or opts [] = parse_plugins-Full opts.plugins_arg opts.plugin_id opts.plugin_path
    sections-or opts (p ∷ ps) = parse_sections-Full p ps

-- A configuration that is parsed, with the socket beside the plugins' directories.
abbrev Resolved : System → Parsed ResolvedDaemonConfig → Type 0
Resolved sys (rejected e) = Unit {0}
Resolved sys (parsed cfg) =
    (are_usable cfg.host.plugins ≡ true)
    × (has_none cfg.host.plugins ≡ false)
    × (cfg.admin_socket ≡ sys.join cfg.host.runtime_dir (codes "admin.sock"))

with_plugins-Resolved :
    (sys : System) (dir : Text) (d c b : ℕ) (ps : Parsed (List PluginConfig))
    → Full ps
    → Resolved sys (with_plugins sys dir d c b ps)
with_plugins-Resolved sys dir d c b (rejected e) h = tt
with_plugins-Resolved sys dir d c b (parsed ps) (u, n) = (u, n, refl)

with_durations-Resolved :
    (sys : System) (next : ℕ → ℕ → ℕ → Parsed ResolvedDaemonConfig) (x y z : Option ℕ)
    → ((d c b : ℕ) → Resolved sys (next d c b))
    → Resolved sys (with_durations next x y z)
with_durations-Resolved sys next none y z h = tt
with_durations-Resolved sys next (some d) none z h = tt
with_durations-Resolved sys next (some d) (some c) none h = tt
with_durations-Resolved sys next (some d) (some c) (some b) h = h d c b

with_file-Resolved :
    (sys : System) (opts : DaemonOptions) (x : Parsed TomlDaemonConfig)
    → Resolved sys (with_file sys opts x)
with_file-Resolved sys opts (rejected e) = tt
with_file-Resolved sys opts (parsed file) = with_durations-Resolved sys _ _ _ _ (λ d c b.
    with_plugins-Resolved sys _ d c b (resolve_plugins opts file.plugins)
      (resolve_plugins-Full opts file.plugins))

-- What NewHost can still answer: a host, or one of three errors.
abbrev pub Builds : Built → Type 0
Builds (built members) = Unit {0}
Builds (refused HostError.runtime_dir_required left) = Unit {0}
Builds (refused HostError.duplicate_plugin_id left) = Unit {0}
Builds (refused (HostError.manager_error e) left) = Unit {0}
Builds (refused _ left) = ⊥

module _ (env : Outside) (cfg : HostConfig) where
  after_new-Builds :
      (made : List Member) (id : Text) (loop : List Member → Built) (x : Result Manager)
      → ((ms : List Member) → Builds (loop ms))
      → Builds (after_new env made id loop x)
  unfolding after_new
  after_new-Builds made id loop (err e) h = tt
  after_new-Builds made id loop (ok m) h = h _

  build_loop-Builds :
      (made : List Member) (ps : List PluginConfig)
      → are_usable ps ≡ true
      → Builds (build_loop env cfg made ps)
  unfolding build_loop
  build_loop-Builds made [] u = tt
  build_loop-Builds made (p ∷ ps) u =
      rw (valid p ps u, path_given p ps u)
        (if_cases Builds (has_member p.plugin_id made) (λ h. tt)
          (λ h.
            after_new-Builds made p.plugin_id _ _ (λ ms. build_loop-Builds ms ps (rest p ps u))))
    where
      valid :
          (p : PluginConfig) (ps : List PluginConfig)
          → are_usable (p ∷ ps) ≡ true
          → validate_plugin_id p.plugin_id ≡ true
      valid p ps u = ground (arith, u)

      path_given :
          (p : PluginConfig) (ps : List PluginConfig)
          → are_usable (p ∷ ps) ≡ true
          → is_empty p.plugin_path ≡ false
      path_given p ps u = ground (arith, u)

      rest :
          (p : PluginConfig) (ps : List PluginConfig)
          → are_usable (p ∷ ps) ≡ true
          → are_usable ps ≡ true
      rest p ps u = ground (arith, u)

  new_host-Builds :
      are_usable cfg.plugins ≡ true → has_none cfg.plugins ≡ false → Builds (new_host env cfg)
  unfolding new_host
  new_host-Builds u n = rw n (
      if_cases Builds (is_empty cfg.runtime_dir) (λ h. tt)
        (λ h. build_loop-Builds [] cfg.plugins u))

Resolved-parsed :
    (sys : System) (x : Parsed ResolvedDaemonConfig) (cfg : ResolvedDaemonConfig)
    → x ≡ parsed cfg
    → Resolved sys x
    → Resolved sys (parsed cfg)
Resolved-parsed sys x cfg h r = subst (Resolved sys) h r

-- When the daemon's configuration is parsed, from whichever of the flags and the config file: every
-- plugin of it passes NewHost's checks of the id and the path, and there is at least one, so that
-- NewHost gives a host or fails for an empty runtime directory, an id that stands twice or the
-- manager of one plugin, and for nothing else; and the admin socket stands in the runtime directory.
pub parse_daemon_config-Builds :
    (sys : System) (opts : DaemonOptions) (env : Outside) (cfg : ResolvedDaemonConfig)
    → parse_daemon_config sys opts ≡ parsed cfg
    → Builds (new_host env cfg.host)
      × (cfg.admin_socket ≡ sys.join cfg.host.runtime_dir (codes "admin.sock"))
unfolding parse_daemon_config
parse_daemon_config-Builds sys opts env cfg h =
    let (u, n, s) =
      Resolved-parsed sys (with_file sys opts (load_toml_config sys opts.config_path)) cfg h
        (with_file-Resolved sys opts (load_toml_config sys opts.config_path)) in
    (new_host-Builds env cfg.host u n, s)
