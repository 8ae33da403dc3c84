-- ===== src/Plugin/Environment.antt =====
-- internal/kernel/manager.go, startLocked, and pkg/plugin/plugin.go, LoadConfigFromEnv: the
-- environment that hands the identity over.
use rpc_plugin_system.Prelude.{
  ℕ, ◌<◌, ◌^◌, ◌≡◌, refl, false, Option, some, List, [], ◌∷◌, ◌++◌, Text, codes, is_empty, text_eq,
  if◌then◌else◌, format_uint, parse_uint-format_uint, format_uint-ne-nil,
}
use rpc_plugin_system.Kernel.Types.{Manager}
use rpc_plugin_system.Kernel.Types as KernelTypes
use rpc_plugin_system.Kernel.Artifacts.{socket_path, auth_path}
use rpc_plugin_system.Plugin.Config.{
  loaded, socket_env, plugin_id_env, generation_env, token_file_env, load_config_from_env,
}

-- cmd.Env: `extra` are the two variables of the test plugin, if they are set.
unfoldable pub environment : KernelTypes.Config → ℕ → List (Text × Text) → List (Text × Text)
environment cfg generation extra =
    (socket_env, socket_path cfg)
    ∷ (plugin_id_env, cfg.plugin_id)
    ∷ (generation_env, format_uint generation)
    ∷ (token_file_env, auth_path cfg)
    ∷ extra

-- os.Getenv
abbrev pub getenv : List (Text × Text) → Text → Text
getenv [] name = []
getenv ((k, v) ∷ rest) name = if text_eq k name then v else getenv rest name

path-full : (dir name : Text) (c : ℕ) → is_empty (dir ++ c ∷ name) ≡ false
path-full [] name c = refl
path-full (d ∷ dir) name c = refl

format_uint-full : (n : ℕ) → is_empty (format_uint n) ≡ false
format_uint-full n = let (c, s, e) = format_uint-ne-nil n in rw e refl

-- A plugin that the manager starts with an id, in a generation of 64 bits, loads that id, that
-- generation, the manager's socket path, and as its token what the token file holds.
pub load_config-environment :
    (cfg : KernelTypes.Config) (generation : ℕ) (extra : List (Text × Text))
    (read_file : Text → Option Text) (token : Text)
    → is_empty cfg.plugin_id ≡ false
    → generation < 2 ^ 64
    → read_file (auth_path cfg) ≡ some token
    → load_config_from_env (getenv (environment cfg generation extra)) read_file
      ≡ loaded (record {
        socket_path = socket_path cfg;
        plugin_id = cfg.plugin_id;
        generation_id = generation;
        auth_token = token;
      })
unfolding load_config_from_env environment socket_path auth_path
load_config-environment cfg generation extra read_file token named fits read =
    let socket = path-full cfg.runtime_dir (cfg.plugin_id ++ codes ".sock") 47 in
    let auth = path-full cfg.runtime_dir (cfg.plugin_id ++ codes ".auth") 47 in
    simp (
      socket,
      auth,
      named,
      format_uint-full generation,
      parse_uint-format_uint generation fits,
      read,
    )
