-- ===== src/Plugin/Config.antt =====
-- pkg/plugin/plugin.go: Config and LoadConfigFromEnv. A token is the list of its bytes.
use rpc_plugin_system.Prelude.{
  ℕ, Option, none, some, Text, codes, is_empty, parse_uint, if◌then◌else◌,
}

pub record Config : Type 0 where
  pub socket_path : Text
  pub plugin_id : Text
  pub generation_id : ℕ
  pub auth_token : Text

pub data LoadError : Type 0 where
  missing_env : Text → LoadError
  bad_generation unreadable_token : LoadError

pub data Loaded : Type 0 where
  loaded : Config → Loaded
  load_failed : LoadError → Loaded

abbrev pub socket_env : Text
socket_env = codes "RPC_PLUGIN_SYSTEM_PLUGIN_SOCKET"

abbrev pub plugin_id_env : Text
plugin_id_env = codes "RPC_PLUGIN_SYSTEM_PLUGIN_ID"

abbrev pub generation_env : Text
generation_env = codes "RPC_PLUGIN_SYSTEM_PLUGIN_GENERATION"

abbrev pub token_file_env : Text
token_file_env = codes "RPC_PLUGIN_SYSTEM_AUTH_TOKEN_FILE"

-- Lines 135 to 143.
abbrev pub after_read : Text → Text → ℕ → Option Text → Loaded
after_read socket id generation none = load_failed unreadable_token
after_read socket id generation (some token) = loaded (record {
  socket_path = socket;
  plugin_id = id;
  generation_id = generation;
  auth_token = token;
})

abbrev pub after_generation : (Text → Text) → (Text → Option Text) → Text → Text → Option ℕ → Loaded
after_generation getenv read_file socket id none = load_failed bad_generation
after_generation getenv read_file socket id (some generation) =
    if is_empty (getenv token_file_env)
    then load_failed (missing_env token_file_env)
    else after_read socket id generation (read_file (getenv token_file_env))

-- `getenv` and `read_file` are os.Getenv and os.ReadFile.
unfoldable pub load_config_from_env : (Text → Text) → (Text → Option Text) → Loaded
load_config_from_env getenv read_file =
    if is_empty (getenv socket_env)
    then load_failed (missing_env socket_env)
    else if is_empty (getenv plugin_id_env)
    then load_failed (missing_env plugin_id_env)
    else if is_empty (getenv generation_env)
    then load_failed (missing_env generation_env)
    else after_generation getenv read_file (getenv socket_env) (getenv plugin_id_env)
        (parse_uint (getenv generation_env))
