-- ===== src/Daemon/Plugins.antt =====
-- cmd/rpcplugind/main.go: the plugins of the daemon, from the flags or from the config file.
use rpc_plugin_system.Prelude.{
  ℕ, Bool, not, ◌||◌, Option, none, some, List, [], ◌∷◌, Text, codes, is_empty, trim_space, ◌==◌,
  if◌then◌else◌,
}
use rpc_plugin_system.Host.Types.{PluginConfig}
use rpc_plugin_system.Host.Build.{validate_plugin_id}

pub data DaemonError : Type 0 where
  read_failed parse_failed : DaemonError
  bad_dial_timeout bad_call_timeout bad_heartbeat_every : DaemonError
  invalid_config_plugin invalid_plugin_spec plugin_required : DaemonError
  invalid_plugin_id : DaemonError

pub data Parsed {ℓ} (A : Type ℓ) : Type ℓ where
  parsed : A → Parsed A
  rejected : DaemonError → Parsed A

pub record TomlPluginSection : Type 0 where
  pub id : Text
  pub path : Text

-- The durations are the 64 bits of an int64.
pub record DaemonOptions : Type 0 where
  pub config_path : Text
  pub runtime_dir : Text
  pub plugins_arg : Text
  pub plugin_id : Text
  pub plugin_path : Text
  pub dial_timeout : ℕ
  pub call_timeout : ℕ
  pub heartbeat_every : ℕ
  pub explicit_flags : Text → Bool

abbrev pub to_head : ℕ → List Text → List Text
to_head c [] = (c ∷ []) ∷ []
to_head c (part ∷ parts) = (c ∷ part) ∷ parts

-- strings.Split, by one character
unfoldable pub split : ℕ → Text → List Text
split sep [] = [] ∷ []
split sep (c ∷ s) = if c == sep then [] ∷ split sep s else to_head c (split sep s)

abbrev pub with_first : ℕ → Option (Text × Text) → Option (Text × Text)
with_first c none = none
with_first c (some (before, after)) = some (c ∷ before, after)

-- strings.SplitN(s, sep, 2), `none` being one field
unfoldable pub split_once : ℕ → Text → Option (Text × Text)
split_once sep [] = none
split_once sep (c ∷ s) = if c == sep then some ([], s) else with_first c (split_once sep s)

abbrev pub plugin_config : Text → Text → PluginConfig
plugin_config id path = record {
  plugin_id = id;
  plugin_path = path;
  metadata = none;
  refresh = none;
}

abbrev pub prepend : PluginConfig → Parsed (List PluginConfig) → Parsed (List PluginConfig)
prepend p (parsed ps) = parsed (p ∷ ps)
prepend p (rejected e) = rejected e

-- One round of a loop over the plugins, by its fields; `missing` is the error of an empty field.
abbrev pub with_plugin :
    DaemonError → Text → Text → Parsed (List PluginConfig) → Parsed (List PluginConfig)
with_plugin missing id path rest =
    if is_empty id || is_empty path
    then rejected missing
    else if not (validate_plugin_id id)
    then rejected invalid_plugin_id
    else prepend (plugin_config id path) rest

abbrev pub with_fields :
    Option (Text × Text) → Parsed (List PluginConfig) → Parsed (List PluginConfig)
with_fields none rest = rejected invalid_plugin_spec
with_fields (some (id, path)) rest = with_plugin invalid_plugin_spec id path rest

unfoldable pub parse_parts : List Text → Parsed (List PluginConfig)
unfolding split_once
parse_parts [] = parsed []
parse_parts (part ∷ parts) = with_fields (split_once 61 (trim_space part)) (parse_parts parts)

unfoldable pub parse_plugins : Text → Text → Text → Parsed (List PluginConfig)
unfolding parse_parts split
parse_plugins plugins_arg plugin_id plugin_path =
    if not (is_empty plugins_arg)
    then parse_parts (split 44 plugins_arg)
    else if is_empty plugin_path
    then rejected plugin_required
    else if not (validate_plugin_id plugin_id)
    then rejected invalid_plugin_id
    else parsed (plugin_config plugin_id plugin_path ∷ [])

unfoldable pub parse_sections : List TomlPluginSection → Parsed (List PluginConfig)
parse_sections [] = parsed []
parse_sections (p ∷ ps) = with_plugin invalid_config_plugin p.id p.path (parse_sections ps)

abbrev pub has_sections : List TomlPluginSection → Bool
has_sections [] = Bool.false
has_sections (p ∷ ps) = Bool.true

unfoldable pub resolve_plugins : DaemonOptions → List TomlPluginSection → Parsed (List PluginConfig)
unfolding parse_plugins parse_sections
resolve_plugins opts file_plugins =
    if opts.explicit_flags (codes "plugins")
    then parse_plugins opts.plugins_arg opts.plugin_id opts.plugin_path
    else if opts.explicit_flags (codes "plugin") || opts.explicit_flags (codes "plugin-id")
    then parse_plugins [] opts.plugin_id opts.plugin_path
    else if has_sections file_plugins
    then parse_sections file_plugins
    else parse_plugins opts.plugins_arg opts.plugin_id opts.plugin_path
