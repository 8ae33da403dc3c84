-- ===== src/Ctl/Options.antt =====
-- cmd/rpcpluginctl/main.go: the flags' values, their checks, and the log that they name.
use rpc_plugin_system.Prelude.{
  ℕ, ◌^◌, Bool, not, ◌&&◌, Option, none, some, List, [], ◌∷◌, Text, codes, is_empty, text_eq, ltb,
  if◌then◌else◌,
}
use rpc_plugin_system.Bundle.Types.{is_positive}
use rpc_plugin_system.Host.Build.{validate_plugin_id}
use rpc_plugin_system.EventLog.Read.{Filters}
use rpc_plugin_system.Ctl.Args.{is_key}

pub record Options : Type 0 where
  pub runtime_dir : Text
  pub plugin_id : Text
  pub message : Text
  pub level : Text
  pub component : Text
  pub event : Text
  pub method : Text
  pub generation : ℕ
  pub capability : Text
  pub operation : Text
  pub correlation : Text
  pub limit : ℕ  -- an int, as its 64-bit pattern
  pub format : Text
  pub since : ℕ  -- a time.Duration, as its 64-bit pattern
  pub reversed : Bool
  pub summary : Bool

pub data OptionError : Type 0 where
  plugin_id_required invalid_plugin_id negative_limit unknown_format : OptionError

abbrev pub plugin_commands : List Text
plugin_commands = codes "plugin" ∷ (codes "heartbeat" ∷ (codes "echo" ∷ (codes "restart" ∷ [])))

abbrev pub formats : List Text
formats = codes "text" ∷ (codes "json" ∷ [])

abbrev pub validate_log_options : Text → ℕ → Text → Option OptionError
validate_log_options command limit format =
    if not (text_eq command (codes "logs"))
    then none
    else if not (ltb limit (2 ^ 63))
    then some OptionError.negative_limit
    else if is_key format formats
    then none
    else some OptionError.unknown_format

unfoldable pub validate_options : Text → Text → ℕ → Text → Option OptionError
validate_options command plugin_id limit format =
    if is_key command plugin_commands && is_empty plugin_id
    then some OptionError.plugin_id_required
    else if not (is_empty plugin_id) && not (validate_plugin_id plugin_id)
    then some OptionError.invalid_plugin_id
    else validate_log_options command limit format

-- The file system: filepath.Join, os.Stat without error, and os.ReadDir with the test of a directory.
pub record Files : Type 0 where
  pub join : Text → Text → Text
  pub exists : Text → Bool
  pub read_dir : Text → Option (List (Text × Bool))

pub data LogPath : Type 0 where
  found : Text → LogPath
  unreadable_dir several_logs : LogPath

abbrev pub log_in : Files → Text → Text
log_in files dir = files.join dir (codes "events.jsonl")

-- The loop over the entries.
unfoldable pub plugin_logs : Files → Text → List (Text × Bool) → List Text
plugin_logs files dir [] = []
plugin_logs files dir ((name, is_dir) ∷ rest) =
    if is_dir && files.exists (log_in files (files.join dir name))
    then log_in files (files.join dir name) ∷ plugin_logs files dir rest
    else plugin_logs files dir rest

abbrev pub choose_log : Text → List Text → LogPath
choose_log root_log [] = found root_log
choose_log root_log (log ∷ []) = found log
choose_log root_log (log ∷ (other ∷ rest)) = several_logs

abbrev pub log_of_entries : Files → Text → Option (List (Text × Bool)) → LogPath
log_of_entries files dir none = unreadable_dir
log_of_entries files dir (some entries) =
    choose_log (log_in files dir) (plugin_logs files dir entries)

-- filepath.Join of three elements joins the first two.
unfoldable pub resolve_log_path : Files → Text → Text → LogPath
unfolding plugin_logs
resolve_log_path files dir plugin_id =
    if not (is_empty plugin_id)
    then found (log_in files (files.join dir plugin_id))
    else if files.exists (log_in files dir)
    then found (log_in files dir)
    else log_of_entries files dir (files.read_dir dir)

abbrev pub filters_of : (ℕ → ℕ) → Options → Filters
filters_of ago o = record {
  level = o.level;
  component = o.component;
  event = o.event;
  plugin_id = o.plugin_id;
  generation_id = o.generation;
  method = o.method;
  capability_id = o.capability;
  operation_id = o.operation;
  correlation_id = o.correlation;
  limit = o.limit;
  since = if is_positive o.since then ago o.since else 0;
  reversed = o.reversed;
}
