-- ===== src/Ctl/Tests.antt =====
-- cmd/rpcpluginctl: concrete command lines.
use rpc_plugin_system.Prelude.{
  ℕ, ◌≡◌, ◌≢◌, refl, Bool, true, false, Option, none, some, List, [], ◌∷◌, ◌++◌, Text, codes,
  text_eq,
}
use rpc_plugin_system.EventLog.Read.{LogFiles}
use rpc_plugin_system.Host.Tests.{exchange, two_members}
use rpc_plugin_system.Admin.Service.{AdminRequest, AdminResult, host_required, bad_plugin_id}
use rpc_plugin_system.Ctl.Args.{
  takes_value, is_skipped, is_bool_flag, split_loop, split_command_args,
}
use rpc_plugin_system.Ctl.Options.{Options, Files, log_in, resolve_log_path}
use rpc_plugin_system.Ctl.Run.{Output, CtlError, reported, CtlEnv, run}
use rpc_plugin_system.Ctl.Composed.{against, run-accepted}
use rpc_plugin_system.Ctl.Chosen.{Resolves, resolve_log_path-Resolves}
use rpc_plugin_system.Ctl.Split.{Flag, valued, bare, printed, AreFlags, split_command_args-finds}

abbrev limit_and_reverse : List Flag
limit_and_reverse = valued (codes "-limit") (codes "5") ∷ (bare (codes "-reverse") ∷ [])

limit_and_reverse-AreFlags : AreFlags limit_and_reverse
unfolding takes_value
limit_and_reverse-AreFlags = ((refl, refl), ((refl, refl, refl), tt))

-- With two dashes the flag is not one that takes a value, and its value is taken for the command.
two_dashes :
    split_command_args (codes "--plugin-id" ∷ (codes "echo" ∷ (codes "status" ∷ [])))
    ≡ (codes "echo", codes "--plugin-id" ∷ (codes "status" ∷ []))
unfolding split_command_args split_loop takes_value is_skipped is_bool_flag
two_dashes = refl

split_command_args-finds_example :
    (split_command_args (printed limit_and_reverse ++ codes "logs" ∷ [])
      ≡ (codes "logs", printed limit_and_reverse ++ []))
    × (split_command_args (printed limit_and_reverse ++ codes "--" ∷ (codes "-h" ∷ []))
        ≡ (codes "-h", printed limit_and_reverse ++ []))
split_command_args-finds_example =
    split_command_args-finds limit_and_reverse (codes "logs") (codes "-h") []
      limit_and_reverse-AreFlags refl

abbrev join_slash : Text → Text → Text
join_slash root name = root ++ 47 ∷ name

-- Two entries under /run/h, of which the plugin's directory holds a log.
abbrev has_one_log : Text → Bool
has_one_log path = text_eq path (codes "/run/h/echo/events.jsonl")

abbrev entries : Text → Option (List (Text × Bool))
entries dir = some ((codes "admin.sock", false) ∷ ((codes "echo", true) ∷ []))

abbrev files : Files
files = record { join = join_slash; exists = has_one_log; read_dir = entries }

resolve_log_path-Resolves_example :
    Resolves files
      (codes "/run/h")
      (files.exists (log_in files (codes "/run/h")))
      (files.read_dir (codes "/run/h"))
      (resolve_log_path files (codes "/run/h") [])
resolve_log_path-Resolves_example = resolve_log_path-Resolves files (codes "/run/h")

abbrev echo_options : Options
echo_options = record {
  runtime_dir = codes "/run/h";
  plugin_id = codes "echo";
  message = codes "ping";
  level = [];
  component = [];
  event = [];
  method = [];
  generation = 0;
  capability = [];
  operation = [];
  correlation = [];
  limit = 5;
  format = codes "text";
  since = 0;
  reversed = true;
  summary = false;
}

abbrev parse_flags : List Text → Option (Options × List Text)
parse_flags args = some (echo_options, [])

abbrev log_files : Text → LogFiles
log_files path i = none

abbrev ago : ℕ → ℕ
ago d = 7

abbrev anywhere : Text → Bool
anywhere path = true

abbrev nobody : AdminRequest → AdminResult
nobody r = host_required

abbrev prints : Output → Bool
prints o = true

abbrev control : CtlEnv
control = record {
  parse_flags = parse_flags;
  files = files;
  log_files = log_files;
  ago = ago;
  listens = anywhere;
  call = nobody;
  writes = prints;
}

run-accepted_example :
    run (against exchange (some two_members) control) (codes "echo" ∷ [])
    ≢ reported (CtlError.call_failed bad_plugin_id)
run-accepted_example = run-accepted exchange (some two_members) control (codes "echo" ∷ [])
