-- ===== src/Ctl/Run.antt =====
-- cmd/rpcpluginctl/main.go, run: from the command line to the output and the exit code.
use rpc_plugin_system.Prelude.{
  ℕ, Bool, Option, none, some, List, [], ◌∷◌, Text, codes, is_empty, text_eq, if◌then◌else◌,
}
use rpc_plugin_system.EventLog.Types.{Event}
use rpc_plugin_system.EventLog.Read.{LogFiles, Summary, read_all, summarize}
use rpc_plugin_system.Admin.Service.{
  AdminRequest, AdminResponse, AdminResult, given, host_required, bad_plugin_id, host_error,
}
use rpc_plugin_system.Ctl.Args.{is_key, split_command_args}
use rpc_plugin_system.Ctl.Options.{
  Options, OptionError, validate_options, Files, LogPath, found, unreadable_dir, several_logs,
  resolve_log_path, filters_of,
}

pub data Output : Type 0 where
  usage : Output
  response : AdminResponse → Output
  summary_text summary_json : Summary → Output
  events_text events_json : List Event → Output

pub data CtlError : Type 0 where
  no_command bad_flags extra_args unknown_command : CtlError
  bad_option : OptionError → CtlError
  dial_failed : CtlError
  call_failed : AdminResult → CtlError
  no_log : LogPath → CtlError
  read_failed write_failed : CtlError

-- What a run prints to stdout, or the error it reports on stderr.
pub data CtlResult : Type 0 where
  printed : Output → CtlResult
  reported : CtlError → CtlResult

pub record CtlEnv : Type 0 where
  pub parse_flags : List Text → Option (Options × List Text)  -- FlagSet.Parse and Args
  pub files : Files
  pub log_files : Text → LogFiles  -- a log and its backups
  pub ago : ℕ → ℕ  -- Now().Add(-d)
  pub listens : Text → Bool  -- whether adminrpc.Dial gets a client
  pub call : AdminRequest → AdminResult  -- client.Call
  pub writes : Output → Bool

-- os.Exit's code
abbrev pub code : CtlResult → ℕ
code (printed o) = 0
code (reported CtlError.bad_flags) = 2
code (reported e) = 1

module _ (env : CtlEnv) where
  abbrev pub write_output : Output → CtlResult
  write_output o = if env.writes o then printed o else reported CtlError.write_failed

  abbrev pub after_call : AdminResult → CtlResult
  after_call (given r) = write_output (response r)
  after_call host_required = reported (CtlError.call_failed host_required)
  after_call bad_plugin_id = reported (CtlError.call_failed bad_plugin_id)
  after_call (host_error e) = reported (CtlError.call_failed (host_error e))

  -- The inner switch.
  abbrev pub request_of : Text → Text → Text → Option AdminRequest
  request_of command id message =
      if is_key command (codes "status" ∷ (codes "plugins" ∷ []))
      then some AdminRequest.plugin_list
      else if text_eq command (codes "plugin")
      then some (AdminRequest.one_plugin id)
      else if text_eq command (codes "capabilities")
      then some AdminRequest.capability_list
      else if text_eq command (codes "routes")
      then some AdminRequest.route_list
      else if text_eq command (codes "heartbeat")
      then some (AdminRequest.beat_to id)
      else if text_eq command (codes "echo")
      then some (AdminRequest.echo_to id message)
      else if text_eq command (codes "restart")
      then some (AdminRequest.restart_of id)
      else none

  abbrev pub ask : Options → AdminRequest → CtlResult
  ask o r =
      if env.listens (env.files.join o.runtime_dir (codes "admin.sock"))
      then after_call (env.call r)
      else reported CtlError.dial_failed

  abbrev pub show_events : Options → Option (List Event) → CtlResult
  show_events o none = reported CtlError.read_failed
  show_events o (some events) =
      if o.summary
      then (if text_eq o.format (codes "text")
          then write_output (summary_text (summarize events))
          else write_output (summary_json (summarize events)))
      else (if text_eq o.format (codes "text")
          then write_output (events_text events)
          else write_output (events_json events))

  abbrev pub show_log : Options → LogPath → CtlResult
  show_log o (found path) = show_events o (read_all (filters_of env.ago o) (env.log_files path))
  show_log o unreadable_dir = reported (CtlError.no_log unreadable_dir)
  show_log o several_logs = reported (CtlError.no_log several_logs)

  -- The cases of the outer switch after those of the inner one.
  abbrev pub run_other : Text → Options → CtlResult
  run_other command o =
      if text_eq command (codes "logs")
      then show_log o (resolve_log_path env.files o.runtime_dir o.plugin_id)
      else if is_key command (codes "help" ∷ (codes "-h" ∷ (codes "--help" ∷ [])))
      then printed usage
      else reported CtlError.unknown_command

  abbrev pub dispatch_request : Text → Options → Option AdminRequest → CtlResult
  dispatch_request command o (some r) = ask o r
  dispatch_request command o none = run_other command o

  abbrev pub run_checked : Text → Options → Option OptionError → CtlResult
  run_checked command o (some e) = reported (CtlError.bad_option e)
  run_checked command o none = dispatch_request command o (request_of command o.plugin_id o.message)

  abbrev pub after_flags : Text → Option (Options × List Text) → CtlResult
  after_flags command none = reported CtlError.bad_flags
  after_flags command (some (o, a ∷ more)) = reported CtlError.extra_args
  after_flags command (some (o, [])) =
      run_checked command o (validate_options command o.plugin_id o.limit o.format)

  abbrev pub run_split : Text × List Text → CtlResult
  run_split (command, flag_args) =
      if is_empty command
      then reported CtlError.no_command
      else after_flags command (env.parse_flags flag_args)

  unfoldable pub run : List Text → CtlResult
  unfolding split_command_args validate_options resolve_log_path
  run [] = reported CtlError.no_command
  run (a ∷ args) = run_split (split_command_args (a ∷ args))
