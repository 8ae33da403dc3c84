-- ===== src/Ctl/Composed.antt =====
-- cmd/rpcpluginctl and internal/adminrpc: the control program against the service of the daemon.
use rpc_plugin_system.Prelude.{
  ℕ, ◌≡◌, ◌≢◌, refl, sym, ◌∙◌, Bool, true, false, Option, none, some, List, [], ◌∷◌, Text, codes,
  is_empty, text_eq, matches_id_pattern-chars, ap, arith, if_cases,
}
use mathlib.Core.Path.{subst}
use rpc_plugin_system.Host.Types.{Member}
use rpc_plugin_system.Host.Build.{validate_plugin_id}
use rpc_plugin_system.Host.Routing.{Exchange}
use rpc_plugin_system.EventLog.Types.{Event}
use rpc_plugin_system.EventLog.Read.{read_all, summarize}
use rpc_plugin_system.Admin.Service.{
  AdminRequest, AdminResult, given, host_required, bad_plugin_id, host_error, serve_admin,
}
use rpc_plugin_system.Admin.Checked.{
  named, is_admissible, is_for, Admits, Serves, serve_admin-Serves,
}
use rpc_plugin_system.Ctl.Args.{is_key, split_command_args}
use rpc_plugin_system.Ctl.Options.{
  Options, OptionError, plugin_commands, validate_options, LogPath, found, unreadable_dir,
  several_logs, resolve_log_path, filters_of,
}
use rpc_plugin_system.Ctl.Run.{
  Output, CtlError, CtlResult, reported, CtlEnv, write_output, after_call, request_of, show_events,
  show_log, run_other, dispatch_request, run_checked, after_flags, run_split, run,
}

-- The id of a request passes the service's check once the options are valid.
abbrev IsAdmitted : Option AdminRequest → Type 0
IsAdmitted none = Unit {0}
IsAdmitted (some r) = is_admissible (named r) ≡ true

valid-id :
    (command id : Text) (limit : ℕ) (format : Text)
    → validate_options command id limit format ≡ none
    → is_key command plugin_commands ≡ true
    → validate_plugin_id id ≡ true
unfolding validate_options
valid-id command id limit format h k = ground (arith, h, k)

request_of-IsAdmitted :
    (env : CtlEnv) (command id message : Text)
    → (is_key command plugin_commands ≡ true → validate_plugin_id id ≡ true)
    → IsAdmitted (request_of env command id message)
request_of-IsAdmitted env command id message v =
    if_cases IsAdmitted (is_key command (codes "status" ∷ (codes "plugins" ∷ []))) (λ h. refl)
      (λ h.
        if_cases IsAdmitted (text_eq command (codes "plugin")) (λ k. v (ground (arith, k)))
          (λ h.
            if_cases IsAdmitted (text_eq command (codes "capabilities")) (λ k. refl)
              (λ h.
                if_cases IsAdmitted (text_eq command (codes "routes")) (λ k. refl)
                  (λ h.
                    if_cases IsAdmitted (text_eq command (codes "heartbeat"))
                      (λ k. v (ground (arith, k)))
                      (λ h.
                        if_cases IsAdmitted (text_eq command (codes "echo"))
                          (λ k. v (ground (arith, k)))
                          (λ h.
                            if_cases IsAdmitted (text_eq command (codes "restart"))
                              (λ k. v (ground (arith, k))) (λ h. tt)))))))

-- A result that is not the service's refusal of an id.
abbrev is_id_refusal : CtlResult → Bool
is_id_refusal (reported (CtlError.call_failed bad_plugin_id)) = true
is_id_refusal r = false

abbrev Accepted : CtlResult → Type 0
Accepted r = is_id_refusal r ≡ false

write_output-Accepted : (env : CtlEnv) (o : Output) → Accepted (write_output env o)
write_output-Accepted env o = if_cases Accepted (env.writes o) (λ h. refl) (λ h. refl)

after_call-Accepted :
    (env : CtlEnv) (r : AdminResult) → r ≢ bad_plugin_id → Accepted (after_call env r)
after_call-Accepted env (given r) n = write_output-Accepted env (Output.response r)
after_call-Accepted env host_required n = refl
after_call-Accepted env bad_plugin_id n = elim (n refl) [ ]
after_call-Accepted env (host_error e) n = refl

show_events-Accepted :
    (env : CtlEnv) (o : Options) (es : Option (List Event)) → Accepted (show_events env o es)
show_events-Accepted env o none = refl
show_events-Accepted env o (some es) =
    if_cases Accepted o.summary
      (λ h.
        if_cases Accepted (text_eq o.format (codes "text"))
          (λ k. write_output-Accepted env (Output.summary_text (summarize es)))
          (λ k. write_output-Accepted env (Output.summary_json (summarize es))))
      (λ h.
        if_cases Accepted (text_eq o.format (codes "text"))
          (λ k. write_output-Accepted env (Output.events_text es))
          (λ k. write_output-Accepted env (Output.events_json es)))

show_log-Accepted : (env : CtlEnv) (o : Options) (x : LogPath) → Accepted (show_log env o x)
show_log-Accepted env o (found path) =
    show_events-Accepted env o (read_all (filters_of env.ago o) (env.log_files path))
show_log-Accepted env o unreadable_dir = refl
show_log-Accepted env o several_logs = refl

run_other-Accepted :
    (env : CtlEnv) (command : Text) (o : Options) → Accepted (run_other env command o)
run_other-Accepted env command o =
    if_cases Accepted (text_eq command (codes "logs"))
      (λ h. show_log-Accepted env o (resolve_log_path env.files o.runtime_dir o.plugin_id))
      (λ h.
        if_cases Accepted (is_key command (codes "help" ∷ (codes "-h" ∷ (codes "--help" ∷ []))))
          (λ k. refl) (λ k. refl))

-- A service that refuses no request for its id when the id passes the check.
abbrev Honest : CtlEnv → Type 0
Honest env = (r : AdminRequest) → is_admissible (named r) ≡ true → env.call r ≢ bad_plugin_id

dispatch_request-Accepted :
    (env : CtlEnv) (command : Text) (o : Options) (x : Option AdminRequest)
    → Honest env
    → IsAdmitted x
    → Accepted (dispatch_request env command o x)
dispatch_request-Accepted env command o none honest a = run_other-Accepted env command o
dispatch_request-Accepted env command o (some r) honest a =
    if_cases Accepted (env.listens (env.files.join o.runtime_dir (codes "admin.sock")))
      (λ h. after_call-Accepted env (env.call r) (honest r a)) (λ h. refl)

run_checked-Accepted :
    (env : CtlEnv) (command : Text) (o : Options) (x : Option OptionError)
    → Honest env
    → validate_options command o.plugin_id o.limit o.format ≡ x
    → Accepted (run_checked env command o x)
run_checked-Accepted env command o (some e) honest h = refl
run_checked-Accepted env command o none honest h =
    dispatch_request-Accepted env command o (request_of env command o.plugin_id o.message) honest (
      request_of-IsAdmitted env command o.plugin_id o.message
        (valid-id command o.plugin_id o.limit o.format h))

after_flags-Accepted :
    (env : CtlEnv) (command : Text) (x : Option (Options × List Text))
    → Honest env
    → Accepted (after_flags env command x)
after_flags-Accepted env command none honest = refl
after_flags-Accepted env command (some (o, a ∷ more)) honest = refl
after_flags-Accepted env command (some (o, [])) honest =
    run_checked-Accepted env command o _ honest refl

run_split-Accepted : (env : CtlEnv) (x : Text × List Text) → Honest env → Accepted (run_split env x)
run_split-Accepted env (command, flag_args) honest =
    if_cases Accepted (is_empty command) (λ h. refl)
      (λ h. after_flags-Accepted env command (env.parse_flags flag_args) honest)

run-Accepted : (env : CtlEnv) (args : List Text) → Honest env → Accepted (run env args)
unfolding run
run-Accepted env [] honest = refl
run-Accepted env (a ∷ args) honest = run_split-Accepted env (split_command_args (a ∷ args)) honest

empty-other : (o : Option Text) → is_admissible o ≡ true → is_for [] o ≡ false
unfolding validate_plugin_id
empty-other none a = refl
empty-other (some []) a = ground (arith, a, matches_id_pattern-chars [])
empty-other (some (c ∷ s)) a = refl

Serves-accepted :
    (r : AdminRequest) (ms : List Member) (x : AdminResult × Option (List Member))
    → is_admissible (named r) ≡ true
    → Serves r [] (some ms) x
    → x.0 ≢ bad_plugin_id
Serves-accepted r ms x a (y, same, admits) e =
    let admitted : Admits true [] ms y = subst (λ b. Admits b [] ms y) a admits in
    admitted.0 (ap (λ z. z.0) (sym same) ∙ e)

serve_admin-honest :
    (ex : Exchange) (host : Option (List Member)) (r : AdminRequest)
    → is_admissible (named r) ≡ true
    → (serve_admin ex r host).0 ≢ bad_plugin_id
serve_admin-honest ex none r a = λ e. unfold serve_admin in ground arith
serve_admin-honest ex (some ms) r a =
    Serves-accepted r ms (serve_admin ex r (some ms)) a
      (serve_admin-Serves ex r (some ms) [] (empty-other (named r) a))

-- The control program as it meets one daemon, with or without a host.
abbrev pub against : Exchange → Option (List Member) → CtlEnv → CtlEnv
against ex host env = record env { call = λ r. (serve_admin ex r host).0 }

-- Whatever the command line is, a run of the control program against the daemon's service never fails
-- because the service refuses the id of a request: every id that it sends has passed its own check.
pub run-accepted :
    (ex : Exchange) (host : Option (List Member)) (env : CtlEnv) (args : List Text)
    → run (against ex host env) args ≢ reported (CtlError.call_failed bad_plugin_id)
run-accepted ex host env args e =
    ground (arith, run-Accepted (against ex host env) args (serve_admin-honest ex host), e)
