-- ===== src/Plugin/Diagnosed.antt =====
-- pkg/plugin/logging.go, ProviderDiagnostic: what a provider gets into the log.
use rpc_plugin_system.Prelude.{ℕ, ◌≡◌, refl, ap, Option, none, some}
use rpc_plugin_system.EventLog.Types.{Event, Logger, LogError}
use rpc_plugin_system.EventLog.Write.{write}
use rpc_plugin_system.EventLog.Observation.{
  Checked, accepted, rejected, provider_event, provider_diagnostic, diagnostic_reported,
}
use rpc_plugin_system.EventLog.Accepted.{provider_event-IsAccepted}
use rpc_plugin_system.EventLog.Shown.{IsShown, IsShown-same}
use rpc_plugin_system.EventLog.Display.{redact_for_display}
use rpc_plugin_system.Plugin.Logging.{
  PluginLogger, Diagnostic, DiagnosticError, refused, not_written, to_diagnostic, write_to,
  observation_of, after_check, or_number, report,
}

-- The log after a write, with this result, of an event of this plugin and generation that is shown to
-- the operator as it stands; nothing else has changed.
pub record IsReported (l : PluginLogger) (result : Option LogError) (l' : PluginLogger)
    : Type 0 where
  pub entry : Event
  pub written : write (l.system l.log) l.size entry l.log ≡ (result, l'.log)
  pub rest : l' ≡ record l { log = l'.log }
  pub component : entry.component ≡ provider_diagnostic
  pub event : entry.event ≡ diagnostic_reported
  pub plugin_id : entry.plugin_id ≡ l.plugin_id
  pub generation : entry.generation_id ≡ l.generation_id
  pub shown : redact_for_display entry ≡ entry

abbrev pub Reports : PluginLogger → Option DiagnosticError × PluginLogger → Type 0
Reports l (some (refused e), l') = l' ≡ l
Reports l (some (not_written e), l') = IsReported l (some e) l'
Reports l (none, l') = IsReported l none l'

with_pid-IsShown : (e : Event) (n : ℕ) → IsShown e → IsShown (record e { pid = n })
with_pid-IsShown e n s = record {
  socket_path = s.socket_path;
  capability_id = s.capability_id;
  operation_id = s.operation_id;
  correlation_id = s.correlation_id;
  error_class = s.error_class;
  degraded_reason = s.degraded_reason;
  message = s.message;
  error = s.error;
  reason = s.reason;
  details = s.details;
}

written-Reports :
    (l : PluginLogger) (entry : Event) (x : Option LogError × Logger)
    → write_to l entry ≡ x
    → entry.component ≡ provider_diagnostic
    → entry.event ≡ diagnostic_reported
    → entry.plugin_id ≡ l.plugin_id
    → entry.generation_id ≡ l.generation_id
    → redact_for_display entry ≡ entry
    → Reports l (to_diagnostic x.0, record l { log = x.1 })
written-Reports l entry (none, log) h c v p g r = record {
  entry = entry;
  written = h;
  rest = refl;
  component = c;
  event = v;
  plugin_id = p;
  generation = g;
  shown = r;
}
written-Reports l entry (some e, log) h c v p g r = record {
  entry = entry;
  written = h;
  rest = refl;
  component = c;
  event = v;
  plugin_id = p;
  generation = g;
  shown = r;
}

after_check-Reports :
    (l : PluginLogger) (d : Diagnostic) (c : Checked Event)
    → provider_event (observation_of l d) ≡ c
    → Reports l (after_check l c)
after_check-Reports l d (rejected e) h = refl
after_check-Reports l d (accepted e) h =
    let a = provider_event-IsAccepted (observation_of l d) e h in
    written-Reports l (record e { pid = or_number e.pid l.pid }) _ refl
      (ap (λ x. x.component) a.event) (ap (λ x. x.event) a.event) (ap (λ x. x.plugin_id) a.event)
      (ap (λ x. x.generation_id) a.event)
      (IsShown-same _ (with_pid-IsShown e (or_number e.pid l.pid) a.shown))

-- A diagnostic is refused and leaves the logger as it is; or the log is that of one write, which may
-- fail, of an event under the component of diagnostics and the plugin's own id and generation, which
-- an operator sees unredacted, and the result is that of this write.
pub report-Reports : (l : PluginLogger) (d : Diagnostic) → Reports l (report d l)
unfolding report
report-Reports l d = after_check-Reports l d (provider_event (observation_of l d)) refl
