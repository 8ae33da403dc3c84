-- ===== src/Plugin/Logging.antt =====
-- pkg/plugin/logging.go: the events that a plugin writes. The file behind the logger is that of the
-- event log, with its rotation and its errors.
use rpc_plugin_system.Prelude.{ℕ, Option, none, some, [], ◌∷◌, Text, codes, ◌==◌, if◌then◌else◌}
use rpc_plugin_system.EventLog.Types.{Fields, Event, Sizes, Logger, LogError}
use rpc_plugin_system.EventLog.Rotate.{FileSystem}
use rpc_plugin_system.EventLog.Write.{write}
use rpc_plugin_system.EventLog.Observation.{
  Observation, ProviderError, Checked, accepted, rejected, provider_event, provider_diagnostic,
  diagnostic_reported,
}

-- A Logger whose pointers are not nil.
pub record PluginLogger : Type 0 where
  pub plugin_id : Text
  pub generation_id : ℕ
  pub pid : ℕ
  pub size : Sizes
  pub system : Logger → FileSystem  -- what the system answers to a write
  pub log : Logger

abbrev pub or_text : Text → Text → Text
or_text [] fallback = fallback
or_text (c ∷ s) fallback = c ∷ s

abbrev pub or_number : ℕ → ℕ → ℕ
or_number n fallback = if n == 0 then fallback else n

abbrev pub labelled : PluginLogger → Event → Event
labelled l e = record e {
  component = or_text e.component (codes "plugin");
  plugin_id = or_text e.plugin_id l.plugin_id;
  generation_id = or_number e.generation_id l.generation_id;
  pid = or_number e.pid l.pid;
  level = or_text e.level (codes "info");
}

abbrev pub write_to : PluginLogger → Event → Option LogError × Logger
write_to l e = write (l.system l.log) l.size e l.log

-- Event; its error is dropped by every caller in the SDK.
unfoldable pub write_event : Event → PluginLogger → PluginLogger
write_event e l = record l { log = (write_to l (labelled l e)).1 }

pub record Diagnostic : Type 0 where
  pub capability_id : Text
  pub operation_id : Text
  pub correlation_id : Text
  pub status : Text
  pub duration_ms : ℕ
  pub error_class : Text
  pub degraded_reason : Text
  pub message : Text
  pub details : Fields

abbrev pub observation_of : PluginLogger → Diagnostic → Observation
observation_of l d = record {
  level = codes "info";
  component = provider_diagnostic;
  event = diagnostic_reported;
  plugin_id = l.plugin_id;
  generation_id = l.generation_id;
  capability_id = d.capability_id;
  operation_id = d.operation_id;
  correlation_id = d.correlation_id;
  status = d.status;
  duration_ms = d.duration_ms;
  error_class = d.error_class;
  degraded_reason = d.degraded_reason;
  message = d.message;
  details = d.details;
}

pub data DiagnosticError : Type 0 where
  refused : ProviderError → DiagnosticError
  not_written : LogError → DiagnosticError

abbrev pub to_diagnostic : Option LogError → Option DiagnosticError
to_diagnostic none = none
to_diagnostic (some e) = some (not_written e)

abbrev pub after_check : PluginLogger → Checked Event → Option DiagnosticError × PluginLogger
after_check l (rejected e) = (some (refused e), l)
after_check l (accepted e) =
    let (failure, log) = write_to l (record e { pid = or_number e.pid l.pid }) in
    (to_diagnostic failure, record l { log = log })

-- ProviderDiagnostic
unfoldable pub report : Diagnostic → PluginLogger → Option DiagnosticError × PluginLogger
report d l = after_check l (provider_event (observation_of l d))
