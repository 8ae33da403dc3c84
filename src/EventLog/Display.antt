-- ===== src/EventLog/Display.antt =====
-- internal/eventlog/read.go: RedactForDisplay.
use rpc_plugin_system.Prelude.{
  Bool, true, ◌||◌, List, [], ◌∷◌, Text, codes, is_empty, if◌then◌else◌,
}
use rpc_plugin_system.EventLog.Types.{flag, Fields, end, field, Event}
use rpc_plugin_system.EventLog.Provider.{is_unsafe, are_safe_fields}
use rpc_plugin_system.EventLog.Observation.{
  provider_boundary, provider_diagnostic, diagnostic_reported, diagnostic_rejected, is_one_of,
}

abbrev pub provider_events : List Text
provider_events =
    codes "provider_operation_started"
    ∷ codes "provider_operation_succeeded"
    ∷ codes "provider_operation_failed"
    ∷ codes "provider_operation_degraded"
    ∷ codes "provider_operation_unavailable"
    ∷ diagnostic_reported
    ∷ diagnostic_rejected
    ∷ []

unfoldable pub is_provider_event : Event → Bool
is_provider_event e =
    is_one_of e.component (provider_boundary ∷ (provider_diagnostic ∷ []))
    || is_one_of e.event provider_events

abbrev pub provider_redacted : Text
provider_redacted = codes "[redacted]"

unfoldable pub redact : Text → Text
redact s = if is_empty s then [] else if is_unsafe s then provider_redacted else s

unfoldable pub redact_details : Fields → Fields
redact_details end = end
redact_details (field k d fs) =
    if are_safe_fields (field k d fs)
    then field k d fs
    else field (codes "redacted") (flag true) end

abbrev pub redact_fields : Event → Event
redact_fields e = record e {
  socket_path = redact e.socket_path;
  capability_id = redact e.capability_id;
  operation_id = redact e.operation_id;
  correlation_id = redact e.correlation_id;
  error_class = redact e.error_class;
  degraded_reason = redact e.degraded_reason;
  message = redact e.message;
  error = redact e.error;
  reason = redact e.reason;
  details = redact_details e.details;
}

unfoldable pub redact_for_display : Event → Event
unfolding is_provider_event
redact_for_display e = if is_provider_event e then redact_fields e else e
