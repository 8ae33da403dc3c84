-- ===== src/EventLog/Observation.antt =====
-- internal/eventlog/provider.go: ProviderEvent, with the order of its checks.
use rpc_plugin_system.Prelude.{
  ℕ, ◌^◌, Bool, true, false, not, ◌||◌, Option, none, some, List, [], ◌∷◌, Text, codes, text_eq,
  matches_id_pattern, is_blank, ltb, ◌==◌, if◌then◌else◌,
}
use rpc_plugin_system.EventLog.Types.{Fields, Event, empty_event}
use rpc_plugin_system.EventLog.Provider.{is_safe_field, are_safe_fields}

pub record Observation : Type 0 where
  pub level : Text
  pub component : Text
  pub event : Text
  pub plugin_id : Text
  pub generation_id : ℕ
  pub capability_id : Text
  pub operation_id : Text
  pub correlation_id : Text
  pub status : Text
  pub duration_ms : ℕ
  pub error_class : Text
  pub degraded_reason : Text
  pub message : Text
  pub details : Fields

pub data ProviderError : Type 0 where
  invalid_plugin_id generation_required field_required unsafe_field negative_duration :
      ProviderError
  unknown_status wrong_component wrong_status unknown_event unsafe_details : ProviderError

pub data Checked {ℓ} (A : Type ℓ) : Type ℓ where
  accepted : A → Checked A
  rejected : ProviderError → Checked A

-- The first error counts.
abbrev pub check : Bool → ProviderError → Option ProviderError → Option ProviderError
check true e rest = rest
check false e rest = some e

abbrev pub is_one_of : Text → List Text → Bool
is_one_of s [] = false
is_one_of s (t ∷ ts) = text_eq s t || is_one_of s ts

abbrev pub provider_statuses : List Text
provider_statuses =
    codes "started"
    ∷ codes "succeeded"
    ∷ codes "failed"
    ∷ codes "degraded"
    ∷ codes "unavailable"
    ∷ codes "rejected"
    ∷ []

-- The five events of the boundary with the status that each wants.
abbrev pub boundary_events : List (Text × Text)
boundary_events =
    (codes "provider_operation_started", codes "started")
    ∷ (codes "provider_operation_succeeded", codes "succeeded")
    ∷ (codes "provider_operation_failed", codes "failed")
    ∷ (codes "provider_operation_degraded", codes "degraded")
    ∷ (codes "provider_operation_unavailable", codes "unavailable")
    ∷ []

abbrev pub wanted_status : Text → List (Text × Text) → Option Text
wanted_status e [] = none
wanted_status e ((k, s) ∷ rest) = if text_eq e k then some s else wanted_status e rest

abbrev pub provider_boundary : Text
provider_boundary = codes "provider_boundary"

abbrev pub provider_diagnostic : Text
provider_diagnostic = codes "provider_diagnostic"

abbrev pub diagnostic_reported : Text
diagnostic_reported = codes "provider_diagnostic_reported"

abbrev pub diagnostic_rejected : Text
diagnostic_rejected = codes "provider_diagnostic_rejected"

-- validateProviderEventComponent, by the status that a boundary event wants
unfoldable pub validate_diagnostic : Text → Text → Text → Option ProviderError
validate_diagnostic component event status =
    if text_eq event diagnostic_reported
    then check (text_eq component provider_diagnostic) wrong_component none
    else if text_eq event diagnostic_rejected
    then check (text_eq component provider_diagnostic) wrong_component
        (check (text_eq status (codes "rejected")) wrong_status none)
    else some unknown_event

unfoldable pub validate_event : Text → Text → Text → Option Text → Option ProviderError
unfolding validate_diagnostic
validate_event component event status (some want) =
    check (text_eq component provider_boundary) wrong_component
      (check (text_eq status want) wrong_status none)
validate_event component event status none = validate_diagnostic component event status

-- requireProviderField, followed by the other checks
abbrev pub require_field : Text → Option ProviderError → Option ProviderError
require_field s rest =
    check (not (is_blank s)) field_required (check (is_safe_field s) unsafe_field rest)

unfoldable pub validate_observation : Observation → Option ProviderError
unfolding validate_event
validate_observation o = check (matches_id_pattern o.plugin_id) invalid_plugin_id (
    check (not (o.generation_id == 0)) generation_required (
      require_field o.capability_id (
        require_field o.operation_id (
          require_field o.correlation_id (
            check (is_safe_field o.error_class) unsafe_field (
              check (is_safe_field o.degraded_reason) unsafe_field (
                check (is_safe_field o.message) unsafe_field (
                  check (ltb o.duration_ms (2 ^ 63)) negative_duration (
                    check (is_one_of o.status provider_statuses) unknown_status (
                      validate_event o.component o.event o.status
                        (wanted_status o.event boundary_events)))))))))))

abbrev pub or_info : Text → Text
or_info [] = codes "info"
or_info (c ∷ s) = c ∷ s

abbrev pub event_of : Observation → Event
event_of o = record empty_event {
  level = or_info o.level;
  component = o.component;
  event = o.event;
  plugin_id = o.plugin_id;
  generation_id = o.generation_id;
  capability_id = o.capability_id;
  operation_id = o.operation_id;
  correlation_id = o.correlation_id;
  status = o.status;
  duration_ms = o.duration_ms;
  error_class = o.error_class;
  degraded_reason = o.degraded_reason;
  message = o.message;
  details = o.details;
}

abbrev pub after_validation : Observation → Option ProviderError → Checked Event
after_validation o (some e) = rejected e
after_validation o none =
    if are_safe_fields o.details then accepted (event_of o) else rejected unsafe_details

unfoldable pub provider_event : Observation → Checked Event
unfolding validate_observation
provider_event o = after_validation o (validate_observation o)
