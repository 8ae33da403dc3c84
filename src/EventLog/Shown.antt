-- ===== src/EventLog/Shown.antt =====
-- internal/eventlog/read.go, RedactForDisplay: what is shown of a provider's event.
use rpc_plugin_system.Prelude.{◌≡◌, refl, true, false, [], ◌∷◌, Text, is_empty, if_cases}
use rpc_plugin_system.EventLog.Types.{Fields, end, field, Event}
use rpc_plugin_system.EventLog.Provider.{
  is_unsafe, are_safe_fields, is_safe_detail, unsafe_provider_text, looks_like_private_path,
}
use rpc_plugin_system.EventLog.Display.{
  is_provider_event, provider_redacted, redact, redact_details, redact_fields, redact_for_display,
}

-- What stands in for an unsafe text is safe itself.
redacted-safe : is_unsafe provider_redacted ≡ false
unfolding unsafe_provider_text looks_like_private_path
redacted-safe = refl

empty-safe : is_unsafe [] ≡ false
unfolding unsafe_provider_text looks_like_private_path
empty-safe = refl

redact-safe : (s : Text) → is_unsafe (redact s) ≡ false
unfolding redact
redact-safe s =
    if_cases (λ t. is_unsafe t ≡ false) (is_empty s) (λ h. empty-safe)
      (λ h. if_cases (λ t. is_unsafe t ≡ false) (is_unsafe s) (λ k. redacted-safe) (λ k. k))

-- A safe text is left alone.
pub redact-same : (s : Text) → is_unsafe s ≡ false → redact s ≡ s
unfolding redact
redact-same [] h = refl
redact-same (c ∷ s) h = rw h refl

redact_details-safe : (fs : Fields) → are_safe_fields (redact_details fs) ≡ true
unfolding redact_details
redact_details-safe end = unfold is_safe_detail in refl
redact_details-safe (field k d fs) =
    if_cases (λ t. are_safe_fields t ≡ true) (are_safe_fields (field k d fs)) (λ h. h)
      (λ h. unfold is_safe_detail in unfold unsafe_provider_text in refl)

pub redact_details-same : (fs : Fields) → are_safe_fields fs ≡ true → redact_details fs ≡ fs
unfolding redact_details
redact_details-same end h = refl
redact_details-same (field k d fs) h = rw h refl

-- Nine texts free of markers and of private paths, and details that the code accepts.
pub record IsShown (e : Event) : Type 0 where
  pub socket_path : is_unsafe e.socket_path ≡ false
  pub capability_id : is_unsafe e.capability_id ≡ false
  pub operation_id : is_unsafe e.operation_id ≡ false
  pub correlation_id : is_unsafe e.correlation_id ≡ false
  pub error_class : is_unsafe e.error_class ≡ false
  pub degraded_reason : is_unsafe e.degraded_reason ≡ false
  pub message : is_unsafe e.message ≡ false
  pub error : is_unsafe e.error ≡ false
  pub reason : is_unsafe e.reason ≡ false
  pub details : are_safe_fields e.details ≡ true

redact_fields-IsShown : (e : Event) → IsShown (redact_fields e)
redact_fields-IsShown e = record {
  socket_path = redact-safe e.socket_path;
  capability_id = redact-safe e.capability_id;
  operation_id = redact-safe e.operation_id;
  correlation_id = redact-safe e.correlation_id;
  error_class = redact-safe e.error_class;
  degraded_reason = redact-safe e.degraded_reason;
  message = redact-safe e.message;
  error = redact-safe e.error;
  reason = redact-safe e.reason;
  details = redact_details-safe e.details;
}

-- An event that is free of them is shown as it is.
pub IsShown-same : (e : Event) → IsShown e → redact_for_display e ≡ e
unfolding redact_for_display
IsShown-same e s =
    if_cases (λ x. x ≡ e) (is_provider_event e)
      (λ h. simp (
        redact-same e.socket_path s.socket_path,
        redact-same e.capability_id s.capability_id,
        redact-same e.operation_id s.operation_id,
        redact-same e.correlation_id s.correlation_id,
        redact-same e.error_class s.error_class,
        redact-same e.degraded_reason s.degraded_reason,
        redact-same e.message s.message,
        redact-same e.error s.error,
        redact-same e.reason s.reason,
        redact_details-same e.details s.details,
      ))
      (λ h. refl)

-- A shown event of a provider holds, in its nine redacted texts (the socket path, the capability,
-- operation and correlation ids, the error class, the reason for degradation, the message, the error
-- and the reason), no marker of unsafe material and nothing that looks like a private path. Neither do
-- the texts among the values of its details, at every depth; the keys of the details hold no marker,
-- but a key may be a private path.
pub redact_for_display-IsShown :
    (e : Event) → is_provider_event e ≡ true → IsShown (redact_for_display e)
unfolding redact_for_display
redact_for_display-IsShown e h = rw h (redact_fields-IsShown e)
