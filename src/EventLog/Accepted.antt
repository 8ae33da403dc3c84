-- ===== src/EventLog/Accepted.antt =====
-- internal/eventlog/provider.go: what an accepted observation is known to be.
use rpc_plugin_system.Prelude.{
  ◌≡◌, ◌≢◌, ◌^◌, ◌<◌, refl, sym, ◌∙◌, ap, inl, inr, Bool, true, false, not, ◌&&◌, Option, none,
  some, List, [], ◌∷◌, map, Text, codes, text_eq, text_eq_iff, is_blank, is_space, is_between,
  contains, to_lower, matches_id_pattern, drop_while, ltb, ◌==◌, Bool-cases, arith,
}
use rpc_plugin_system.EventLog.Types.{Event}
use rpc_plugin_system.EventLog.Provider.{
  unsafe_detail_markers, normalize_code, contains_any, unsafe_provider_text,
  looks_like_private_path, is_unsafe, is_safe_field, are_safe_fields,
}
use rpc_plugin_system.EventLog.Observation.{
  Observation, ProviderError, accepted, check, is_one_of, provider_statuses, boundary_events,
  wanted_status, provider_boundary, provider_diagnostic, diagnostic_reported, diagnostic_rejected,
  validate_diagnostic, validate_event, require_field, validate_observation, event_of,
  after_validation, provider_event,
}
use rpc_plugin_system.EventLog.Display.{redact_for_display}
use rpc_plugin_system.EventLog.Shown.{IsShown, IsShown-same}

-- Every marker begins with a small letter.
abbrev begins_with_letter : Text → Bool
begins_with_letter [] = false
begins_with_letter (c ∷ s) = is_between 97 122 c

abbrev all_begin : List Text → Bool
all_begin [] = true
all_begin (m ∷ ms) = begins_with_letter (map to_lower m) && all_begin ms

contains-blank :
    (m s : Text)
    → begins_with_letter m ≡ true
    → is_blank s ≡ true
    → contains m (map normalize_code s) ≡ false
contains-blank [] s h b = ground arith
contains-blank (c ∷ m) [] h b = refl
contains-blank (c ∷ m) (x ∷ s) h b = ground (arith, contains-blank (c ∷ m) s)

contains_any-blank :
    (ms : List Text) (s : Text)
    → all_begin ms ≡ true
    → is_blank s ≡ true
    → contains_any ms (map normalize_code s) ≡ false
contains_any-blank [] s h b = refl
contains_any-blank (m ∷ ms) s h b =
    ground (arith, contains-blank (map to_lower m) s, contains_any-blank ms s)

drop_while-blank : (s : Text) → is_blank s ≡ true → drop_while is_space s ≡ []
drop_while-blank [] b = refl
drop_while-blank (c ∷ s) b = ground (arith, drop_while-blank s)

blank-safe : (s : Text) → is_blank s ≡ true → is_unsafe s ≡ false
unfolding unsafe_provider_text looks_like_private_path
blank-safe s b = rw (contains_any-blank unsafe_detail_markers s refl b, drop_while-blank s b) refl

is_safe_field-safe : (s : Text) → is_safe_field s ≡ true → is_unsafe s ≡ false
unfolding is_safe_field
is_safe_field-safe s h = elim (Bool-cases (is_blank s)) [
  | inl b ↦ blank-safe s b
  | inr b ↦ ground (arith, h, b)
]

check-none :
    (b : Bool) (e : ProviderError) (rest : Option ProviderError)
    → check b e rest ≡ none
    → (b ≡ true) × (rest ≡ none)
check-none true e rest h = (refl, h)
check-none false e rest h = ground (arith, h)

require_field-none :
    (s : Text) (rest : Option ProviderError)
    → require_field s rest ≡ none
    → (is_blank s ≡ false) × (is_safe_field s ≡ true) × (rest ≡ none)
require_field-none s rest h =
    let (full, more) = check-none (not (is_blank s)) _ _ h in
    let (safe, last) = check-none (is_safe_field s) _ _ more in (ground (arith, full), safe, last)

-- The component, the event and the status go together.
pub data Agrees (component event status : Text) : Type 0 where
  at_boundary :
      component ≡ provider_boundary
      → wanted_status event boundary_events ≡ some status
      → Agrees component event status
  reported :
      component ≡ provider_diagnostic
      → event ≡ diagnostic_reported
      → is_one_of status provider_statuses ≡ true
      → Agrees component event status
  turned_down :
      component ≡ provider_diagnostic
      → event ≡ diagnostic_rejected
      → status ≡ codes "rejected"
      → Agrees component event status

validate_diagnostic-Agrees :
    (component event status : Text)
    → is_one_of status provider_statuses ≡ true
    → validate_diagnostic component event status ≡ none
    → Agrees component event status
unfolding validate_diagnostic
validate_diagnostic-Agrees component event status k h =
    elim (Bool-cases (text_eq event diagnostic_reported)) [
      | inl r ↦
          reported ((text_eq_iff component provider_diagnostic).0 (check-none _ _ _ (rw r at h)).0)
            ((text_eq_iff event diagnostic_reported).0 r) k
      | inr r ↦ elim (Bool-cases (text_eq event diagnostic_rejected)) [
        | inl t ↦
            let (c, more) =
              check-none (text_eq component provider_diagnostic) _ _ (rw (r, t) at h) in
            turned_down ((text_eq_iff component provider_diagnostic).0 c)
              ((text_eq_iff event diagnostic_rejected).0 t)
              ((text_eq_iff status (codes "rejected")).0 (check-none _ _ _ more).0)
        | inr t ↦ absurd (ground (arith, h, r, t))
      ]
    ]

validate_event-Agrees :
    (component event status : Text) (o : Option Text)
    → wanted_status event boundary_events ≡ o
    → is_one_of status provider_statuses ≡ true
    → validate_event component event status o ≡ none
    → Agrees component event status
unfolding validate_event
validate_event-Agrees component event status (some want) w k h =
    let (c, more) = check-none (text_eq component provider_boundary) _ _ h in
    let (s, last) = check-none (text_eq status want) _ _ more in
    at_boundary ((text_eq_iff component provider_boundary).0 c)
      (w ∙ ap some (sym ((text_eq_iff status want).0 s)))
validate_event-Agrees component event status none w k h =
    validate_diagnostic-Agrees component event status k h

-- What is known of the event that an accepted observation becomes.
pub record IsAccepted (o : Observation) (e : Event) : Type 0 where
  pub event : e ≡ event_of o
  pub valid_id : matches_id_pattern o.plugin_id ≡ true
  pub generation : o.generation_id ≢ 0
  pub capability : is_blank o.capability_id ≡ false
  pub operation : is_blank o.operation_id ≡ false
  pub correlation : is_blank o.correlation_id ≡ false
  pub duration : o.duration_ms < 2 ^ 63
  pub agrees : Agrees o.component o.event o.status
  pub shown : IsShown e

record IsValidated (o : Observation) : Type 0 where
  valid_id : matches_id_pattern o.plugin_id ≡ true
  generation : (o.generation_id == 0) ≡ false
  capability : (is_blank o.capability_id ≡ false) × (is_safe_field o.capability_id ≡ true)
  operation : (is_blank o.operation_id ≡ false) × (is_safe_field o.operation_id ≡ true)
  correlation : (is_blank o.correlation_id ≡ false) × (is_safe_field o.correlation_id ≡ true)
  error_class : is_safe_field o.error_class ≡ true
  degraded_reason : is_safe_field o.degraded_reason ≡ true
  message : is_safe_field o.message ≡ true
  duration : ltb o.duration_ms (2 ^ 63) ≡ true
  agrees : Agrees o.component o.event o.status

validate_observation-IsValidated : (o : Observation) → validate_observation o ≡ none → IsValidated o
unfolding validate_observation
validate_observation-IsValidated o h =
    let (id, h₁) = check-none _ _ _ h in
    let (generation, h₂) = check-none (not (o.generation_id == 0)) _ _ h₁ in
    let (c, c', h₃) = require_field-none o.capability_id _ h₂ in
    let (p, p', h₄) = require_field-none o.operation_id _ h₃ in
    let (r, r', h₅) = require_field-none o.correlation_id _ h₄ in
    let (class, h₆) = check-none _ _ _ h₅ in
    let (degraded, h₇) = check-none _ _ _ h₆ in
    let (message, h₈) = check-none _ _ _ h₇ in
    let (duration, h₉) = check-none _ _ _ h₈ in
    let (status, last) = check-none _ _ _ h₉ in
    record {
      valid_id = id;
      generation = ground (arith, generation);
      capability = (c, c');
      operation = (p, p');
      correlation = (r, r');
      error_class = class;
      degraded_reason = degraded;
      message = message;
      duration = duration;
      agrees = validate_event-Agrees o.component o.event o.status _ refl status last;
    }

IsValidated-IsShown :
    (o : Observation) → IsValidated o → are_safe_fields o.details ≡ true → IsShown (event_of o)
IsValidated-IsShown o v d = record {
  socket_path = blank-safe [] refl;
  capability_id = is_safe_field-safe o.capability_id v.capability.1;
  operation_id = is_safe_field-safe o.operation_id v.operation.1;
  correlation_id = is_safe_field-safe o.correlation_id v.correlation.1;
  error_class = is_safe_field-safe o.error_class v.error_class;
  degraded_reason = is_safe_field-safe o.degraded_reason v.degraded_reason;
  message = is_safe_field-safe o.message v.message;
  error = blank-safe [] refl;
  reason = blank-safe [] refl;
  details = d;
}

accepted-event :
    (o : Observation) (e : Event)
    → are_safe_fields o.details ≡ true
    → after_validation o none ≡ accepted e
    → e ≡ event_of o
accepted-event o e d h = let h' = rw d at h in cc

after_validation-IsAccepted :
    (o : Observation) (v : Option ProviderError) (e : Event)
    → validate_observation o ≡ v
    → after_validation o v ≡ accepted e
    → IsAccepted o e
after_validation-IsAccepted o (some err) e q h = absurd (ground (arith, h))
after_validation-IsAccepted o none e q h = elim (Bool-cases (are_safe_fields o.details)) [
  | inl d ↦
      let v = validate_observation-IsValidated o q in
      let same : e ≡ event_of o = accepted-event o e d h in
      record {
        event = same;
        valid_id = v.valid_id;
        generation = ground (arith, v.generation);
        capability = v.capability.0;
        operation = v.operation.0;
        correlation = v.correlation.0;
        duration = ground (arith, v.duration);
        agrees = v.agrees;
        shown = rw same (IsValidated-IsShown o v d);
      }
  | inr d ↦ absurd (ground (arith, h, d))
]

-- An accepted observation has a valid plugin id, a generation, the three ids filled in, a duration
-- that is not negative, and a component, event and status that go together; it becomes the event
-- with its own fields. The capability, operation and correlation ids, the error class, the reason for
-- degradation, the message and the texts among the values of the details, at every depth, hold no
-- marker of unsafe material and no private path, and the keys of the details hold no marker; nothing
-- of this is said of the level and the plugin id.
pub provider_event-IsAccepted :
    (o : Observation) (e : Event) → provider_event o ≡ accepted e → IsAccepted o e
unfolding provider_event
provider_event-IsAccepted o e h = after_validation-IsAccepted o (validate_observation o) e refl h

-- The operator sees every event that was accepted as it was written.
pub redact_for_display-accepted :
    (o : Observation) (e : Event) → provider_event o ≡ accepted e → redact_for_display e ≡ e
redact_for_display-accepted o e h = IsShown-same e (provider_event-IsAccepted o e h).shown
