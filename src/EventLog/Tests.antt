-- ===== src/EventLog/Tests.antt =====
-- internal/eventlog/eventlog.go: concrete writes.
use rpc_plugin_system.Prelude.{
  ◌≡◌, refl, true, none, some, [], ◌∷◌, ◌++◌, codes, arith, matches_id_pattern, ◌==◌, if◌then◌else◌,
}
use rpc_plugin_system.EventLog.Types.{Event, Logger, Sizes, number, text, end, field}
use rpc_plugin_system.EventLog.Provider.{
  unsafe_provider_text, looks_like_private_path, is_safe_field, is_safe_detail,
}
use rpc_plugin_system.EventLog.Observation.{
  Observation, accepted, provider_boundary, validate_diagnostic, validate_event,
  validate_observation, event_of, provider_event,
}
use rpc_plugin_system.EventLog.Display.{is_provider_event, redact_for_display}
use rpc_plugin_system.EventLog.Shown.{IsShown, redact_for_display-IsShown}
use rpc_plugin_system.EventLog.Accepted.{
  IsAccepted, provider_event-IsAccepted, redact_for_display-accepted,
}
use rpc_plugin_system.EventLog.Embedded.{
  exactly, both_separate, lowered, SameWords, at_end, next, unsafe_provider_text-embed,
}
use rpc_plugin_system.EventLog.Rotate.{FileSystem, rotation_event}
use rpc_plugin_system.EventLog.Write.{completed, write}
use rpc_plugin_system.EventLog.Read.{
  Filters, LogFiles, matches, read_one, read_file, read_paths, backups_from, existing_log_paths,
  arrange, arranged, read_all, summarize,
}
use rpc_plugin_system.EventLog.Selected.{history_lines, decode_all, select, read_all-selects}
use rpc_plugin_system.EventLog.Counted.{IsSummary, summarize-IsSummary}
use rpc_plugin_system.EventLog.Written.{IsGood, Appends, write-Appends}

abbrev pub good_system : FileSystem
good_system = record {
  now = 5;
  marshals = true;
  stat_ok = true;
  close_ok = true;
  remove_ok = true;
  rename_ok = λ i. true;
  open_ok = true;
  rotation_marshals = true;
  rotation_written = true;
  rotation_synced = true;
  written = true;
  synced = true;
}

good_system-IsGood : IsGood good_system
good_system-IsGood = record {
  marshals = refl;
  stat_ok = refl;
  close_ok = refl;
  remove_ok = refl;
  rename_ok = λ i. refl;
  open_ok = refl;
  rotation_marshals = refl;
  rotation_written = refl;
  rotation_synced = refl;
  written = refl;
  synced = refl;
}

abbrev said : Event
said = record (rotation_event 3) { message = codes "hi"; event = codes "plugin_started" }

-- Every line has ten bytes, and the limit is 25.
abbrev pub ten : Sizes
ten e = 10

abbrev pub full_log : Logger
full_log = record {
  max_bytes = 25;
  max_backups = 2;
  is_open = true;
  files =
      λ i. if i == 0 then some (said ∷ (said ∷ [])) else if i == 1 then some (said ∷ []) else none;
}

write-Appends_example :
    ((write good_system ten said full_log).0 ≡ none)
    × Appends good_system ten
        (completed 5 said)
        1
        (said ∷ (said ∷ []))
        full_log
        (write good_system ten said full_log).1
write-Appends_example =
    write-Appends good_system ten said 1 (said ∷ (said ∷ [])) full_log good_system-IsGood refl refl
      refl (omega arith)

abbrev from_info : Filters
from_info = record {
  level = codes "info";
  component = [];
  event = [];
  plugin_id = [];
  generation_id = 0;
  method = [];
  capability_id = [];
  operation_id = [];
  correlation_id = [];
  limit = 1;
  since = 0;
  reversed = true;
}

-- The log and one backup.
abbrev two_files : LogFiles
two_files i =
    if i == 0
    then some (some said ∷ [])
    else if i == 1
    then some (some (rotation_event 3) ∷ [])
    else none

newest_first : read_all from_info two_files ≡ some (said ∷ [])
unfolding read_all existing_log_paths backups_from read_paths read_file read_one arrange matches
newest_first = refl

read_all-selects_example :
    read_all from_info two_files
    ≡ arranged from_info (select from_info (decode_all (history_lines 5 two_files)))
read_all-selects_example = read_all-selects from_info two_files (some said ∷ []) refl

summarize-IsSummary_example : IsSummary (said ∷ (said ∷ [])) (summarize (said ∷ (said ∷ [])))
summarize-IsSummary_example = summarize-IsSummary (said ∷ (said ∷ []))

abbrev observed : Observation
observed = record {
  level = [];
  component = provider_boundary;
  event = codes "provider_operation_failed";
  plugin_id = codes "echo";
  generation_id = 1;
  capability_id = codes "mail";
  operation_id = codes "op-1";
  correlation_id = codes "c-1";
  status = codes "failed";
  duration_ms = 12;
  error_class = codes "remote";
  degraded_reason = [];
  message = codes "no answer";
  details = field (codes "tries") (number 3) end;
}

observed-accepted : provider_event observed ≡ accepted (event_of observed)
unfolding provider_event validate_observation validate_event validate_diagnostic is_safe_field
    unsafe_provider_text looks_like_private_path is_safe_detail matches_id_pattern
observed-accepted = refl

provider_event-IsAccepted_example : IsAccepted observed (event_of observed)
provider_event-IsAccepted_example =
    provider_event-IsAccepted observed (event_of observed) observed-accepted

redact_for_display-accepted_example : redact_for_display (event_of observed) ≡ event_of observed
redact_for_display-accepted_example =
    redact_for_display-accepted observed (event_of observed) observed-accepted

-- An event that did not pass through the checks.
abbrev leaking : Event
leaking = record (event_of observed) {
  message = codes "the token is x";
  socket_path = codes "/run/p/echo.sock";
  details = field (codes "home") (text (codes "/home/u")) end;
}

redact_for_display-IsShown_example : IsShown (redact_for_display leaking)
redact_for_display-IsShown_example =
    redact_for_display-IsShown leaking (unfold is_provider_event in refl)

-- Another case of each letter but two, and another separator.
api_key-SameWords : SameWords (codes "api_key") (codes "API-Key")
api_key-SameWords = next (lowered (omega arith) (omega arith) refl) (
    next (lowered (omega arith) (omega arith) refl) (
      next (lowered (omega arith) (omega arith) refl) (
        next (both_separate refl refl) (
          next (lowered (omega arith) (omega arith) refl)
            (next (exactly refl) (next (exactly refl) at_end))))))

unsafe_provider_text-embed_example :
    unsafe_provider_text (codes "my " ++ (codes "API-Key" ++ codes "!")) ≡ true
unsafe_provider_text-embed_example =
    unsafe_provider_text-embed (codes "my ") (codes "api_key") (codes "API-Key") (codes "!")
      api_key-SameWords (unfold unsafe_provider_text in refl)
