-- ===== src/EventLog/Types.antt =====
-- internal/eventlog/eventlog.go: the event, the logger and its files.
use rpc_plugin_system.Prelude.{
  ℕ, ◌+◌, Bool, Option, none, some, List, [], ◌∷◌, ◌++◌, Text, ◌==◌, if◌then◌else◌,
}

-- The dynamic values of `Details`. Of a number of any kind nothing is read; `other` is a value of a
-- type that no case of validateProviderDetailValue names.
mutual
  pub data Detail : Type 0 where
    null : Detail
    flag : Bool → Detail
    number : ℕ → Detail
    text : Text → Detail
    texts : List Text → Detail
    items : Details → Detail
    object : Fields → Detail
    other : ℕ → Detail

  pub data Details : Type 0 where
    nil : Details
    cons : Detail → Details → Details

  pub data Fields : Type 0 where
    end : Fields
    field : Text → Detail → Fields → Fields

-- Event; an omitted field is empty, and a zero time is 0. A duration is an int64, as its 64-bit
-- pattern.
pub record Event : Type 0 where
  pub time : ℕ
  pub level : Text
  pub component : Text
  pub event : Text
  pub plugin_id : Text
  pub generation_id : ℕ
  pub pid : ℕ
  pub socket_path : Text
  pub method : Text
  pub capability_id : Text
  pub operation_id : Text
  pub correlation_id : Text
  pub status : Text
  pub duration_ms : ℕ
  pub error_class : Text
  pub degraded_reason : Text
  pub message : Text
  pub error : Text
  pub reason : Text
  pub details : Fields

abbrev pub empty_event : Event
empty_event = record {
  time = 0;
  level = [];
  component = [];
  event = [];
  plugin_id = [];
  generation_id = 0;
  pid = 0;
  socket_path = [];
  method = [];
  capability_id = [];
  operation_id = [];
  correlation_id = [];
  status = [];
  duration_ms = 0;
  error_class = [];
  degraded_reason = [];
  message = [];
  error = [];
  reason = [];
  details = end;
}

-- The content of each file, oldest event first: number 0 is the log itself, number i its i-th
-- backup.
abbrev pub Files : Type 0
Files = ℕ → Option (List Event)

pub record Logger : Type 0 where
  pub max_bytes : ℕ
  pub max_backups : ℕ
  pub is_open : Bool  -- l.file is an open file
  pub files : Files

pub data LogError : Type 0 where
  marshal_failed stat_failed close_failed rename_failed open_failed append_failed sync_failed :
      LogError

-- The bytes of an event's line, the line feed included: json.Marshal is outside.
abbrev pub Sizes : Type 0
Sizes = Event → ℕ

abbrev pub lines_size : Sizes → List Event → ℕ
lines_size size [] = 0
lines_size size (e ∷ es) = size e + lines_size size es

abbrev pub set_file : ℕ → Option (List Event) → Files → Files
set_file i content fs = λ j. if j == i then content else fs j

abbrev pub append_line : Event → Option (List Event) → Option (List Event)
append_line e none = none
append_line e (some es) = some (es ++ e ∷ [])

abbrev pub file_size : Sizes → Option (List Event) → ℕ
file_size size none = 0
file_size size (some es) = lines_size size es
