-- ===== src/EventLog/Write.antt =====
-- internal/eventlog/eventlog.go: NewWithOptions and Write.
use rpc_plugin_system.Prelude.{
  ℕ, ◌*◌, ◌^◌, Bool, true, not, ◌||◌, Option, none, some, codes, is_empty, ltb, ◌==◌, if◌then◌else◌,
}
use rpc_plugin_system.EventLog.Types.{Event, Files, Logger, LogError, Sizes, set_file}
use rpc_plugin_system.EventLog.Rotate.{FileSystem, create, append_to_log, rotate_if_needed}

-- `n <= 0` on an int of 64 bits
abbrev pub is_not_positive : ℕ → Bool
is_not_positive n = (n == 0) || not (ltb n (2 ^ 63))

abbrev pub default_max_bytes : ℕ
default_max_bytes = 8 * 2 ^ 20

abbrev pub default_max_backups : ℕ
default_max_backups = 5

-- Opens the log of a directory that holds these files.
unfoldable pub new_with_options : Bool → ℕ → ℕ → Files → Option Logger
new_with_options open_ok max_bytes max_backups files =
    if not open_ok
    then none
    else some (record {
      max_bytes = if is_not_positive max_bytes then default_max_bytes else max_bytes;
      max_backups = if is_not_positive max_backups then default_max_backups else max_backups;
      is_open = true;
      files = set_file 0 (create (files 0)) files;
    })

-- The event as it is written.
unfoldable pub completed : ℕ → Event → Event
completed now e = record e {
  time = if e.time == 0 then now else e.time;
  level = if is_empty e.level then codes "info" else e.level;
  component = if is_empty e.component then codes "kernel" else e.component;
}

-- By the result of the rotation.
unfoldable pub after_rotation :
    FileSystem → Event → Option LogError × Logger → Option LogError × Logger
after_rotation sys e (some err, l) = (some err, l)
after_rotation sys e (none, l) =
    if not l.is_open || not sys.written
    then (some LogError.append_failed, l)
    else if not sys.synced
    then (some LogError.sync_failed, append_to_log e l)
    else (none, append_to_log e l)

unfoldable pub write : FileSystem → Sizes → Event → Logger → Option LogError × Logger
unfolding completed after_rotation rotate_if_needed
write sys size e l =
    if not sys.marshals
    then (some LogError.marshal_failed, l)
    else after_rotation sys (completed sys.now e)
        (rotate_if_needed sys size (size (completed sys.now e)) l)
