-- ===== src/EventLog/Rotate.antt =====
-- internal/eventlog/eventlog.go: rotateIfNeeded.
use rpc_plugin_system.Prelude.{
  ℕ, zero, suc, ◌+◌, Bool, true, false, not, ◌||◌, Option, none, some, List, [], codes, leb, ◌==◌,
  if◌then◌else◌,
}
use rpc_plugin_system.EventLog.Types.{
  Event, empty_event, Files, Logger, LogError, Sizes, set_file, append_line, file_size,
}

-- What the file system answers during one Write; `rename_ok i` is about the file of number i.
pub record FileSystem : Type 0 where
  pub now : ℕ
  pub marshals : Bool
  pub stat_ok : Bool
  pub close_ok : Bool
  pub remove_ok : Bool
  pub rename_ok : ℕ → Bool
  pub open_ok : Bool
  pub rotation_marshals : Bool
  pub rotation_written : Bool
  pub rotation_synced : Bool
  pub written : Bool
  pub synced : Bool

-- os.Rename of an existing file
abbrev pub rename_file : ℕ → ℕ → Files → Files
rename_file i j fs = set_file i none (set_file j (fs i) fs)

-- The round of the loop for one backup below the last, by whether it exists; `false` is a failure.
unfoldable pub shift_one : (ℕ → Bool) → ℕ → Option (List Event) → Files → Bool × Files
shift_one rename_ok i none fs = (true, fs)
shift_one rename_ok i (some es) fs =
    if rename_ok i then (true, rename_file i (suc i) fs) else (false, fs)

-- The loop from backup n down to backup 1.
unfoldable pub shift_backups : (ℕ → Bool) → ℕ → Files → Bool × Files
unfolding shift_one
shift_backups rename_ok zero fs = (true, fs)
shift_backups rename_ok (suc n) fs =
    let (fine, fs') = shift_one rename_ok (suc n) (fs (suc n)) fs in
    let rest = shift_backups rename_ok n fs' in if fine then rest else (false, fs')

-- The whole loop: the last backup is removed, and an error of that dropped.
unfoldable pub move_backups : Bool → (ℕ → Bool) → ℕ → Files → Bool × Files
unfolding shift_backups
move_backups remove_ok rename_ok zero fs = (true, fs)
move_backups remove_ok rename_ok (suc n) fs =
    shift_backups rename_ok n (if remove_ok then set_file (suc n) none fs else fs)

-- O_CREATE | O_APPEND
abbrev pub create : Option (List Event) → Option (List Event)
create none = some []
create (some es) = some es

abbrev pub open_log : Bool → Logger → Logger
open_log fine l =
    if fine then record l { is_open = true; files = set_file 0 (create (l.files 0)) l.files } else l

-- Without its details, the path and the two limits of the logger.
abbrev pub rotation_event : ℕ → Event
rotation_event now = record empty_event {
  time = now;
  level = codes "info";
  component = codes "runtime";
  event = codes "log_rotated";
  message = codes "event log rotated";
}

abbrev pub append_to_log : Event → Logger → Logger
append_to_log e l = record l { files = set_file 0 (append_line e (l.files 0)) l.files }

-- From the opening of the new file on.
unfoldable pub begin_log : FileSystem → Logger → Option LogError × Logger
begin_log sys l =
    if not sys.open_ok
    then (some LogError.open_failed, l)
    else if not sys.rotation_marshals
    then (some LogError.marshal_failed, open_log true l)
    else if not sys.rotation_written
    then (some LogError.append_failed, open_log true l)
    else if not sys.rotation_synced
    then (some LogError.sync_failed, append_to_log (rotation_event sys.now) (open_log true l))
    else (none, append_to_log (rotation_event sys.now) (open_log true l))

-- The rename of the log itself, by whether the moves of the backups went well.
unfoldable pub after_moves : FileSystem → Logger → Bool × Files → Option LogError × Logger
unfolding begin_log shift_one
after_moves sys l (false, fs) =
    (some LogError.rename_failed, open_log sys.open_ok (record l { files = fs }))
after_moves sys l (true, fs) =
    let (fine, fs') = shift_one sys.rename_ok 0 (fs 0) fs in
    if fine
    then begin_log sys (record l { files = fs' })
    else (some LogError.rename_failed, open_log sys.open_ok (record l { files = fs' }))

unfoldable pub rotate : FileSystem → Logger → Option LogError × Logger
unfolding after_moves move_backups
rotate sys l =
    after_moves sys (record l { is_open = false })
      (move_backups sys.remove_ok sys.rename_ok l.max_backups l.files)

-- A closed file has no Stat. A Close that fails leaves the file closed all the same.
unfoldable pub rotate_if_needed : FileSystem → Sizes → ℕ → Logger → Option LogError × Logger
unfolding rotate
rotate_if_needed sys size next l =
    if l.max_bytes == 0
    then (none, l)
    else if not l.is_open || not sys.stat_ok
    then (some LogError.stat_failed, l)
    else if leb (file_size size (l.files 0) + next) l.max_bytes
    then (none, l)
    else if not sys.close_ok
    then (some LogError.close_failed, record l { is_open = false })
    else rotate sys l
