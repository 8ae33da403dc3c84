-- ===== src/EventLog/Read.antt =====
-- internal/eventlog/read.go: ReadAll and Summarize.
use rpc_plugin_system.Prelude.{
  ℕ, zero, suc, ◌+◌, ◌^◌, Bool, true, false, not, ◌&&◌, ◌||◌, Option, none, some, List, [], ◌∷◌,
  ◌++◌, Text, is_empty, text_eq, ltb, ◌==◌, if◌then◌else◌,
}
use mathlib.Core.List.{reverse}
use rpc_plugin_system.EventLog.Types.{Event}

pub record Filters : Type 0 where
  pub level : Text
  pub component : Text
  pub event : Text
  pub plugin_id : Text
  pub generation_id : ℕ
  pub method : Text
  pub capability_id : Text
  pub operation_id : Text
  pub correlation_id : Text
  pub limit : ℕ  -- an int, as its 64-bit pattern
  pub since : ℕ
  pub reversed : Bool

-- The lines of a file, decoded; `none` is a line that json.Unmarshal refuses.
abbrev pub Lines : Type 0
Lines = List (Option Event)

abbrev pub LogFiles : Type 0
LogFiles = ℕ → Option Lines

-- A text filter that is empty lets everything through.
abbrev pub fits : Text → Text → Bool
fits want have = is_empty want || text_eq have want

unfoldable pub matches : Event → Filters → Bool
matches e f =
    fits f.level e.level
    && (fits f.component e.component
        && (fits f.event e.event
            && (fits f.plugin_id e.plugin_id
                && (((f.generation_id == 0) || (e.generation_id == f.generation_id))
                    && (fits f.method e.method
                        && (fits f.capability_id e.capability_id
                            && (fits f.operation_id e.operation_id
                                && (fits f.correlation_id e.correlation_id
                                    && ((f.since == 0) || not (ltb e.time f.since))))))))))

-- One file; `none` is an error.
unfoldable pub read_one : Filters → Lines → Option (List Event)
read_one f [] = some []
read_one f (none ∷ ls) = none
read_one f (some e ∷ ls) = elim (read_one f ls) [
  | none ↦ none
  | some es ↦ some (if matches e f then e ∷ es else es)
]

abbrev pub if_present : ℕ → Option Lines → List ℕ
if_present i none = []
if_present i (some ls) = i ∷ []

abbrev pub present : LogFiles → ℕ → List ℕ
present fs i = if_present i (fs i)

-- The backups from the oldest, n, to the newest that exist.
unfoldable pub backups_from : ℕ → LogFiles → List ℕ
backups_from zero fs = []
backups_from (suc n) fs = present fs (suc n) ++ backups_from n fs

-- existingLogPaths, with DefaultMaxBackups = 5; no path is an error.
unfoldable pub existing_log_paths : LogFiles → List ℕ
unfolding backups_from
existing_log_paths fs = backups_from 5 fs ++ present fs 0

unfoldable pub read_file : Filters → Option Lines → Option (List Event)
unfolding read_one
read_file f none = none
read_file f (some ls) = read_one f ls

unfoldable pub read_paths : Filters → LogFiles → List ℕ → Option (List Event)
unfolding read_file
read_paths f fs [] = some []
read_paths f fs (p ∷ ps) = elim (read_file f (fs p)) [
  | none ↦ none
  | some batch ↦ elim (read_paths f fs ps) [ none ↦ none | some es ↦ some (batch ++ es) ]
]

-- `events[:n]`, when there are more than n
abbrev pub take : ℕ → List Event → List Event
take zero es = []
take (suc n) [] = []
take (suc n) (e ∷ es) = e ∷ take n es

abbrev pub is_limited : Filters → Bool
is_limited f = ltb 0 f.limit && ltb f.limit (2 ^ 63)

-- The order and the limit.
unfoldable pub arrange : Filters → List Event → List Event
arrange f es =
    let ordered = if f.reversed then reverse es else es in
    if is_limited f then take f.limit ordered else ordered

abbrev pub arranged : Filters → Option (List Event) → Option (List Event)
arranged f none = none
arranged f (some es) = some (arrange f es)

abbrev pub is_none : List ℕ → Bool
is_none [] = true
is_none (p ∷ ps) = false

unfoldable pub read_all : Filters → LogFiles → Option (List Event)
unfolding existing_log_paths read_paths arrange
read_all f fs =
    if is_none (existing_log_paths fs)
    then none
    else arranged f (read_paths f fs (existing_log_paths fs))

-- A map from strings to counts.
abbrev pub Counts : Type 0
Counts = List (Text × ℕ)

-- m[key]++
unfoldable pub increment : Text → Counts → Counts
increment key [] = (key, 1) ∷ []
increment key ((k, n) ∷ rest) =
    if text_eq k key then (k, n + 1) ∷ rest else (k, n) ∷ increment key rest

pub record Summary : Type 0 where
  pub total : ℕ
  pub by_level : Counts
  pub by_event : Counts
  pub by_component : Counts

abbrev pub length : List Event → ℕ
length [] = 0
length (e ∷ es) = suc (length es)

abbrev pub add_event : Summary → Event → Summary
add_event s e = record s {
  by_level = increment e.level s.by_level;
  by_event = increment e.event s.by_event;
  by_component = increment e.component s.by_component;
}

unfoldable pub summarize_from : Summary → List Event → Summary
summarize_from s [] = s
summarize_from s (e ∷ es) = summarize_from (add_event s e) es

unfoldable pub summarize : List Event → Summary
unfolding summarize_from
summarize es =
    summarize_from (record { total = length es; by_level = []; by_event = []; by_component = [] })
      es
