-- ===== src/EventLog/Selected.antt =====
-- internal/eventlog/read.go: what ReadAll selects.
use rpc_plugin_system.Prelude.{
  ℕ, zero, suc, ◌≡◌, refl, sym, ◌∙◌, ap, false, Option, none, some, List, [], ◌∷◌, ◌++◌, arith,
  if◌then◌else◌,
}
use mathlib.Core.List.{append-nil, append_assoc}
use rpc_plugin_system.EventLog.Types.{Event}
use rpc_plugin_system.EventLog.Read.{
  Filters, Lines, LogFiles, matches, read_one, if_present, present, backups_from,
  existing_log_paths, read_file, read_paths, arranged, is_none, read_all,
}

-- The whole log, decoded, from the oldest line on.
abbrev pub lines_of : Option Lines → Lines
lines_of none = []
lines_of (some ls) = ls

abbrev pub history_lines : ℕ → LogFiles → Lines
history_lines zero fs = lines_of (fs 0)
history_lines (suc n) fs = lines_of (fs (suc n)) ++ history_lines n fs

abbrev pub decode_all : Lines → Option (List Event)
decode_all [] = some []
decode_all (none ∷ ls) = none
decode_all (some e ∷ ls) = elim (decode_all ls) [ none ↦ none | some es ↦ some (e ∷ es) ]

abbrev pub selected : Filters → List Event → List Event
selected f [] = []
selected f (e ∷ es) = if matches e f then e ∷ selected f es else selected f es

abbrev pub select : Filters → Option (List Event) → Option (List Event)
select f none = none
select f (some es) = some (selected f es)

abbrev joined : Option (List Event) → Option (List Event) → Option (List Event)
joined none b = none
joined (some xs) none = none
joined (some xs) (some ys) = some (xs ++ ys)

read_one-selects : (f : Filters) (ls : Lines) → read_one f ls ≡ select f (decode_all ls)
unfolding read_one
read_one-selects f [] = refl
read_one-selects f (none ∷ ls) = refl
read_one-selects f (some e ∷ ls) = ground (arith, read_one-selects f ls)

selected-append :
    (f : Filters) (xs ys : List Event) → selected f (xs ++ ys) ≡ selected f xs ++ selected f ys
selected-append f [] ys = refl
selected-append f (x ∷ xs) ys = ground (arith, selected-append f xs ys)

decode_all-append : (xs ys : Lines) → decode_all (xs ++ ys) ≡ joined (decode_all xs) (decode_all ys)
decode_all-append [] ys = ground arith
decode_all-append (none ∷ xs) ys = refl
decode_all-append (some e ∷ xs) ys = ground (arith, decode_all-append xs ys)

select-joined :
    (f : Filters) (a b : Option (List Event))
    → select f (joined a b) ≡ joined (select f a) (select f b)
select-joined f none b = refl
select-joined f (some xs) none = refl
select-joined f (some xs) (some ys) = ap some (selected-append f xs ys)

nothing-joined : (o : Option (List Event)) → o ≡ joined (some []) o
nothing-joined none = refl
nothing-joined (some xs) = refl

-- A file that may exist, read before others.
read_paths-present :
    (f : Filters) (fs : LogFiles) (i : ℕ) (ps : List ℕ) (o : Option Lines)
    → fs i ≡ o
    → read_paths f fs (present fs i ++ ps)
      ≡ joined (select f (decode_all (lines_of o))) (read_paths f fs ps)
unfolding read_paths read_file
read_paths-present f fs i ps none h =
    ap (λ o. read_paths f fs (if_present i o ++ ps)) h ∙ nothing-joined (read_paths f fs ps)
read_paths-present f fs i ps (some ls) h =
    ap (λ o. read_paths f fs (if_present i o ++ ps)) h ∙ ground (arith, h, read_one-selects f ls)

joined-nothing : (o : Option (List Event)) → joined o (some []) ≡ o
joined-nothing none = refl
joined-nothing (some xs) = ap some (append-nil xs)

read_paths-history :
    (f : Filters) (fs : LogFiles) (n : ℕ)
    → read_paths f fs (backups_from n fs ++ present fs 0)
      ≡ select f (decode_all (history_lines n fs))
unfolding backups_from
read_paths-history f fs zero =
    ap (read_paths f fs) (sym (append-nil (present fs 0)))
    ∙ (read_paths-present f fs 0 [] (fs 0) refl
        ∙ unfold read_paths in joined-nothing (select f (decode_all (lines_of (fs 0)))))
read_paths-history f fs (suc n) =
    ap (read_paths f fs) (append_assoc (present fs (suc n)) (backups_from n fs) (present fs 0))
    ∙ (read_paths-present f fs (suc n) (backups_from n fs ++ present fs 0) (fs (suc n)) refl
        ∙ (ap (joined (select f (decode_all (lines_of (fs (suc n)))))) (read_paths-history f fs n)
            ∙ (sym (
                  select-joined f (decode_all (lines_of (fs (suc n))))
                    (decode_all (history_lines n fs)))
                ∙ ap (select f)
                    (sym (decode_all-append (lines_of (fs (suc n))) (history_lines n fs))))))

is_none-history :
    (fs : LogFiles) (ls : Lines) (ps : List ℕ)
    → fs 0 ≡ some ls
    → is_none (ps ++ present fs 0) ≡ false
is_none-history fs ls [] h = ground (arith, h)
is_none-history fs ls (p ∷ ps) h = refl

-- If the log itself exists, ReadAll equals: decode the lines of the five backups, oldest first, and of the
-- log, fail if one line does not decode, keep the events that match, then order and limit them.
pub read_all-selects :
    (f : Filters) (fs : LogFiles) (ls : Lines)
    → fs 0 ≡ some ls
    → read_all f fs ≡ arranged f (select f (decode_all (history_lines 5 fs)))
unfolding read_all existing_log_paths
read_all-selects f fs ls h =
    rw (is_none-history fs ls (backups_from 5 fs) h) (ap (arranged f) (read_paths-history f fs 5))
