-- ===== src/EventLog/Counted.antt =====
-- internal/eventlog/read.go: what Summarize counts.
use rpc_plugin_system.Prelude.{
  ℕ, ◌+◌, ◌≡◌, inl, inr, refl, List, [], ◌∷◌, map, arith, Text, text_eq, text_eq_iff, Bool-cases,
  if◌then◌else◌,
}
use rpc_plugin_system.EventLog.Types.{Event}
use rpc_plugin_system.EventLog.Read.{
  Counts, increment, Summary, length, add_event, summarize_from, summarize,
}

-- The count under a key, and the number of keys equal to it.
abbrev pub count_at : Text → Counts → ℕ
count_at key [] = 0
count_at key ((k, n) ∷ rest) = if text_eq k key then n else count_at key rest

abbrev pub sum : Counts → ℕ
sum [] = 0
sum ((k, n) ∷ rest) = n + sum rest

abbrev pub occurrences : Text → List Text → ℕ
occurrences key [] = 0
occurrences key (k ∷ ks) = (if text_eq k key then 1 else 0) + occurrences key ks

abbrev tally : List Text → Counts → Counts
tally [] c = c
tally (k ∷ ks) c = tally ks (increment k c)

count_at-increment :
    (key k : Text) (c : Counts)
    → count_at key (increment k c) ≡ (if text_eq k key then 1 else 0) + count_at key c
unfolding increment
count_at-increment key k [] = ground arith
count_at-increment key k ((k', n) ∷ rest) = elim (Bool-cases (text_eq k' k)) [
  | inl e ↦ rw ((text_eq_iff k' k).0 e) (ground (arith, text_eq_iff k k))
  | inr e ↦ rw e (
      ground (
        arith,
        e,
        count_at-increment key k rest,
        text_eq_iff k' k,
        text_eq_iff k key,
        text_eq_iff k' key,
      ))
]

sum-increment : (k : Text) (c : Counts) → sum (increment k c) ≡ 1 + sum c
unfolding increment
sum-increment k [] = refl
sum-increment k ((k', n) ∷ rest) = ground (arith, sum-increment k rest)

count_at-tally :
    (key : Text) (ks : List Text) (c : Counts)
    → count_at key (tally ks c) ≡ occurrences key ks + count_at key c
count_at-tally key [] c = omega arith
count_at-tally key (k ∷ ks) c =
    omega (arith, count_at-tally key ks (increment k c), count_at-increment key k c)

sum-tally :
    (f : Event → Text) (es : List Event) (c : Counts) → sum (tally (map f es) c) ≡ length es + sum c
sum-tally f [] c = omega arith
sum-tally f (e ∷ es) c = omega (arith, sum-tally f es (increment (f e) c), sum-increment (f e) c)

-- The counts of one field over these events.
pub record CountsOf (f : Event → Text) (es : List Event) (c : Counts) : Type 0 where
  pub counted : (key : Text) → count_at key c ≡ occurrences key (map f es)
  pub complete : sum c ≡ length es

tally-CountsOf : (f : Event → Text) (es : List Event) → CountsOf f es (tally (map f es) [])
tally-CountsOf f es = record {
  counted = λ key. omega (arith, count_at-tally key (map f es) []);
  complete = omega (arith, sum-tally f es []);
}

pub record IsSummary (es : List Event) (s : Summary) : Type 0 where
  pub total : s.total ≡ length es
  pub by_level : CountsOf (λ e. e.level) es s.by_level
  pub by_event : CountsOf (λ e. e.event) es s.by_event
  pub by_component : CountsOf (λ e. e.component) es s.by_component

summarize_from-tally :
    (s : Summary) (es : List Event)
    → summarize_from s es ≡ record s {
      by_level = tally (map (λ e. e.level) es) s.by_level;
      by_event = tally (map (λ e. e.event) es) s.by_event;
      by_component = tally (map (λ e. e.component) es) s.by_component;
    }
unfolding summarize_from
summarize_from-tally s [] = refl
summarize_from-tally s (e ∷ es) = summarize_from-tally (add_event s e) es

-- A summary has the number of the events as its total, and for each of level, event name and
-- component it counts under every key the events that have it, so that each of the three adds up to
-- the total.
pub summarize-IsSummary : (es : List Event) → IsSummary es (summarize es)
unfolding summarize
summarize-IsSummary es = rw (summarize_from-tally _ es) (record {
  total = refl;
  by_level = tally-CountsOf (λ e. e.level) es;
  by_event = tally-CountsOf (λ e. e.event) es;
  by_component = tally-CountsOf (λ e. e.component) es;
})
