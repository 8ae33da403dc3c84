-- ===== src/Daemon/Printed.antt =====
-- cmd/rpcplugind/main.go, parsePlugins: the specs that it reads back.
use rpc_plugin_system.Prelude.{
  ℕ, ◌≡◌, refl, ap, ◌∙◌, Bool, true, false, not, some, List, [], ◌∷◌, ◌++◌, map, Text, is_empty,
  all_of, is_id_char, trim_space, starts_plain, starts_plain-append, trim_space-plain,
  matches_id_pattern, matches_id_pattern-chars, ◌==◌, arith,
}
use mathlib.Core.List.{reverse, reverse-append}
use rpc_plugin_system.Host.Build.{validate_plugin_id}
use rpc_plugin_system.Daemon.Plugins.{
  parsed, split, split_once, plugin_config, parse_parts, parse_plugins,
}

-- `id=path`
abbrev pub spec : Text × Text → Text
spec (id, path) = id ++ 61 ∷ path

-- strings.Join(specs, ",")
abbrev pub joined : Text → List Text → Text
joined s [] = s
joined s (t ∷ ts) = s ++ 44 ∷ joined t ts

abbrev pub lacks : ℕ → Text → Bool
lacks c s = all_of (λ x. not (x == c)) s

-- An id that passes, and a path without commas that does not end in white space and is not empty.
abbrev pub IsPrintable : Text × Text → Type 0
IsPrintable (id, path) =
    (matches_id_pattern id ≡ true) × (lacks 44 path ≡ true) × (starts_plain (reverse path) ≡ true)

abbrev pub ArePrintable : List (Text × Text) → Type 0
ArePrintable [] = Unit {0}
ArePrintable (p ∷ ps) = IsPrintable p × ArePrintable ps

split-lacks : (sep : ℕ) (s : Text) → lacks sep s ≡ true → split sep s ≡ s ∷ []
unfolding split
split-lacks sep [] h = refl
split-lacks sep (c ∷ s) h = rw (split-lacks sep s (ground (arith, h))) ground (arith, h)

split-append :
    (sep : ℕ) (s t : Text) → lacks sep s ≡ true → split sep (s ++ sep ∷ t) ≡ s ∷ split sep t
unfolding split
split-append sep [] t h = ground arith
split-append sep (c ∷ s) t h = rw (split-append sep s t (ground (arith, h))) ground (arith, h)

split_once-append :
    (sep : ℕ) (s t : Text) → lacks sep s ≡ true → split_once sep (s ++ sep ∷ t) ≡ some (s, t)
unfolding split_once
split_once-append sep [] t h = ground arith
split_once-append sep (c ∷ s) t h =
    rw (split_once-append sep s t (ground (arith, h))) ground (arith, h)

lacks-append : (c : ℕ) (s t : Text) → lacks c s ≡ true → lacks c t ≡ true → lacks c (s ++ t) ≡ true
lacks-append c [] t h k = k
lacks-append c (x ∷ s) t h k = ground (arith, h, lacks-append c s t, k)

-- An id has none of the characters around it.
id_char-lacks : (s : Text) → all_of is_id_char s ≡ true → (lacks 44 s ≡ true) × (lacks 61 s ≡ true)
id_char-lacks [] h = (refl, refl)
id_char-lacks (c ∷ s) h =
    let (a, b) = id_char-lacks s (ground (arith, h)) in (ground (arith, h, a), ground (arith, h, b))

chars-plain :
    (id : Text) → is_empty id ≡ false → all_of is_id_char id ≡ true → starts_plain id ≡ true
chars-plain [] e h = ground (arith, e)
chars-plain (c ∷ s) e h = ground (arith, h)

plain_end-full : (path : Text) → starts_plain (reverse path) ≡ true → is_empty path ≡ false
plain_end-full [] h = ground (arith, h)
plain_end-full (c ∷ s) h = refl

-- One spec, read back, and without commas.
record Reads (p : Text × Text) : Type 0 where
  id_full : is_empty p.0 ≡ false
  path_full : is_empty p.1 ≡ false
  trimmed : trim_space (spec p) ≡ spec p
  fields : split_once 61 (spec p) ≡ some p
  no_comma : lacks 44 (spec p) ≡ true

ends_plain :
    (t : Text) (c : ℕ) → starts_plain (reverse t) ≡ true → starts_plain (reverse (c ∷ t)) ≡ true
ends_plain t c h = rw (reverse-append (c ∷ []) t) (starts_plain-append (reverse t) (c ∷ []) h)

spec-Reads : (p : Text × Text) → IsPrintable p → Reads p
spec-Reads (id, path) (v, no_comma, plain) =
    let (full, chars) = matches_id_pattern-chars id v in
    let (comma, equals) = id_char-lacks id chars in
    record {
      id_full = full;
      path_full = plain_end-full path plain;
      trimmed =
          trim_space-plain id (61 ∷ path) (chars-plain id full chars) (ends_plain path 61 plain);
      fields = split_once-append 61 id path equals;
      no_comma = lacks-append 44 id (61 ∷ path) comma (ground (arith, no_comma));
    }

parse_parts-specs :
    (ps : List (Text × Text))
    → ArePrintable ps
    → parse_parts (map spec ps) ≡ parsed (map (λ p. plugin_config p.0 p.1) ps)
unfolding parse_parts
parse_parts-specs [] h = refl
parse_parts-specs (p ∷ ps) (h, hs) =
    let r = spec-Reads p h in
    rw (r.trimmed, r.fields, r.id_full, r.path_full, parse_parts-specs ps hs)
      (unfold validate_plugin_id in ground (arith, h.0))

split-joined :
    (p : Text × Text) (ps : List (Text × Text))
    → IsPrintable p
    → ArePrintable ps
    → split 44 (joined (spec p) (map spec ps)) ≡ map spec (p ∷ ps)
split-joined p [] h hs = split-lacks 44 (spec p) (spec-Reads p h).no_comma
split-joined p (q ∷ ps) h (k, ks) =
    split-append 44 (spec p) (joined (spec q) (map spec ps)) (spec-Reads p h).no_comma
    ∙ ap (λ t. spec p ∷ t) (split-joined q ps k ks)

joined-full : (id path : Text) (ts : List Text) → is_empty (joined (spec (id, path)) ts) ≡ false
joined-full [] path [] = refl
joined-full (c ∷ id) path [] = refl
joined-full [] path (t ∷ ts) = refl
joined-full (c ∷ id) path (t ∷ ts) = refl

-- The value of -plugins that joins one or more specs id=path by commas is parsed to those plugins in
-- that order, whatever the flags of a single plugin are, when each id passes the check of a plugin id
-- and each path is not empty, has no comma and does not end in white space.
pub parse_plugins-joined :
    (p : Text × Text) (ps : List (Text × Text)) (plugin_id plugin_path : Text)
    → ArePrintable (p ∷ ps)
    → parse_plugins (joined (spec p) (map spec ps)) plugin_id plugin_path
      ≡ parsed (map (λ q. plugin_config q.0 q.1) (p ∷ ps))
unfolding parse_plugins
parse_plugins-joined p ps plugin_id plugin_path (h, hs) =
    rw (joined-full p.0 p.1 (map spec ps), split-joined p ps h hs)
      (parse_parts-specs (p ∷ ps) (h, hs))
