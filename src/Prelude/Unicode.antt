-- ===== src/Prelude/Unicode.antt =====
-- The parts of Go's strings, unicode and path/filepath packages that the program calls, on texts.
use mathlib.Core.Bool.{Bool, true, false, ◌&&◌, ◌||◌}
use mathlib.Core.List.{[], ◌∷◌, reverse}
use Prim.Native.Nat.{ℕ, ◌+◌}
use rpc_plugin_system.Prelude.Tests.{◌==◌, leb, if◌then◌else◌}
use rpc_plugin_system.Prelude.Strings.{Text, all_of, drop_while}

abbrev pub is_between : ℕ → ℕ → ℕ → Bool
is_between low high c = leb low c && leb c high

-- unicode.IsSpace
abbrev pub is_space : ℕ → Bool
is_space c =
    is_between 9 13 c
    || ((c == 32)
        || ((c == 133)
            || ((c == 160)
                || ((c == 5760)
                    || (is_between 8192 8202 c
                        || (is_between 8232 8233 c
                            || ((c == 8239) || ((c == 8287) || (c == 12288)))))))))

-- unicode.IsControl
abbrev pub is_control : ℕ → Bool
is_control c = leb c 31 || is_between 127 159 c

abbrev pub any_of : (ℕ → Bool) → Text → Bool
any_of p [] = false
any_of p (c ∷ s) = p c || any_of p s

-- strings.TrimSpace(s) == ""
abbrev pub is_blank : Text → Bool
is_blank s = all_of is_space s

abbrev pub trim_left : Text → Text
trim_left s = drop_while is_space s

-- strings.TrimSpace
abbrev pub trim_space : Text → Text
trim_space s = reverse (trim_left (reverse (trim_left s)))

abbrev pub has_prefix : Text → Text → Bool
has_prefix [] s = true
has_prefix (c ∷ p) [] = false
has_prefix (c ∷ p) (x ∷ s) = (x == c) && has_prefix p s

-- strings.Contains
abbrev pub contains : Text → Text → Bool
contains p [] = has_prefix p []
contains p (x ∷ s) = has_prefix p (x ∷ s) || contains p s

-- unicode.ToLower, up to the codes that do not become ASCII: beside A to Z these are U+0130 and
-- U+212A.
abbrev pub to_lower : ℕ → ℕ
to_lower c =
    if is_between 65 90 c then c + 32 else if c == 304 then 105 else if c == 8490 then 107 else c

abbrev pub is_slash : ℕ → Bool
is_slash c = c == 47

-- filepath.IsAbs, on Unix
abbrev pub is_abs : Text → Bool
is_abs [] = false
is_abs (c ∷ s) = is_slash c
