-- ===== src/Prelude/Strings.antt =====
-- Go strings: a text is the list of the code points of a valid UTF-8 string.
use Prim.Native.Nat.{ℕ}
use Prim.Native.Char.{code}
use Prim.Native.String.{String}
use mathlib.Core.Path.{◌≡◌, refl}
use mathlib.Core.Logic.{◌↔◌}
use mathlib.Core.Bool.{Bool, true, false, ◌&&◌, ◌||◌}
use mathlib.Core.List.{List, [], ◌∷◌}
use native.Mathlib.Omega.{arith}
use rpc_plugin_system.Prelude.Tests.{◌==◌, ltb, leb, if◌then◌else◌}

abbrev pub Text : Type 0
Text = List ℕ

abbrev pub codes : String → Text
codes String.[] = []
codes (String.◌∷◌ c s) = code c ∷ codes s

-- `a == b` on strings
abbrev pub text_eq : Text → Text → Bool
text_eq [] [] = true
text_eq (a ∷ s) (b ∷ t) = (a == b) && text_eq s t
text_eq [] (b ∷ t) = false
text_eq (a ∷ s) [] = false

abbrev pub is_empty : Text → Bool
is_empty [] = true
is_empty (a ∷ s) = false

pub text_eq_iff : (s t : Text) → (text_eq s t ≡ true) ↔ (s ≡ t)
text_eq_iff [] [] = ground arith
text_eq_iff (a ∷ s) (b ∷ t) = ground (arith, text_eq_iff s t)
text_eq_iff [] (b ∷ t) = ground arith
text_eq_iff (a ∷ s) [] = ground arith

pub text_eq_refl : (s : Text) → text_eq s s ≡ true
text_eq_refl s = (text_eq_iff s s).1 refl

abbrev pub all_of : (ℕ → Bool) → Text → Bool
all_of p [] = true
all_of p (c ∷ s) = p c && all_of p s

abbrev pub take_while : (ℕ → Bool) → Text → Text
take_while p [] = []
take_while p (c ∷ s) = if p c then c ∷ take_while p s else []

abbrev pub drop_while : (ℕ → Bool) → Text → Text
drop_while p [] = []
drop_while p (c ∷ s) = if p c then drop_while p s else c ∷ s

-- `a <= b` on strings
abbrev pub text_leb : Text → Text → Bool
text_leb [] t = true
text_leb (a ∷ s) [] = false
text_leb (a ∷ s) (b ∷ t) = ltb a b || ((a == b) && text_leb s t)

abbrev pub is_alnum : ℕ → Bool
is_alnum c = (leb 97 c && leb c 122) || ((leb 65 c && leb c 90) || (leb 48 c && leb c 57))

-- The pattern of a plugin id, `^[a-zA-Z0-9][a-zA-Z0-9._-]*$`.
abbrev pub is_id_char : ℕ → Bool
is_id_char c = is_alnum c || ((c == 46) || ((c == 95) || (c == 45)))

unfoldable pub matches_id_pattern : Text → Bool
matches_id_pattern [] = false
matches_id_pattern (c ∷ s) = is_alnum c && all_of is_id_char s

pub matches_id_pattern-chars :
    (id : Text)
    → matches_id_pattern id ≡ true
    → (is_empty id ≡ false) × (all_of is_id_char id ≡ true)
unfolding matches_id_pattern
matches_id_pattern-chars [] h = ground (arith, h)
matches_id_pattern-chars (c ∷ s) h = (refl, ground (arith, h))
