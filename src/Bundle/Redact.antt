-- ===== src/Bundle/Redact.antt =====
-- internal/providerbundle/metadata.go: the redaction of strings. `(?i)` folds case as Go's regexp
-- does, where U+212A is a k and U+017F an s.
use rpc_plugin_system.Prelude.{
  ℕ, ◌+◌, Bool, true, false, not, ◌&&◌, ◌||◌, List, [], ◌∷◌, ◌++◌, Text, codes, is_empty, text_eq,
  ◌==◌, leb, if◌then◌else◌, take_while, is_slash, is_abs, drop_while,
}
use mathlib.Core.List.{reverse}

-- One character of the pattern, or the optional `[ _-]?`.
pub data Item : Type 0 where
  char : ℕ → Item
  gap : Item

abbrev pub fold : ℕ → ℕ
fold c =
    if leb 65 c && leb c 90 then c + 32 else if c == 8490 then 107 else if c == 383 then 115 else c

abbrev pub is_gap : ℕ → Bool
is_gap c = (c == 32) || ((c == 95) || (c == 45))

-- Whether the text begins with the pattern.
abbrev pub matches_at : List Item → Text → Bool
matches_at [] s = true
matches_at (char c ∷ p) [] = false
matches_at (char c ∷ p) (x ∷ s) = (fold x == c) && matches_at p s
matches_at (gap ∷ p) [] = matches_at p []
matches_at (gap ∷ p) (x ∷ s) = (is_gap x && matches_at p s) || matches_at p (x ∷ s)

-- A word of the alternation, with `~` for the gap.
abbrev pub word : Text → List Item
word [] = []
word (c ∷ s) = (if c == 126 then gap else char c) ∷ word s

abbrev pub secret_like : List (List Item)
secret_like =
    word (codes "secret")
    ∷ word (codes "token")
    ∷ word (codes "password")
    ∷ word (codes "passwd")
    ∷ word (codes "private~key")
    ∷ word (codes "api~key")
    ∷ word (codes "bearer")
    ∷ word (codes "credential")
    ∷ word (codes "authority~use~ref")
    ∷ word (codes "authority~ref")
    ∷ word (codes "socket")
    ∷ word (codes "handle")
    ∷ word (codes "signer")
    ∷ word (codes "session")
    ∷ []

abbrev pub any_at : List (List Item) → Text → Bool
any_at [] s = false
any_at (p ∷ ps) s = matches_at p s || any_at ps s

abbrev pub any_in : List (List Item) → Text → Bool
any_in ps [] = any_at ps []
any_in ps (c ∷ s) = any_at ps (c ∷ s) || any_in ps s

unfoldable pub contains_secret_like : Text → Bool
contains_secret_like s = any_in secret_like s

abbrev pub redacted : Text
redacted = codes "[redacted]"

abbrev pub redacted_path : Text
redacted_path = codes "[redacted-path]"

unfoldable pub redact_secret_like : Text → Text
redact_secret_like s = if contains_secret_like s then redacted else s

-- filepath.Base, on Unix
abbrev pub last_piece : Text → Text
last_piece [] = 47 ∷ []
last_piece (c ∷ r) = reverse (take_while (λ x. not (is_slash x)) (c ∷ r))

unfoldable pub base : Text → Text
base [] = 46 ∷ []
base (c ∷ s) = last_piece (drop_while is_slash (reverse (c ∷ s)))

unfoldable pub is_redacted : Text → Bool
is_redacted s = text_eq (redact_secret_like s) redacted

unfoldable pub redact_admin_string : Text → Bool → Text
redact_admin_string s redact_paths =
    if is_redacted s
    then redacted
    else if not redact_paths || (is_empty s || not (is_abs s))
    then s
    else if text_eq (base s) (46 ∷ []) || (text_eq (base s) (47 ∷ []) || is_redacted (base s))
    then redacted_path
    else redacted_path ++ 47 ∷ base s
