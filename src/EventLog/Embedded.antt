-- ===== src/EventLog/Embedded.antt =====
-- internal/eventlog/provider.go, UnsafeProviderText: texts with a marker in them.
use rpc_plugin_system.Prelude.{
  ℕ, ◌≡◌, ◌+◌, ◌≤◌, ◌==◌, ◌||◌, refl, ap, Bool, false, true, List, [], ◌∷◌, ◌++◌, map, Text,
  has_prefix, contains, to_lower, arith,
}
use mathlib.Core.List.{map-append}
use rpc_plugin_system.EventLog.Provider.{
  unsafe_detail_markers, normalize_code, contains_any, unsafe_provider_text,
}

has_prefix-append : (p s v : Text) → has_prefix p s ≡ true → has_prefix p (s ++ v) ≡ true
has_prefix-append [] s v h = refl
has_prefix-append (c ∷ p) [] v h = ground (arith, h)
has_prefix-append (c ∷ p) (x ∷ s) v h = ground (arith, has_prefix-append p s v)

has_prefix-contains : (p s : Text) → has_prefix p s ≡ true → contains p s ≡ true
has_prefix-contains p [] h = h
has_prefix-contains p (x ∷ s) h = ground (arith, h)

contains-append : (p s v : Text) → contains p s ≡ true → contains p (s ++ v) ≡ true
contains-append p [] v h = has_prefix-contains p v (has_prefix-append p [] v h)
contains-append p (x ∷ s) v h = ground (arith, has_prefix-append p (x ∷ s) v, contains-append p s v)

contains-prepend : (p u s : Text) → contains p s ≡ true → contains p (u ++ s) ≡ true
contains-prepend p [] s h = h
contains-prepend p (x ∷ u) s h = ground (arith, contains-prepend p u s h)

contains_any-within :
    (ms : List Text) (u s v : Text)
    → contains_any ms s ≡ true
    → contains_any ms (u ++ (s ++ v)) ≡ true
contains_any-within [] u s v h = h
contains_any-within (m ∷ ms) u s v h = ground (
  arith,
  contains-prepend (map to_lower m) u (s ++ v),
  contains-append (map to_lower m) s v,
  contains_any-within ms u s v,
)

-- The characters that one may write between two words of a name.
abbrev separators : List ℕ
separators = 45 ∷ 32 ∷ 46 ∷ 58 ∷ 95 ∷ []

abbrev is_listed : ℕ → List ℕ → Bool
is_listed c [] = false
is_listed c (x ∷ xs) = (c == x) || is_listed c xs

-- The same character, two separators, or the same ASCII letter in two cases.
pub data SameCode (c d : ℕ) : Type 0 where
  exactly : c ≡ d → SameCode c d
  both_separate : is_listed c separators ≡ true → is_listed d separators ≡ true → SameCode c d
  raised : 65 ≤ c → c ≤ 90 → d ≡ c + 32 → SameCode c d
  lowered : 65 ≤ d → d ≤ 90 → c ≡ d + 32 → SameCode c d

-- Two texts that differ in ASCII case and in the separators `-`, space, `.`, `:` and `_` alone.
pub data SameWords : Text → Text → Type 0 where
  at_end : SameWords [] []
  next : {c d : ℕ} {s t : Text} → SameCode c d → SameWords s t → SameWords (c ∷ s) (d ∷ t)

normalize-SameCode : (c d : ℕ) → SameCode c d → normalize_code c ≡ normalize_code d
normalize-SameCode c d (exactly e) = ap normalize_code e
normalize-SameCode c d (both_separate h k) = ground arith
normalize-SameCode c d (raised low high e) = ground arith
normalize-SameCode c d (lowered low high e) = ground arith

normalize-SameWords : (s t : Text) → SameWords s t → map normalize_code s ≡ map normalize_code t
normalize-SameWords [] [] at_end = refl
normalize-SameWords (c ∷ s) (d ∷ t) (next h k) =
    rw (normalize-SameCode c d h, normalize-SameWords s t k) refl
normalize-SameWords [] (d ∷ t) h = elim h [ ]
normalize-SameWords (c ∷ s) [] h = elim h [ ]

-- A text around another, written with any ASCII case and any of the five separators, is unsafe if
-- the other is.
pub unsafe_provider_text-embed :
    (u s t v : Text)
    → SameWords s t
    → unsafe_provider_text s ≡ true
    → unsafe_provider_text (u ++ (t ++ v)) ≡ true
unfolding unsafe_provider_text
unsafe_provider_text-embed u s t v same h =
    rw
      (
        map-append normalize_code u (t ++ v),
        map-append normalize_code t v,
        ← normalize-SameWords s t same,
      )
      (contains_any-within unsafe_detail_markers (map normalize_code u) (map normalize_code s)
        (map normalize_code v) h)
