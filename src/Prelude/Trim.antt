-- ===== src/Prelude/Trim.antt =====
-- Go's strings.TrimSpace: texts that it leaves as they are.
use mathlib.Core.Path.{◌≡◌, refl, sym, ap, ◌∙◌}
use mathlib.Core.Bool.{Bool, true, false, not}
use mathlib.Core.List.{[], ◌∷◌, ◌++◌, reverse, reverse-append, reverse-reverse}
use Prim.Native.Nat.{ℕ}
use native.Mathlib.Omega.{arith}
use rpc_plugin_system.Prelude.Strings.{Text, all_of}
use rpc_plugin_system.Prelude.Unicode.{is_space, trim_left, trim_space}

-- No white space at the start.
abbrev pub starts_plain : Text → Bool
starts_plain [] = false
starts_plain (c ∷ s) = not (is_space c)

pub starts_plain-append : (s t : Text) → starts_plain s ≡ true → starts_plain (s ++ t) ≡ true
starts_plain-append [] t h = ground (arith, h)
starts_plain-append (c ∷ s) t h = h

trim_left-append : (s t : Text) → starts_plain s ≡ true → trim_left (s ++ t) ≡ s ++ t
trim_left-append [] t h = ground arith
trim_left-append (c ∷ s) t h = ground (arith, h)

pub trim_space-plain :
    (s t : Text)
    → starts_plain s ≡ true
    → starts_plain (reverse t) ≡ true
    → trim_space (s ++ t) ≡ s ++ t
trim_space-plain s t h k =
    rw (trim_left-append s t h, reverse-append s t, trim_left-append (reverse t) (reverse s) k)
      (ap reverse (sym (reverse-append s t)) ∙ reverse-reverse (s ++ t))

all_of-append :
    (p : ℕ → Bool) (s t : Text) → all_of p s ≡ true → all_of p t ≡ true → all_of p (s ++ t) ≡ true
all_of-append p [] t h k = k
all_of-append p (c ∷ s) t h k = ground (arith, h, all_of-append p s t, k)

pub all_of-reverse : (p : ℕ → Bool) (s : Text) → all_of p s ≡ true → all_of p (reverse s) ≡ true
all_of-reverse p [] h = refl
all_of-reverse p (c ∷ s) h = rw (reverse-append (c ∷ []) s) (
    all_of-append p (reverse s) (c ∷ []) (all_of-reverse p s (ground (arith, h)))
      (ground (arith, h)))

-- A text without white space.
plain-trim_left : (s : Text) → all_of (λ c. not (is_space c)) s ≡ true → trim_left s ≡ s
plain-trim_left [] h = refl
plain-trim_left (c ∷ s) h = ground (arith, h)

pub plain-trim_space : (s : Text) → all_of (λ c. not (is_space c)) s ≡ true → trim_space s ≡ s
plain-trim_space s h =
    rw
      (
        plain-trim_left s h,
        plain-trim_left (reverse s) (all_of-reverse (λ c. not (is_space c)) s h),
      )
      (reverse-reverse s)
