-- ===== src/Prelude/Decimal.antt =====
-- fmt's %d and strconv.ParseUint(s, 10, 64), on texts.
use Prim.Native.Nat.{ℕ, zero, suc, ◌+◌, ◌-◌, ◌*◌, ◌/◌, ◌%◌, ◌^◌, ◌<◌}
use mathlib.Core.Path.{◌≡◌, refl, sym, ap, ◌∙◌}
use mathlib.Core.Logic.{inl, inr}
use mathlib.Core.Bool.{true}
use mathlib.Core.Option.{Option, none, some}
use mathlib.Core.List.{[], ◌∷◌, ◌++◌, append-nil, append_assoc}
use native.Mathlib.Omega.{arith}
use rpc_plugin_system.Prelude.Tests.{ltb, if◌then◌else◌, Bool-cases}
use rpc_plugin_system.Prelude.Strings.{Text}
use rpc_plugin_system.Prelude.Unicode.{is_between}

-- The last digits of a number, as many as the first argument says at most.
unfoldable pub digits : ℕ → ℕ → Text
digits zero n = []
digits (suc f) n =
    let rest = digits f (n / 10) in if ltb n 10 then (48 + n) ∷ [] else rest ++ (48 + n % 10) ∷ []

-- A uint64 has 20 digits at most.
unfoldable pub format_uint : ℕ → Text
unfolding digits
format_uint n = digits 20 n

unfoldable pub parse_digits : ℕ → Text → Option ℕ
parse_digits acc [] = some acc
parse_digits acc (c ∷ s) =
    let rest = parse_digits (acc * 10 + (c - 48)) s in if is_between 48 57 c then rest else none

abbrev pub if_fits : Option ℕ → Option ℕ
if_fits none = none
if_fits (some n) = if ltb n (2 ^ 64) then some n else none

unfoldable pub parse_uint : Text → Option ℕ
unfolding parse_digits
parse_uint [] = none
parse_uint (c ∷ s) = if_fits (parse_digits 0 (c ∷ s))

abbrev pow10 : ℕ → ℕ
pow10 zero = 1
pow10 (suc f) = 10 * pow10 f

parse_digits-digit :
    (acc d n : ℕ) (t : Text)
    → d < 10
    → acc * 10 + d ≡ n
    → parse_digits acc ((48 + d) ∷ t) ≡ parse_digits n t
unfolding parse_digits
parse_digits-digit acc d n t h e =
    let fits : is_between 48 57 (48 + d) ≡ true = ground arith in
    let value : acc * 10 + (48 + d - 48) ≡ n = omega arith in rw (fits, value) refl

parse_digits-digits :
    (f n : ℕ) (t : Text) → n < pow10 f → parse_digits 0 (digits f n ++ t) ≡ parse_digits n t
unfolding digits
parse_digits-digits zero n t h = let z : n ≡ 0 = omega arith in rw z refl
parse_digits-digits (suc f) n t h = elim (Bool-cases (ltb n 10)) [
  | inl small ↦ rw small (parse_digits-digit 0 n n t (ground (arith, small)) (omega arith))
  | inr large ↦
      rw (large, append_assoc (digits f (n / 10)) ((48 + n % 10) ∷ []) t)
        (parse_digits-digits f (n / 10) ((48 + n % 10) ∷ t) (omega arith)
          ∙ parse_digits-digit (n / 10) (n % 10) n t (omega arith) (omega arith))
]

append-cons : (xs : Text) (d : ℕ) → (c : ℕ) × (s : Text) × (xs ++ d ∷ [] ≡ c ∷ s)
append-cons [] d = (d, [], refl)
append-cons (x ∷ xs) d = (x, xs ++ d ∷ [], refl)

digits-cons : (f n : ℕ) → (c : ℕ) × (s : Text) × (digits (suc f) n ≡ c ∷ s)
unfolding digits
digits-cons f n = elim (Bool-cases (ltb n 10)) [
  | inl small ↦ rw small (48 + n, [], refl)
  | inr large ↦ rw large (append-cons (digits f (n / 10)) (48 + n % 10))
]

parse_uint-cons :
    (s : Text) (c : ℕ) (t : Text) → s ≡ c ∷ t → parse_uint s ≡ if_fits (parse_digits 0 s)
unfolding parse_uint
parse_uint-cons s c t e = rw e refl

parse_digits-nil : (n : ℕ) → parse_digits n [] ≡ some n
unfolding parse_digits
parse_digits-nil n = refl

pub format_uint-ne-nil : (n : ℕ) → (c : ℕ) × (s : Text) × (format_uint n ≡ c ∷ s)
unfolding format_uint
format_uint-ne-nil n = digits-cons 19 n

-- What %d prints of a uint64, ParseUint reads.
pub parse_uint-format_uint : (n : ℕ) → n < 2 ^ 64 → parse_uint (format_uint n) ≡ some n
unfolding format_uint
parse_uint-format_uint n h =
    let (c, t, e) = digits-cons 19 n in
    let read : parse_digits 0 (digits 20 n) ≡ some n =
      ap (parse_digits 0) (sym (append-nil (digits 20 n)))
      ∙ (parse_digits-digits 20 n [] (omega arith) ∙ parse_digits-nil n) in
    let fits : ltb n (2 ^ 64) ≡ true = ground arith in
    parse_uint-cons (digits 20 n) c t e ∙ (ap if_fits read ∙ rw fits refl)
