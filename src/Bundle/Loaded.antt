-- ===== src/Bundle/Loaded.antt =====
-- internal/providerbundle: what LoadProviderBundleMetadata returns is valid, or says why not.
use rpc_plugin_system.Prelude.{
  ℕ, ◌≤◌, ◌≡◌, refl, true, false, not, Option, none, some, [], ◌∷◌, Text, is_empty, is_blank,
  trim_space, is_abs, is_space, all_of, plain-trim_space, arith, Bool-cases, inl, inr,
  if◌then◌else◌,
}
use mathlib.Core.Path.{subst}
use rpc_plugin_system.Bundle.Validate.{is_hex, hex_digest64, validate_digest}
use rpc_plugin_system.Bundle.Load.{
  Disk, path_within_root, if_within, escapes, resolve_bundle_path, resolve_manifest_path, digest_of,
  default_manifest_filename,
}

-- What the packages outside promise: Abs answers an absolute path, the links of an absolute path lead
-- to one, and SHA-256 in hexadecimal has 64 digits.
pub record IsDocumented (disk : Disk) : Type 0 where
  pub abs : (p q : Text) → disk.abs p ≡ some q → is_abs q ≡ true
  pub links : (p q : Text) → is_abs p ≡ true → disk.eval_symlinks p ≡ some q → is_abs q ≡ true
  pub sha256 : (b : Text) → hex_digest64 (disk.sha256_hex b) ≡ true

pub abs-full : (p : Text) → is_abs p ≡ true → is_blank p ≡ false
abs-full [] h = ground (arith, h)
abs-full (c ∷ s) h = ground (arith, h)

hex-range : (c : ℕ) → is_hex c ≡ true → (48 ≤ c) × (c ≤ 102)
hex-range c h = (ground (arith, h), ground (arith, h))

range-plain : (c : ℕ) → 48 ≤ c → c ≤ 102 → is_space c ≡ false
range-plain c low high = ground arith

hex-plain : (s : Text) → all_of is_hex s ≡ true → all_of (λ c. not (is_space c)) s ≡ true
hex-plain [] h = refl
hex-plain (c ∷ s) h =
    let (low, high) = hex-range c (ground (arith, h)) in
    rw (range-plain c low high) (hex-plain s (ground (arith, h)))

hex_digest64-trim : (v : Text) → hex_digest64 v ≡ true → hex_digest64 (trim_space v) ≡ true
hex_digest64-trim v h =
    rw (plain-trim_space v (hex-plain v (unfold hex_digest64 in ground (arith, h)))) h

pub digest_of-valid :
    (disk : Disk) (b : Text) → IsDocumented disk → validate_digest (digest_of disk b) ≡ true
unfolding validate_digest
digest_of-valid disk b d = rw (hex_digest64-trim (disk.sha256_hex b) (d.sha256 b)) refl

-- A path that is let through: absolute, and within the root, as is what its links lead to.
pub record IsWithin (disk : Disk) (root path : Text) : Type 0 where
  pub absolute : is_abs path ≡ true
  pub within : path_within_root root path ≡ true
  pub links : escapes root (disk.eval_symlinks path) ≡ false

if_within-IsWithin :
    (disk : Disk) (root path : Text) (o : Option Text)
    → ((q : Text) → o ≡ some q → is_abs q ≡ true)
    → if_within disk root o ≡ some path
    → IsWithin disk root path
if_within-IsWithin disk root path none a h = ground (arith, h)
if_within-IsWithin disk root path (some q) a h = elim (Bool-cases (path_within_root root q)) [
  | inl w ↦ elim (Bool-cases (escapes root (disk.eval_symlinks q))) [
    | inl e ↦ ground (arith, h, w, e)
    | inr e ↦
        subst (IsWithin disk root) (same q path (ground (arith, h, w, e)))
          (record { absolute = a q refl; within = w; links = e })
  ]
  | inr w ↦ ground (arith, h, w)
]
  where
    same : (q path : Text) → some q ≡ some path → q ≡ path
    same q path h = ground (arith, h)

pub resolve_bundle_path-IsWithin :
    (disk : Disk) (root p path : Text)
    → IsDocumented disk
    → resolve_bundle_path disk root p ≡ some path
    → IsWithin disk root path
unfolding resolve_bundle_path
resolve_bundle_path-IsWithin disk root p path d h = elim (Bool-cases (is_blank p)) [
  | inl b ↦ ground (arith, h, b)
  | inr b ↦
      if_within-IsWithin disk root path (disk.abs (if is_abs p then p else disk.join root p))
        (d.abs (if is_abs p then p else disk.join root p)) (ground (arith, h, b))
]

pub resolve_manifest_path-IsWithin :
    (disk : Disk) (root p name path : Text)
    → IsDocumented disk
    → resolve_manifest_path disk root p name ≡ some path
    → IsWithin disk root path
unfolding resolve_manifest_path
resolve_manifest_path-IsWithin disk root p name path d h = elim (Bool-cases (is_blank p)) [
  | inr b ↦ resolve_bundle_path-IsWithin disk root p path d (ground (arith, h, b))
  | inl b ↦ elim (Bool-cases (is_empty (trim_space name))) [
    | inl e ↦
        resolve_bundle_path-IsWithin disk root default_manifest_filename path d
          (ground (arith, h, b, e))
    | inr e ↦
        resolve_bundle_path-IsWithin disk root (trim_space name) path d (ground (arith, h, b, e))
  ]
]
