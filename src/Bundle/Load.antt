-- ===== src/Bundle/Load.antt =====
-- internal/providerbundle/loader.go: the metadata of a bundle on disk.
use rpc_plugin_system.Prelude.{
  ℕ, Bool, true, false, not, ◌&&◌, ◌||◌, Option, none, some, List, [], ◌∷◌, ◌++◌, Text, codes,
  text_eq, is_empty, is_blank, trim_space, is_abs, is_slash, has_prefix, matches_id_pattern, ◌==◌,
  if◌then◌else◌,
}
use rpc_plugin_system.Bundle.Types.{Digest, Status, Metadata, is_positive}
use rpc_plugin_system.Bundle.Redact.{redact_secret_like}

pub record LoadOptions : Type 0 where
  pub plugin_id : Text
  pub plugin_generation : ℕ
  pub expected_plugin_generation : ℕ
  pub bundle_root_path : Text
  pub manifest_path : Text
  pub manifest_filename : Text
  pub expected_lua_asset_paths : List Text
  pub observed_at : ℕ
  pub correlation : Text

-- A value of the manifest, as json.Unmarshal reads it into an empty string and a zero int64.
pub record Raw : Type 0 where
  pub text : Option Text
  pub number : Option ℕ

pub data Contents : Type 0 where
  bytes : Text → Contents
  missing unreadable : Contents

-- The file system, and the packages that read what is in it.
pub record Disk : Type 0 where
  pub abs : Text → Option Text  -- filepath.Abs
  pub eval_symlinks : Text → Option Text
  pub is_dir : Text → Option Bool  -- os.Stat
  pub join : Text → Text → Text
  pub read : Text → Contents  -- os.Open and io.ReadAll
  pub sha256_hex : Text → Text
  pub decode : Text → Option (Text → Option Raw)  -- json.Unmarshal into a map

abbrev pub validate_load_identity : LoadOptions → Bool
validate_load_identity opts =
    matches_id_pattern opts.plugin_id
    && (is_positive opts.plugin_generation
        && (not (opts.observed_at == 0) && not (is_blank opts.correlation)))

abbrev pub default_manifest_filename : Text
default_manifest_filename = codes "manifest.json"

unfoldable pub inert_manifest_path : Disk → LoadOptions → Text
inert_manifest_path disk opts =
    if not (is_blank opts.manifest_path)
    then opts.manifest_path
    else if not (is_blank opts.manifest_filename)
    then disk.join opts.bundle_root_path opts.manifest_filename
    else if not (is_blank opts.bundle_root_path)
    then disk.join opts.bundle_root_path default_manifest_filename
    else []

unfoldable pub fail_metadata : Status → Text → Text → Metadata → Metadata
fail_metadata status code message m = record m {
  validation_status = status;
  redacted_error_code = redact_secret_like code;
  redacted_error_message = redact_secret_like message;
}

abbrev pub ends_with_slash : Text → Bool
ends_with_slash [] = false
ends_with_slash (c ∷ []) = is_slash c
ends_with_slash (c ∷ (d ∷ s)) = ends_with_slash (d ∷ s)

unfoldable pub path_within_root : Text → Text → Bool
path_within_root root path =
    text_eq path root || has_prefix (if ends_with_slash root then root else root ++ 47 ∷ []) path

abbrev pub if_dir : Text → Option Bool → Option Text
if_dir path (some true) = some path
if_dir path (some false) = none
if_dir path none = none

abbrev pub if_resolved_dir : Disk → Option Text → Option Text
if_resolved_dir disk none = none
if_resolved_dir disk (some path) = if_dir path (disk.is_dir path)

abbrev pub if_abs_dir : Disk → Option Text → Option Text
if_abs_dir disk none = none
if_abs_dir disk (some path) = if_resolved_dir disk (disk.eval_symlinks path)

unfoldable pub prepare_bundle_root : Disk → Text → Option Text
prepare_bundle_root disk root = if is_blank root then none else if_abs_dir disk (disk.abs root)

-- A path that does not resolve is let through.
abbrev pub escapes : Text → Option Text → Bool
escapes root none = false
escapes root (some path) = not (path_within_root root path)

abbrev pub if_within : Disk → Text → Option Text → Option Text
if_within disk root none = none
if_within disk root (some path) =
    if not (path_within_root root path)
    then none
    else if escapes root (disk.eval_symlinks path)
    then none
    else some path

unfoldable pub resolve_bundle_path : Disk → Text → Text → Option Text
unfolding path_within_root
resolve_bundle_path disk root p =
    if is_blank p
    then none
    else if_within disk root (disk.abs (if is_abs p then p else disk.join root p))

unfoldable pub resolve_manifest_path : Disk → Text → Text → Text → Option Text
unfolding resolve_bundle_path
resolve_manifest_path disk root manifest_path manifest_filename =
    if not (is_blank manifest_path)
    then resolve_bundle_path disk root manifest_path
    else if is_empty (trim_space manifest_filename)
    then resolve_bundle_path disk root default_manifest_filename
    else resolve_bundle_path disk root (trim_space manifest_filename)

-- The digest of digestFile
abbrev pub digest_of : Disk → Text → Digest
digest_of disk b = record { algorithm = codes "sha256"; value = disk.sha256_hex b }
