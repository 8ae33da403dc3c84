-- ===== src/Bundle/Validate.antt =====
-- internal/providerbundle/metadata.go: Validate.
use rpc_plugin_system.Prelude.{
  ℕ, ◌+◌, Bool, true, false, not, ◌&&◌, ◌||◌, Option, none, some, List, [], ◌∷◌, map, Text, codes,
  text_eq, is_blank, trim_space, to_lower, is_between, all_of, matches_id_pattern, ◌==◌,
  if◌then◌else◌,
}
use rpc_plugin_system.Bundle.Types.{Digest, Asset, Status, Metadata, is_positive}
use rpc_plugin_system.Bundle.Redact.{contains_secret_like}

pub data MetadataError : Type 0 where
  bad_plugin_id bad_generation too_many_expected stale_generation : MetadataError
  root_required manifest_required bad_manifest_digest bad_status schema_required : MetadataError
  observed_time_required correlation_required secret_in_error : MetadataError
  asset_path_required bad_asset_digest : MetadataError

abbrev pub size : Text → ℕ
size [] = 0
size (c ∷ s) = 1 + size s

abbrev pub is_hex : ℕ → Bool
is_hex c = is_between 97 102 c || (is_between 65 70 c || is_between 48 57 c)

-- `^[a-fA-F0-9]{64}$`
unfoldable pub hex_digest64 : Text → Bool
hex_digest64 v = (size v == 64) && all_of is_hex v

unfoldable pub validate_digest : Digest → Bool
unfolding hex_digest64
validate_digest d =
    text_eq (map to_lower (trim_space d.algorithm)) (codes "sha256")
    && hex_digest64 (trim_space d.value)

abbrev pub validate_status : Status → Bool
validate_status Status.declared_valid = true
validate_status Status.declared_unavailable = true
validate_status Status.declared_invalid = true
validate_status (Status.other s) = false

unfoldable pub validate_assets : List Asset → Option MetadataError
validate_assets [] = none
validate_assets (a ∷ rest) =
    if is_blank a.path
    then some MetadataError.asset_path_required
    else if not (validate_digest a.digest)
    then some MetadataError.bad_asset_digest
    else validate_assets rest

-- The two tests of the expected generation.
abbrev pub check_expected : ℕ → List ℕ → Option MetadataError
check_expected n [] = none
check_expected n (e ∷ []) = if n == e then none else some MetadataError.stale_generation
check_expected n (e ∷ (f ∷ rest)) = some MetadataError.too_many_expected

abbrev pub or_else : Option MetadataError → Option MetadataError → Option MetadataError
or_else none later = later
or_else (some e) later = some e

unfoldable pub validate_facts : Metadata → Option MetadataError
unfolding validate_assets
validate_facts m =
    if is_blank m.bundle_root_path
    then some MetadataError.root_required
    else if is_blank m.manifest_path
    then some MetadataError.manifest_required
    else if not (validate_digest m.manifest_digest)
    then some MetadataError.bad_manifest_digest
    else if not (validate_status m.validation_status)
    then some MetadataError.bad_status
    else if is_blank m.schema_version
    then some MetadataError.schema_required
    else if m.observed_at == 0
    then some MetadataError.observed_time_required
    else if is_blank m.correlation
    then some MetadataError.correlation_required
    else if contains_secret_like m.redacted_error_code
        || contains_secret_like m.redacted_error_message
    then some MetadataError.secret_in_error
    else validate_assets m.lua_assets

unfoldable pub validate : List ℕ → Metadata → Option MetadataError
unfolding validate_facts
validate expected m =
    if not (matches_id_pattern m.plugin_id)
    then some MetadataError.bad_plugin_id
    else if not (is_positive m.plugin_generation)
    then some MetadataError.bad_generation
    else or_else (check_expected m.plugin_generation expected) (validate_facts m)
