-- ===== src/Bundle/Loader.antt =====
-- internal/providerbundle/loader.go: the manifest's identity, and LoadProviderBundleMetadata.
use rpc_plugin_system.Prelude.{
  ℕ, Bool, false, not, ◌&&◌, Option, none, some, List, [], ◌∷◌, ◌++◌, Text, codes, text_eq,
  is_empty, is_blank, ◌==◌, if◌then◌else◌, ◌>>=◌,
}
use rpc_plugin_system.Bundle.Types.{
  Asset, declared_valid, declared_unavailable, declared_invalid, other, Metadata, is_positive,
}
use rpc_plugin_system.Bundle.Load.{
  LoadOptions, Raw, Contents, bytes, missing, unreadable, Disk, validate_load_identity,
  inert_manifest_path, fail_metadata, prepare_bundle_root, resolve_bundle_path,
  resolve_manifest_path, digest_of,
}

pub record ManifestIdentity : Type 0 where
  pub schema_version : Text
  pub plugin_id : Text
  pub plugin_generation : Option ℕ

abbrev pub or_empty : Option Raw → Option Text → Option Text
or_empty none later = later
or_empty (some raw) later = raw.text

-- firstString; a value that is no string is `none`.
unfoldable pub first_string : (Text → Option Raw) → List Text → Option Text
first_string raw [] = some []
first_string raw (key ∷ keys) = or_empty (raw key) (first_string raw keys)

abbrev pub if_number : Option ℕ → Option (Option ℕ)
if_number none = none
if_number (some n) = some (some n)

abbrev pub or_absent : Option Raw → Option (Option ℕ) → Option (Option ℕ)
or_absent none later = later
or_absent (some raw) later = if_number raw.number

-- firstInt64; the inner `none` is that no key is there.
unfoldable pub first_int64 : (Text → Option Raw) → List Text → Option (Option ℕ)
first_int64 raw [] = some none
first_int64 raw (key ∷ keys) = or_absent (raw key) (first_int64 raw keys)

abbrev pub with_schema : (Text → Option Raw) → Text → Option ManifestIdentity
with_schema raw schema = do
  id ← first_string raw (codes "plugin_id" ∷ (codes "pluginId" ∷ (codes "plugin" ∷ [])))
  generation ←
      first_int64 raw
        (codes "plugin_generation" ∷ (codes "pluginGeneration" ∷ (codes "generation" ∷ [])))
  some (record { schema_version = schema; plugin_id = id; plugin_generation = generation })

abbrev pub identity_of : (Text → Option Raw) → Option ManifestIdentity
identity_of raw = do
  schema ← first_string raw (codes "schema_version" ∷ (codes "schemaVersion" ∷ []))
  if is_blank schema then none else with_schema raw schema

abbrev pub if_decoded : Option (Text → Option Raw) → Option ManifestIdentity
if_decoded none = none
if_decoded (some raw) = identity_of raw

unfoldable pub parse_manifest_identity : Disk → Text → Option ManifestIdentity
unfolding first_string first_int64
parse_manifest_identity disk b = if_decoded (disk.decode b)

-- metadata before the first check
abbrev pub initial : LoadOptions → Metadata
initial opts = record {
  plugin_id = opts.plugin_id;
  plugin_generation = opts.plugin_generation;
  bundle_root_path = opts.bundle_root_path;
  manifest_path = [];
  lua_assets = [];
  manifest_digest = record { algorithm = []; value = [] };
  schema_version = [];
  validation_status = other [];
  redacted_error_code = [];
  redacted_error_message = [];
  observed_at = opts.observed_at;
  correlation = opts.correlation;
}

abbrev pub path_only : Text → Asset
path_only p = record { path = p; digest = record { algorithm = []; value = [] } }

abbrev pub lua_unavailable : Text → Metadata → Metadata
lua_unavailable code m =
    fail_metadata declared_unavailable code (codes "lua asset is unavailable") m

-- One round of the loop over the assets, by what the file gives.
abbrev pub after_asset :
    Disk → List Asset → Text → (List Asset → Metadata) → Metadata → Contents → Metadata
after_asset disk assets path loop m (bytes b) =
    loop (assets ++ record { path = path; digest = digest_of disk b } ∷ [])
after_asset disk assets path loop m missing =
    lua_unavailable (codes "missing_lua_asset")
      (record m { lua_assets = assets ++ path_only path ∷ [] })
after_asset disk assets path loop m unreadable =
    lua_unavailable (codes "unreadable_lua_asset")
      (record m { lua_assets = assets ++ path_only path ∷ [] })

abbrev pub after_asset_path :
    Disk → List Asset → Text → (List Asset → Metadata) → Metadata → Option Text → Metadata
after_asset_path disk assets declared loop m none =
    fail_metadata declared_invalid (codes "invalid_lua_asset_path")
      (codes "lua asset path is outside bundle root")
      (record m { lua_assets = assets ++ path_only declared ∷ [] })
after_asset_path disk assets declared loop m (some path) =
    after_asset disk assets path loop m (disk.read path)

unfoldable pub load_assets : Disk → Text → Metadata → List Asset → List Text → Metadata
unfolding resolve_bundle_path fail_metadata
load_assets disk root m assets [] = record m {
  lua_assets = assets;
  validation_status = declared_valid;
}
load_assets disk root m assets (p ∷ ps) =
    after_asset_path disk assets p (λ as'. load_assets disk root m as' ps) m
      (resolve_bundle_path disk root p)

abbrev pub is_other_generation : ℕ → Option ℕ → Bool
is_other_generation n none = false
is_other_generation n (some g) = not (g == n)

abbrev pub bad_identity : Text → Metadata → Metadata
bad_identity message m =
    fail_metadata declared_invalid (codes "malformed_manifest_identity") message m

abbrev pub after_identity :
    Disk → LoadOptions → Text → Metadata → Option ManifestIdentity → Metadata
after_identity disk opts root m none = bad_identity (codes "manifest identity is invalid") m
after_identity disk opts root m (some id) =
    if not (is_empty id.plugin_id) && not (text_eq id.plugin_id opts.plugin_id)
    then bad_identity (codes "manifest plugin id does not match") m
    else if is_other_generation opts.plugin_generation id.plugin_generation
    then bad_identity (codes "manifest plugin generation does not match") m
    else load_assets disk root (record m { schema_version = id.schema_version }) []
        opts.expected_lua_asset_paths

abbrev pub after_manifest : Disk → LoadOptions → Text → Metadata → Contents → Metadata
after_manifest disk opts root m missing =
    fail_metadata declared_unavailable (codes "missing_manifest") (codes "manifest is unavailable")
      m
after_manifest disk opts root m unreadable =
    fail_metadata declared_unavailable (codes "unreadable_manifest")
      (codes "manifest is unavailable") m
after_manifest disk opts root m (bytes b) =
    after_identity disk opts root (record m { manifest_digest = digest_of disk b })
      (parse_manifest_identity disk b)

abbrev pub after_manifest_path : Disk → LoadOptions → Text → Metadata → Option Text → Metadata
after_manifest_path disk opts root m none =
    fail_metadata declared_invalid (codes "invalid_manifest_path")
      (codes "manifest path is outside bundle root")
      (record m { manifest_path = inert_manifest_path disk opts })
after_manifest_path disk opts root m (some path) =
    after_manifest disk opts root (record m { manifest_path = path }) (disk.read path)

abbrev pub after_root : Disk → LoadOptions → Option Text → Metadata
after_root disk opts none =
    fail_metadata declared_unavailable (codes "missing_bundle_root")
      (codes "bundle root is unavailable")
      (record (initial opts) { manifest_path = inert_manifest_path disk opts })
after_root disk opts (some root) =
    after_manifest_path disk opts root (record (initial opts) { bundle_root_path = root })
      (resolve_manifest_path disk root opts.manifest_path opts.manifest_filename)

unfoldable pub load : Disk → LoadOptions → Metadata
unfolding inert_manifest_path fail_metadata prepare_bundle_root resolve_manifest_path
    parse_manifest_identity load_assets
load disk opts =
    if not (validate_load_identity opts)
    then fail_metadata declared_invalid (codes "malformed_load_identity")
        (codes "provider bundle load identity is invalid")
        (record (initial opts) { manifest_path = inert_manifest_path disk opts })
    else if is_positive opts.expected_plugin_generation
        && not (opts.plugin_generation == opts.expected_plugin_generation)
    then fail_metadata declared_invalid (codes "stale_generation")
        (codes "plugin generation does not match expected generation")
        (record (initial opts) { manifest_path = inert_manifest_path disk opts })
    else after_root disk opts (prepare_bundle_root disk opts.bundle_root_path)
