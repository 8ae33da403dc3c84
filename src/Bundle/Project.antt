-- ===== src/Bundle/Project.antt =====
-- internal/providerbundle/metadata.go: the core and the admin projection of declared metadata. A
-- copied slice is the same list.
use rpc_plugin_system.Prelude.{Bool, map}
use rpc_plugin_system.Bundle.Types.{Asset, Metadata, CoreDto, AdminDto}
use rpc_plugin_system.Bundle.Redact.{redact_secret_like, redact_admin_string}

unfoldable pub core_dto : Metadata → CoreDto
core_dto m = record {
  plugin_id = m.plugin_id;
  plugin_generation = m.plugin_generation;
  lua_asset_digests = map (λ a. a.digest) m.lua_assets;
  manifest_digest = m.manifest_digest;
  schema_version = m.schema_version;
  validation_status = m.validation_status;
  observed_at = m.observed_at;
  correlation = redact_secret_like m.correlation;
}

abbrev pub redact_asset : Bool → Asset → Asset
redact_asset redact_paths a = record {
  path = redact_admin_string a.path redact_paths;
  digest = a.digest;
}

unfoldable pub admin_dto : Metadata → Bool → AdminDto
admin_dto m redact_paths = record {
  plugin_id = redact_secret_like m.plugin_id;
  plugin_generation = m.plugin_generation;
  bundle_root_path = redact_admin_string m.bundle_root_path redact_paths;
  manifest_path = redact_admin_string m.manifest_path redact_paths;
  lua_assets = map (redact_asset redact_paths) m.lua_assets;
  manifest_digest = m.manifest_digest;
  schema_version = redact_secret_like m.schema_version;
  validation_status = m.validation_status;
  error_code = redact_secret_like m.redacted_error_code;
  error_message = redact_secret_like m.redacted_error_message;
  observed_at = m.observed_at;
  correlation = redact_secret_like m.correlation;
}
