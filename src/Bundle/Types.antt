-- ===== src/Bundle/Types.antt =====
-- internal/providerbundle/metadata.go: the metadata record and its two projections.
-- An int64 is kept as its 64-bit pattern, so that int64(generation) of a uint64 changes nothing.
use rpc_plugin_system.Prelude.{ℕ, ◌^◌, Bool, ◌&&◌, List, Text, ltb}

pub record Digest : Type 0 where
  pub algorithm : Text
  pub value : Text

pub record Asset : Type 0 where
  pub path : Text
  pub digest : Digest

-- ProviderBundleStatus; `other` is any string but the three that are declared.
pub data Status : Type 0 where
  declared_valid declared_unavailable declared_invalid : Status
  other : Text → Status

pub record Metadata : Type 0 where
  pub plugin_id : Text
  pub plugin_generation : ℕ
  pub bundle_root_path : Text
  pub manifest_path : Text
  pub lua_assets : List Asset
  pub manifest_digest : Digest
  pub schema_version : Text
  pub validation_status : Status
  pub redacted_error_code : Text
  pub redacted_error_message : Text
  pub observed_at : ℕ  -- 0 is the zero time
  pub correlation : Text

-- DeclaredProviderBundleCoreDTO, without the two constant names
pub record CoreDto : Type 0 where
  pub plugin_id : Text
  pub plugin_generation : ℕ
  pub lua_asset_digests : List Digest
  pub manifest_digest : Digest
  pub schema_version : Text
  pub validation_status : Status
  pub observed_at : ℕ
  pub correlation : Text

-- ProviderBundleAdminDTO, without the two constant names
pub record AdminDto : Type 0 where
  pub plugin_id : Text
  pub plugin_generation : ℕ
  pub bundle_root_path : Text
  pub manifest_path : Text
  pub lua_assets : List Asset
  pub manifest_digest : Digest
  pub schema_version : Text
  pub validation_status : Status
  pub error_code : Text
  pub error_message : Text
  pub observed_at : ℕ
  pub correlation : Text

-- `n > 0` on an int64
unfoldable pub is_positive : ℕ → Bool
is_positive n = ltb 0 n && ltb n (2 ^ 63)
