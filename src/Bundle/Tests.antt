-- ===== src/Bundle/Tests.antt =====
-- internal/providerbundle: a concrete projection, and a concrete load.
use rpc_plugin_system.Prelude.{
  ℕ, zero, suc, ◌≡◌, refl, Bool, true, Option, none, some, [], ◌∷◌, ◌++◌, Text, codes, text_eq,
  is_abs, arith, matches_id_pattern, if◌then◌else◌,
}
use rpc_plugin_system.Bundle.Types.{Digest, declared_valid, Metadata, is_positive}
use rpc_plugin_system.Bundle.Redact.{
  redact_admin_string, is_redacted, redact_secret_like, contains_secret_like, base,
}
use rpc_plugin_system.Bundle.Validate.{hex_digest64}
use rpc_plugin_system.Bundle.Load.{
  LoadOptions, Raw, Contents, bytes, Disk, path_within_root, resolve_bundle_path,
  resolve_manifest_path, prepare_bundle_root,
}
use rpc_plugin_system.Bundle.Loader.{
  first_string, first_int64, parse_manifest_identity, load_assets, load,
}
use rpc_plugin_system.Bundle.Loaded.{IsDocumented}
use rpc_plugin_system.Bundle.Observed.{Loads}
use rpc_plugin_system.Bundle.Ending.{load-Loads}
use rpc_plugin_system.Bundle.Project.{admin_dto}
use rpc_plugin_system.Bundle.Safe.{IsShown, admin_dto-IsShown}

abbrev digest : Digest
digest = record { algorithm = codes "sha256"; value = codes "00" }

abbrev pub declared : Metadata
declared = record {
  plugin_id = codes "echo";
  plugin_generation = 1;
  bundle_root_path = codes "/srv/b";
  manifest_path = codes "/srv/b/m";
  lua_assets = record { path = codes "/srv/b/a"; digest = digest } ∷ [];
  manifest_digest = digest;
  schema_version = codes "v1";
  validation_status = declared_valid;
  redacted_error_code = [];
  redacted_error_message = codes "no token";
  observed_at = 9;
  correlation = codes "c";
}

redact_absolute : redact_admin_string (codes "/srv/b") true ≡ codes "[redacted-path]/b"
unfolding redact_admin_string is_redacted redact_secret_like contains_secret_like base
redact_absolute = refl

redact_spaced_key : redact_secret_like (codes "my API key") ≡ codes "[redacted]"
unfolding redact_secret_like contains_secret_like
redact_spaced_key = refl

keep_relative : redact_admin_string (codes "b/m") true ≡ codes "b/m"
unfolding redact_admin_string is_redacted redact_secret_like contains_secret_like
keep_relative = refl

admin_dto-IsShown_example : IsShown (admin_dto declared true)
admin_dto-IsShown_example = admin_dto-IsShown declared

abbrev join_slash : Text → Text → Text
join_slash root name = root ++ 47 ∷ name

-- A disk whose paths are absolute and have no links.
abbrev if_abs : Text → Option Text
if_abs p = if is_abs p then some p else none

abbrev all_dirs : Text → Option Bool
all_dirs p = some true

abbrev any_file : Text → Contents
any_file p = bytes (codes "x")

abbrev zeros : ℕ → Text
zeros zero = []
zeros (suc n) = 48 ∷ zeros n

abbrev all_zero : Text → Text
all_zero b = zeros 64

abbrev only_schema : Text → Option Raw
only_schema key =
    if text_eq key (codes "schema_version")
    then some (record { text = some (codes "v1"); number = none })
    else none

abbrev manifest : Text → Option (Text → Option Raw)
manifest b = some only_schema

abbrev disk : Disk
disk = record {
  abs = if_abs;
  eval_symlinks = if_abs;
  is_dir = all_dirs;
  join = join_slash;
  read = any_file;
  sha256_hex = all_zero;
  decode = manifest;
}

disk-IsDocumented : IsDocumented disk
unfolding hex_digest64
disk-IsDocumented = record {
  abs = λ p q h. ground (arith, h);
  links = λ p q a h. ground (arith, h, a);
  sha256 = λ b. refl;
}

abbrev one_asset : LoadOptions
one_asset = record {
  plugin_id = codes "echo";
  plugin_generation = 1;
  expected_plugin_generation = 0;
  bundle_root_path = codes "/srv/b";
  manifest_path = [];
  manifest_filename = [];
  expected_lua_asset_paths = codes "a.lua" ∷ [];
  observed_at = 9;
  correlation = codes "c";
}

load-Loads_example : Loads disk one_asset (load disk one_asset)
load-Loads_example = load-Loads disk one_asset disk-IsDocumented

loads_valid : (load disk one_asset).validation_status ≡ declared_valid
unfolding load load_assets prepare_bundle_root resolve_manifest_path resolve_bundle_path
    path_within_root parse_manifest_identity first_string first_int64 is_positive matches_id_pattern
loads_valid = refl
