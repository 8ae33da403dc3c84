-- ===== src/Bundle/Ending.antt =====
-- internal/providerbundle/loader.go: every load ends valid or failed.
use rpc_plugin_system.Prelude.{
  ℕ, ◌≡◌, refl, sym, Bool, true, false, not, ◌&&◌, Option, none, some, [], ◌∷◌, Text, codes,
  text_eq, is_empty, is_blank, is_abs, matches_id_pattern, ◌==◌, arith, if_cases, Bool-cases, inl,
  inr, ◌>>=◌, if◌then◌else◌,
}
use mathlib.Core.Path.{subst}
use rpc_plugin_system.Bundle.Types.{Metadata, is_positive}
use rpc_plugin_system.Bundle.Load.{
  LoadOptions, Raw, Contents, bytes, missing, unreadable, Disk, if_dir, if_resolved_dir, if_abs_dir,
  prepare_bundle_root, resolve_manifest_path, digest_of, inert_manifest_path,
  validate_load_identity,
}
use rpc_plugin_system.Bundle.Loader.{
  ManifestIdentity, first_string, first_int64, with_schema, if_decoded, parse_manifest_identity,
  initial, is_other_generation, after_identity, after_manifest, after_manifest_path, after_root,
  load,
}
use rpc_plugin_system.Bundle.Loaded.{IsDocumented, IsWithin, resolve_manifest_path-IsWithin}
use rpc_plugin_system.Bundle.Observed.{
  Loads, Ready, unavailable-Loads, invalid-Loads, load_assets-Loads,
}

not-false : (b : Bool) → not b ≡ false → b ≡ true
not-false true h = refl
not-false false h = sym h

made-given :
    (schema : Text) (own : Option Text) (g : Option (Option ℕ)) (id : ManifestIdentity)
    → (do
      x ← own
      y ← g
      some (record { schema_version = schema; plugin_id = x; plugin_generation = y }))
      ≡ some id
    → is_blank schema ≡ false
    → is_blank id.schema_version ≡ false
made-given schema none g id h b = ground (arith, h)
made-given schema (some x) none id h b = ground (arith, h)
made-given schema (some x) (some y) id h b = ground (arith, h, b)

with_schema-given :
    (raw : Text → Option Raw) (o : Option Text) (id : ManifestIdentity)
    → (do schema ← o; if is_blank schema then none else with_schema raw schema) ≡ some id
    → is_blank id.schema_version ≡ false
with_schema-given raw none id h = ground (arith, h)
with_schema-given raw (some schema) id h = elim (Bool-cases (is_blank schema)) [
  | inl b ↦ ground (arith, h, b)
  | inr b ↦
      made-given schema
        (first_string raw (codes "plugin_id" ∷ (codes "pluginId" ∷ (codes "plugin" ∷ []))))
        (first_int64 raw
          (codes "plugin_generation" ∷ (codes "pluginGeneration" ∷ (codes "generation" ∷ []))))
        id (ground (arith, h, b)) b
]

decoded-given :
    (o : Option (Text → Option Raw)) (id : ManifestIdentity)
    → if_decoded o ≡ some id
    → is_blank id.schema_version ≡ false
decoded-given none id h = ground (arith, h)
decoded-given (some raw) id h =
    with_schema-given raw (first_string raw (codes "schema_version" ∷ (codes "schemaVersion" ∷ [])))
      id h

schema-given :
    (disk : Disk) (b : Text) (id : ManifestIdentity)
    → parse_manifest_identity disk b ≡ some id
    → is_blank id.schema_version ≡ false
unfolding parse_manifest_identity
schema-given disk b id h = decoded-given (disk.decode b) id h

module _ (disk : Disk) (opts : LoadOptions) (doc : IsDocumented disk) where
  after_identity-Loads :
      (m : Metadata) (o : Option ManifestIdentity)
      → ((id : ManifestIdentity)
          → o ≡ some id
          → Ready disk opts (record m { schema_version = id.schema_version }))
      → Loads disk opts (after_identity disk opts m.bundle_root_path m o)
  after_identity-Loads m none r =
      invalid-Loads disk opts (codes "malformed_manifest_identity")
        (codes "manifest identity is invalid") m refl
  after_identity-Loads m (some id) r =
      if_cases (Loads disk opts)
        (not (is_empty id.plugin_id) && not (text_eq id.plugin_id opts.plugin_id))
        (λ h.
          invalid-Loads disk opts (codes "malformed_manifest_identity")
            (codes "manifest plugin id does not match") m refl)
        (λ h.
          if_cases (Loads disk opts)
            (is_other_generation opts.plugin_generation id.plugin_generation)
            (λ k.
              invalid-Loads disk opts (codes "malformed_manifest_identity")
                (codes "manifest plugin generation does not match") m refl)
            (λ k.
              load_assets-Loads disk opts (record m { schema_version = id.schema_version }) [] []
                opts.expected_lua_asset_paths doc (r id refl) tt refl))

  -- All but the schema and the digest.
  record Found (m : Metadata) : Type 0 where
    own_id : matches_id_pattern m.plugin_id ≡ true
    generation : m.plugin_generation ≡ opts.plugin_generation
    positive : is_positive m.plugin_generation ≡ true
    root : is_abs m.bundle_root_path ≡ true
    observed : (m.observed_at == 0) ≡ false
    correlation : is_blank m.correlation ≡ false
    no_code : m.redacted_error_code ≡ []
    no_message : m.redacted_error_message ≡ []

  after_manifest-Loads :
      (m : Metadata) (c : Contents)
      → Found m
      → IsWithin disk m.bundle_root_path m.manifest_path
      → disk.read m.manifest_path ≡ c
      → Loads disk opts (after_manifest disk opts m.bundle_root_path m c)
  after_manifest-Loads m missing f w e =
      unavailable-Loads disk opts (codes "missing_manifest") (codes "manifest is unavailable") m
        refl
  after_manifest-Loads m unreadable f w e =
      unavailable-Loads disk opts (codes "unreadable_manifest") (codes "manifest is unavailable") m
        refl
  after_manifest-Loads m (bytes b) f w e =
      after_identity-Loads (record m { manifest_digest = digest_of disk b })
        (parse_manifest_identity disk b)
        (λ id h. record {
          own_id = f.own_id;
          generation = f.generation;
          positive = f.positive;
          root = f.root;
          manifest = w;
          digest = (b, e, refl);
          schema = schema-given disk b id h;
          observed = f.observed;
          correlation = f.correlation;
          no_code = f.no_code;
          no_message = f.no_message;
        })

  after_manifest_path-Loads :
      (m : Metadata) (o : Option Text)
      → Found m
      → resolve_manifest_path disk m.bundle_root_path opts.manifest_path opts.manifest_filename ≡ o
      → Loads disk opts (after_manifest_path disk opts m.bundle_root_path m o)
  after_manifest_path-Loads m none f e =
      invalid-Loads disk opts (codes "invalid_manifest_path")
        (codes "manifest path is outside bundle root")
        (record m { manifest_path = inert_manifest_path disk opts }) refl
  after_manifest_path-Loads m (some path) f e =
      after_manifest-Loads (record m { manifest_path = path }) (disk.read path)
        (record {
          own_id = f.own_id;
          generation = f.generation;
          positive = f.positive;
          root = f.root;
          observed = f.observed;
          correlation = f.correlation;
          no_code = f.no_code;
          no_message = f.no_message;
        })
        (resolve_manifest_path-IsWithin disk m.bundle_root_path opts.manifest_path
          opts.manifest_filename path doc e)
        refl

  after_root-Loads :
      (o : Option Text)
      → validate_load_identity opts ≡ true
      → ((root : Text) → o ≡ some root → is_abs root ≡ true)
      → Loads disk opts (after_root disk opts o)
  after_root-Loads none v a =
      unavailable-Loads disk opts (codes "missing_bundle_root") (codes "bundle root is unavailable")
        (record (initial opts) { manifest_path = inert_manifest_path disk opts }) refl
  after_root-Loads (some root) v a =
      after_manifest_path-Loads (record (initial opts) { bundle_root_path = root })
        (resolve_manifest_path disk root opts.manifest_path opts.manifest_filename)
        (record {
          own_id = ground (arith, v);
          generation = refl;
          positive = ground (arith, v);
          root = a root refl;
          observed = ground (arith, v);
          correlation = ground (arith, v);
          no_code = refl;
          no_message = refl;
        })
        refl

  if_dir-path : (path root : Text) (o : Option Bool) → if_dir path o ≡ some root → path ≡ root
  if_dir-path path root (some true) h = ground (arith, h)
  if_dir-path path root (some false) h = ground (arith, h)
  if_dir-path path root none h = ground (arith, h)

  resolved-abs :
      (p root : Text) (o : Option Text)
      → is_abs p ≡ true
      → disk.eval_symlinks p ≡ o
      → if_resolved_dir disk o ≡ some root
      → is_abs root ≡ true
  resolved-abs p root none a e h = ground (arith, h)
  resolved-abs p root (some q) a e h =
      subst (λ r. is_abs r ≡ true) (if_dir-path q root (disk.is_dir q) h) (doc.links p q a e)

  abs_dir-abs :
      (p root : Text) (o : Option Text)
      → disk.abs p ≡ o
      → if_abs_dir disk o ≡ some root
      → is_abs root ≡ true
  abs_dir-abs p root none e h = ground (arith, h)
  abs_dir-abs p root (some q) e h =
      resolved-abs q root (disk.eval_symlinks q) (doc.abs p q e) refl h

  prepare_bundle_root-abs :
      (p root : Text) → prepare_bundle_root disk p ≡ some root → is_abs root ≡ true
  unfolding prepare_bundle_root
  prepare_bundle_root-abs p root h = elim (Bool-cases (is_blank p)) [
    | inl b ↦ ground (arith, h, b)
    | inr b ↦ abs_dir-abs p root (disk.abs p) refl (ground (arith, h, b))
  ]

  -- When the packages outside keep their promises, a load ends in one of two ways. It is declared
  -- valid: then the metadata passes Validate for the generation it was loaded for, the manifest and
  -- every asset are absolute paths within the bundle root, as is what their links lead to, the assets
  -- are those expected, in their order, each digest is that of the file's contents, and there is no
  -- error code. Or it is declared unavailable or invalid: then it has an error code, and its error
  -- texts show nothing secret-like.
  pub load-Loads : Loads disk opts (load disk opts)
  unfolding load
  load-Loads =
      if_cases (Loads disk opts) (not (validate_load_identity opts))
        (λ v.
          invalid-Loads disk opts (codes "malformed_load_identity")
            (codes "provider bundle load identity is invalid")
            (record (initial opts) { manifest_path = inert_manifest_path disk opts }) refl)
        (λ v.
          if_cases (Loads disk opts)
            (is_positive opts.expected_plugin_generation
              && not (opts.plugin_generation == opts.expected_plugin_generation))
            (λ k.
              invalid-Loads disk opts (codes "stale_generation")
                (codes "plugin generation does not match expected generation")
                (record (initial opts) { manifest_path = inert_manifest_path disk opts }) refl)
            (λ k.
              after_root-Loads (prepare_bundle_root disk opts.bundle_root_path) (not-false _ v)
                (prepare_bundle_root-abs opts.bundle_root_path)))
