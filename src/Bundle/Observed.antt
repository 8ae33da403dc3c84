-- ===== src/Bundle/Observed.antt =====
-- internal/providerbundle/loader.go: a load ends valid, with the facts of the files, or failed.
use rpc_plugin_system.Prelude.{
  ◌≡◌, refl, sym, ap, ◌∙◌, true, false, Option, none, some, List, [], ◌∷◌, ◌++◌, Text, codes,
  is_empty, is_blank, is_abs, matches_id_pattern, ◌==◌, ==_iff, if_cases,
}
use mathlib.Core.Path.{subst}
use mathlib.Core.List.{append_assoc, append-nil}
use rpc_plugin_system.Bundle.Types.{
  Digest, Asset, Status, declared_valid, declared_unavailable, declared_invalid, other, Metadata,
  is_positive,
}
use rpc_plugin_system.Bundle.Redact.{contains_secret_like, redact_secret_like}
use rpc_plugin_system.Bundle.Safe.{redact_secret_like-clean}
use rpc_plugin_system.Bundle.Validate.{validate_digest, validate_assets, validate_facts, validate}
use rpc_plugin_system.Bundle.Load.{
  LoadOptions, Contents, bytes, missing, unreadable, Disk, fail_metadata, resolve_bundle_path,
  digest_of,
}
use rpc_plugin_system.Bundle.Loader.{path_only, after_asset, after_asset_path, load_assets}
use rpc_plugin_system.Bundle.Loaded.{
  IsDocumented, abs-full, digest_of-valid, IsWithin, resolve_bundle_path-IsWithin,
}

-- The digest is that of the file's contents.
abbrev pub Digests : Disk → Text → Digest → Type 0
Digests disk path d = (b : Text) × (disk.read path ≡ bytes b) × (d ≡ digest_of disk b)

pub record Declares (disk : Disk) (root p : Text) (a : Asset) : Type 0 where
  pub resolved : resolve_bundle_path disk root p ≡ some a.path
  pub within : IsWithin disk root a.path
  pub digest : Digests disk a.path a.digest

-- The assets, one for each declared path, in that order.
abbrev pub DeclaresAll : Disk → Text → List Text → List Asset → Type 0
DeclaresAll disk root [] [] = Unit {0}
DeclaresAll disk root (p ∷ ps) (a ∷ xs) = Declares disk root p a × DeclaresAll disk root ps xs
DeclaresAll disk root [] (a ∷ xs) = ⊥
DeclaresAll disk root (p ∷ ps) [] = ⊥

pub record IsObserved (disk : Disk) (opts : LoadOptions) (m : Metadata) : Type 0 where
  pub accepted : validate (opts.plugin_generation ∷ []) m ≡ none
  pub manifest : IsWithin disk m.bundle_root_path m.manifest_path
  pub digest : Digests disk m.manifest_path m.manifest_digest
  pub assets : DeclaresAll disk m.bundle_root_path opts.expected_lua_asset_paths m.lua_assets
  pub no_error : is_empty m.redacted_error_code ≡ true

-- A failure has a code, and shows nothing secret-like.
pub record IsFailed (m : Metadata) : Type 0 where
  pub code : is_empty m.redacted_error_code ≡ false
  pub clean_code : contains_secret_like m.redacted_error_code ≡ false
  pub clean_message : contains_secret_like m.redacted_error_message ≡ false

abbrev pub Ends : Disk → LoadOptions → Status → Metadata → Type 0
Ends disk opts declared_valid m = IsObserved disk opts m
Ends disk opts declared_unavailable m = IsFailed m
Ends disk opts declared_invalid m = IsFailed m
Ends disk opts (other s) m = ⊥

abbrev pub Loads : Disk → LoadOptions → Metadata → Type 0
Loads disk opts m = Ends disk opts m.validation_status m

redact_secret_like-full : (s : Text) → is_empty s ≡ false → is_empty (redact_secret_like s) ≡ false
unfolding redact_secret_like
redact_secret_like-full s h =
    if_cases (λ t. is_empty t ≡ false) (contains_secret_like s) (λ k. refl) (λ k. h)

fail_metadata-IsFailed :
    (status : Status) (code message : Text) (m : Metadata)
    → is_empty code ≡ false
    → IsFailed (fail_metadata status code message m)
unfolding fail_metadata
fail_metadata-IsFailed status code message m h = record {
  code = redact_secret_like-full code h;
  clean_code = redact_secret_like-clean code;
  clean_message = redact_secret_like-clean message;
}

module _ (disk : Disk) (opts : LoadOptions) where
  pub unavailable-Loads :
      (code message : Text) (m : Metadata)
      → is_empty code ≡ false
      → Loads disk opts (fail_metadata declared_unavailable code message m)
  unfolding fail_metadata
  unavailable-Loads code message m h = fail_metadata-IsFailed declared_unavailable code message m h

  pub invalid-Loads :
      (code message : Text) (m : Metadata)
      → is_empty code ≡ false
      → Loads disk opts (fail_metadata declared_invalid code message m)
  unfolding fail_metadata
  invalid-Loads code message m h = fail_metadata-IsFailed declared_invalid code message m h

  -- The metadata just before the assets.
  pub record Ready (m : Metadata) : Type 0 where
    pub own_id : matches_id_pattern m.plugin_id ≡ true
    pub generation : m.plugin_generation ≡ opts.plugin_generation
    pub positive : is_positive m.plugin_generation ≡ true
    pub root : is_abs m.bundle_root_path ≡ true
    pub manifest : IsWithin disk m.bundle_root_path m.manifest_path
    pub digest : Digests disk m.manifest_path m.manifest_digest
    pub schema : is_blank m.schema_version ≡ false
    pub observed : (m.observed_at == 0) ≡ false
    pub correlation : is_blank m.correlation ≡ false
    pub no_code : m.redacted_error_code ≡ []
    pub no_message : m.redacted_error_message ≡ []

  DeclaresAll-append :
      (root : Text) (ps : List Text) (xs : List Asset) (p : Text) (a : Asset)
      → DeclaresAll disk root ps xs
      → Declares disk root p a
      → DeclaresAll disk root (ps ++ p ∷ []) (xs ++ a ∷ [])
  DeclaresAll-append root [] [] p a h k = (k, tt)
  DeclaresAll-append root (q ∷ ps) (b ∷ xs) p a (h, hs) k =
      (h, DeclaresAll-append root ps xs p a hs k)
  DeclaresAll-append root [] (b ∷ xs) p a h k = elim h [ ]
  DeclaresAll-append root (q ∷ ps) [] p a h k = elim h [ ]

  Digests-valid :
      (path : Text) (d : Digest)
      → IsDocumented disk
      → Digests disk path d
      → validate_digest d ≡ true
  Digests-valid path d doc (b, r, e) = ap validate_digest e ∙ digest_of-valid disk b doc

  DeclaresAll-valid :
      (root : Text) (ps : List Text) (xs : List Asset)
      → IsDocumented disk
      → DeclaresAll disk root ps xs
      → validate_assets xs ≡ none
  unfolding validate_assets
  DeclaresAll-valid root [] [] doc h = refl
  DeclaresAll-valid root (p ∷ ps) (a ∷ xs) doc (h, hs) =
      rw (abs-full a.path h.within.absolute, Digests-valid a.path a.digest doc h.digest)
        (DeclaresAll-valid root ps xs doc hs)
  DeclaresAll-valid root [] (a ∷ xs) doc h = elim h [ ]
  DeclaresAll-valid root (p ∷ ps) [] doc h = elim h [ ]

  no_secret : contains_secret_like [] ≡ false
  unfolding contains_secret_like
  no_secret = refl

  valid-Loads :
      (m : Metadata) (xs : List Asset)
      → IsDocumented disk
      → Ready m
      → DeclaresAll disk m.bundle_root_path opts.expected_lua_asset_paths xs
      → Loads disk opts (record m { lua_assets = xs; validation_status = declared_valid })
  unfolding validate validate_facts
  valid-Loads m xs doc r h = record {
    accepted =
        rw
          (
            r.own_id,
            r.positive,
            r.generation,
            (==_iff opts.plugin_generation opts.plugin_generation).1 refl,
            abs-full m.bundle_root_path r.root,
            abs-full m.manifest_path r.manifest.absolute,
            Digests-valid m.manifest_path m.manifest_digest doc r.digest,
            r.schema,
            r.observed,
            r.correlation,
            r.no_code,
            r.no_message,
            no_secret,
          )
          (DeclaresAll-valid m.bundle_root_path opts.expected_lua_asset_paths xs doc h);
    manifest = r.manifest;
    digest = r.digest;
    assets = h;
    no_error = rw r.no_code refl;
  }

  after_asset-Loads :
      (m : Metadata) (xs : List Asset) (p path : Text) (loop : List Asset → Metadata) (c : Contents)
      → disk.read path ≡ c
      → resolve_bundle_path disk m.bundle_root_path p ≡ some path
      → IsWithin disk m.bundle_root_path path
      → ((a : Asset) → Declares disk m.bundle_root_path p a → Loads disk opts (loop (xs ++ a ∷ [])))
      → Loads disk opts (after_asset disk xs path loop m c)
  after_asset-Loads m xs p path loop missing e r w rest =
      unavailable-Loads (codes "missing_lua_asset") (codes "lua asset is unavailable")
        (record m { lua_assets = xs ++ path_only path ∷ [] }) refl
  after_asset-Loads m xs p path loop unreadable e r w rest =
      unavailable-Loads (codes "unreadable_lua_asset") (codes "lua asset is unavailable")
        (record m { lua_assets = xs ++ path_only path ∷ [] }) refl
  after_asset-Loads m xs p path loop (bytes b) e r w rest =
      rest (record { path = path; digest = digest_of disk b })
        (record { resolved = r; within = w; digest = (b, e, refl) })

  after_asset_path-Loads :
      (m : Metadata) (xs : List Asset) (p : Text) (loop : List Asset → Metadata) (o : Option Text)
      → IsDocumented disk
      → resolve_bundle_path disk m.bundle_root_path p ≡ o
      → ((a : Asset) → Declares disk m.bundle_root_path p a → Loads disk opts (loop (xs ++ a ∷ [])))
      → Loads disk opts (after_asset_path disk xs p loop m o)
  after_asset_path-Loads m xs p loop none doc e rest =
      invalid-Loads (codes "invalid_lua_asset_path") (codes "lua asset path is outside bundle root")
        (record m { lua_assets = xs ++ path_only p ∷ [] }) refl
  after_asset_path-Loads m xs p loop (some path) doc e rest =
      after_asset-Loads m xs p path loop (disk.read path) refl e
        (resolve_bundle_path-IsWithin disk m.bundle_root_path p path doc e) rest

  pub load_assets-Loads :
      (m : Metadata) (before : List Text) (xs : List Asset) (ps : List Text)
      → IsDocumented disk
      → Ready m
      → DeclaresAll disk m.bundle_root_path before xs
      → before ++ ps ≡ opts.expected_lua_asset_paths
      → Loads disk opts (load_assets disk m.bundle_root_path m xs ps)
  unfolding load_assets
  load_assets-Loads m before xs [] doc r h e =
      valid-Loads m xs doc r
        (subst (λ ps. DeclaresAll disk m.bundle_root_path ps xs) (sym (append-nil before) ∙ e) h)
  load_assets-Loads m before xs (p ∷ ps) doc r h e =
      after_asset_path-Loads m xs p (λ ys. load_assets disk m.bundle_root_path m ys ps)
        (resolve_bundle_path disk m.bundle_root_path p) doc refl
        (λ a d.
          load_assets-Loads m (before ++ p ∷ []) (xs ++ a ∷ []) ps doc r
            (DeclaresAll-append m.bundle_root_path before xs p a h d)
            (append_assoc before (p ∷ []) ps ∙ e))
