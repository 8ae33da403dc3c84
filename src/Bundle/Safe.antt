-- ===== src/Bundle/Safe.antt =====
-- internal/providerbundle/metadata.go: what the admin projection lets through.
use rpc_plugin_system.Prelude.{
  ◌≡◌, inl, inr, refl, Bool, true, false, not, ◌&&◌, ◌||◌, List, [], ◌∷◌, ◌++◌, map, Text, is_empty,
  text_eq, ◌==◌, if_cases, is_abs, Bool-cases, arith,
}
use rpc_plugin_system.Bundle.Types.{Asset, Metadata, AdminDto}
use rpc_plugin_system.Bundle.Redact.{
  Item, char, gap, matches_at, secret_like, any_at, any_in, contains_secret_like, redacted_path,
  redact_secret_like, base, is_redacted, redact_admin_string,
}
use rpc_plugin_system.Bundle.Project.{redact_asset, admin_dto}

abbrev no_slash : List Item → Bool
no_slash [] = true
no_slash (char c ∷ p) = not (c == 47) && no_slash p
no_slash (gap ∷ p) = no_slash p

abbrev none_slash : List (List Item) → Bool
none_slash [] = true
none_slash (p ∷ ps) = no_slash p && none_slash ps

-- A word that holds no slash and begins before one ends before it.
matches_at-before :
    (p : List Item) (u v : Text)
    → no_slash p ≡ true
    → matches_at p u ≡ false
    → matches_at p (u ++ 47 ∷ v) ≡ false
matches_at-before [] u v n h = h
matches_at-before (char c ∷ p) [] v n h = ground arith
matches_at-before (char c ∷ p) (x ∷ u) v n h = ground (arith, matches_at-before p u v)
matches_at-before (gap ∷ p) [] v n h = ground (arith, matches_at-before p [] v)
matches_at-before (gap ∷ p) (x ∷ u) v n h =
    ground (arith, matches_at-before p u v, matches_at-before p (x ∷ u) v)

any_at-before :
    (ps : List (List Item)) (u v : Text)
    → none_slash ps ≡ true
    → any_at ps u ≡ false
    → any_at ps (u ++ 47 ∷ v) ≡ false
any_at-before [] u v n h = refl
any_at-before (p ∷ ps) u v n h = ground (arith, matches_at-before p u v, any_at-before ps u v)

any_in-join :
    (ps : List (List Item)) (u v : Text)
    → none_slash ps ≡ true
    → any_in ps u ≡ false
    → any_in ps v ≡ false
    → any_in ps (u ++ 47 ∷ v) ≡ false
any_in-join ps [] v n h k = ground (arith, any_at-before ps [] v)
any_in-join ps (c ∷ u) v n h k = ground (arith, any_at-before ps (c ∷ u) v, any_in-join ps u v)

-- No secret-like word, and no absolute path.
pub record IsSafe (s : Text) : Type 0 where
  pub not_secret : contains_secret_like s ≡ false
  pub not_abs : is_abs s ≡ false

pub redact_secret_like-clean : (s : Text) → contains_secret_like (redact_secret_like s) ≡ false
unfolding redact_secret_like
redact_secret_like-clean s =
    if_cases (λ t. contains_secret_like t ≡ false) (contains_secret_like s)
      (λ h. unfold contains_secret_like in refl) (λ h. h)

is_redacted-clean : (s : Text) → is_redacted s ≡ false → contains_secret_like s ≡ false
unfolding is_redacted redact_secret_like
is_redacted-clean s h = elim (Bool-cases (contains_secret_like s)) [
  | inl c ↦ ground (arith, h, c)
  | inr c ↦ c
]

join-clean :
    (s : Text)
    → contains_secret_like s ≡ false
    → contains_secret_like (redacted_path ++ 47 ∷ s) ≡ false
unfolding contains_secret_like
join-clean s h = any_in-join secret_like redacted_path s refl refl h

redact_admin_string-IsSafe : (s : Text) → IsSafe (redact_admin_string s true)
unfolding redact_admin_string
redact_admin_string-IsSafe s =
    if_cases IsSafe (is_redacted s)
      (λ h. record { not_secret = unfold contains_secret_like in refl; not_abs = refl })
      (λ h.
        if_cases IsSafe (is_empty s || not (is_abs s))
          (λ k. record { not_secret = is_redacted-clean s h; not_abs = ground (arith, k) })
          (λ k.
            if_cases IsSafe
              (text_eq (base s) (46 ∷ []) || (text_eq (base s) (47 ∷ []) || is_redacted (base s)))
              (λ j. record { not_secret = unfold contains_secret_like in refl; not_abs = refl })
              (λ j. record {
                not_secret = join-clean (base s) (is_redacted-clean (base s) (ground (arith, j)));
                not_abs = refl;
              })))

abbrev pub AllSafe : List Asset → Type 0
AllSafe [] = Unit {0}
AllSafe (a ∷ xs) = IsSafe a.path × AllSafe xs

assets-AllSafe : (xs : List Asset) → AllSafe (map (redact_asset true) xs)
assets-AllSafe [] = tt
assets-AllSafe (a ∷ xs) = (redact_admin_string-IsSafe a.path, assets-AllSafe xs)

-- What an operator is shown of the metadata.
pub record IsShown (d : AdminDto) : Type 0 where
  pub bundle_root_path : IsSafe d.bundle_root_path
  pub manifest_path : IsSafe d.manifest_path
  pub lua_assets : AllSafe d.lua_assets
  pub plugin_id : contains_secret_like d.plugin_id ≡ false
  pub schema_version : contains_secret_like d.schema_version ≡ false
  pub error_code : contains_secret_like d.error_code ≡ false
  pub error_message : contains_secret_like d.error_message ≡ false
  pub correlation : contains_secret_like d.correlation ≡ false

-- With path redaction, the admin projection of any metadata has a bundle root, a manifest path and
-- asset paths that are neither absolute nor secret-like, and a plugin id, schema version, error code,
-- error message and correlation id that are not secret-like. Of the latter five, paths are not asked
-- for, and nothing of the digests and the status.
pub admin_dto-IsShown : (m : Metadata) → IsShown (admin_dto m true)
unfolding admin_dto
admin_dto-IsShown m = record {
  bundle_root_path = redact_admin_string-IsSafe m.bundle_root_path;
  manifest_path = redact_admin_string-IsSafe m.manifest_path;
  lua_assets = assets-AllSafe m.lua_assets;
  plugin_id = redact_secret_like-clean m.plugin_id;
  schema_version = redact_secret_like-clean m.schema_version;
  error_code = redact_secret_like-clean m.redacted_error_code;
  error_message = redact_secret_like-clean m.redacted_error_message;
  correlation = redact_secret_like-clean m.correlation;
}
