-- ===== src/EventLog/Provider.antt =====
-- internal/eventlog/provider.go: what may stand in an event about a provider.
use rpc_plugin_system.Prelude.{
  ℕ, Bool, true, false, not, ◌&&◌, ◌||◌, List, [], ◌∷◌, map, Text, codes, is_between, is_control,
  any_of, is_blank, trim_space, contains, to_lower, is_abs, ◌==◌, if◌then◌else◌,
}
use rpc_plugin_system.EventLog.Types.{
  Detail, null, flag, number, text, texts, items, object, other, Details, nil, cons, Fields, end,
  field,
}

abbrev pub unsafe_detail_markers : List Text
unsafe_detail_markers =
    codes "raw_prompt"
    ∷ codes "prompt"
    ∷ codes "payload"
    ∷ codes "request_body"
    ∷ codes "response_body"
    ∷ codes "body"
    ∷ codes "credential"
    ∷ codes "credentials"
    ∷ codes "secret"
    ∷ codes "client_secret"
    ∷ codes "token"
    ∷ codes "access_token"
    ∷ codes "refresh_token"
    ∷ codes "password"
    ∷ codes "passwd"
    ∷ codes "api_key"
    ∷ codes "apikey"
    ∷ codes "private_key"
    ∷ codes "privatekey"
    ∷ codes "bearer"
    ∷ codes "authorization"
    ∷ codes "jwt"
    ∷ codes "oauth"
    ∷ codes "authority"
    ∷ codes "authority_ref"
    ∷ codes "authority-use-ref"
    ∷ codes "authority_use_ref"
    ∷ codes "use_ref"
    ∷ codes "handle"
    ∷ codes "socket"
    ∷ codes "session"
    ∷ codes "signer"
    ∷ codes "path"
    ∷ codes "filepath"
    ∷ codes "file_path"
    ∷ codes "absolute_path"
    ∷ []

-- The replacer, then strings.ToLower.
abbrev pub normalize_code : ℕ → ℕ
normalize_code c = if (c == 45) || ((c == 32) || ((c == 46) || (c == 58))) then 95 else to_lower c

abbrev pub contains_any : List Text → Text → Bool
contains_any [] s = false
contains_any (m ∷ ms) s = contains (map to_lower m) s || contains_any ms s

unfoldable pub unsafe_provider_text : Text → Bool
unsafe_provider_text s = contains_any unsafe_detail_markers (map normalize_code s)

-- unicode.IsLetter of a first byte that is followed by a colon: an ASCII letter
abbrev pub is_letter : ℕ → Bool
is_letter c = is_between 97 122 c || is_between 65 90 c

abbrev pub has_drive : Text → Bool
has_drive (c ∷ (d ∷ (e ∷ s))) = is_letter c && ((d == 58) && ((e == 92) || (e == 47)))
has_drive _ = false

unfoldable pub looks_like_private_path : Text → Bool
looks_like_private_path s = is_abs (trim_space s) || has_drive (trim_space s)

-- The test that a text is refused or redacted by.
abbrev pub is_unsafe : Text → Bool
is_unsafe s = unsafe_provider_text s || looks_like_private_path s

-- validateSafeProviderText
unfoldable pub is_safe_field : Text → Bool
is_safe_field s = is_blank s || not (any_of is_control s || is_unsafe s)

abbrev pub all_safe : List Text → Bool
all_safe [] = true
all_safe (s ∷ ss) = not (is_unsafe s) && all_safe ss

-- safeProviderDetails and validateProviderDetailValue, `false` being an error: the details that pass
-- are passed on as they are.
unfoldable mutual
  pub is_safe_detail : Detail → Bool
  is_safe_detail null = true
  is_safe_detail (flag b) = true
  is_safe_detail (number n) = true
  is_safe_detail (text s) = not (is_unsafe s)
  is_safe_detail (texts ss) = all_safe ss
  is_safe_detail (items ds) = are_safe_details ds
  is_safe_detail (object fs) = are_safe_fields fs
  is_safe_detail (other n) = false

  pub are_safe_details : Details → Bool
  are_safe_details nil = true
  are_safe_details (cons d ds) = is_safe_detail d && are_safe_details ds

  pub are_safe_fields : Fields → Bool
  are_safe_fields end = true
  are_safe_fields (field k d fs) =
      not (unsafe_provider_text k) && (is_safe_detail d && are_safe_fields fs)
