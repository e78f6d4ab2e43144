-- ===== src/Auth/Config.antt =====
-- crates/vaultwarden-eso-provider/src/auth.rs: the policy file of the scoped tokens, its reload, and
-- the mode that the arguments configure.
use vaultwarden_eso_provider.Prelude.{
  ℕ, ◌+◌, ◌-◌, ◌*◌, ◌^◌, min, String, Bool, true, false, not, ◌&&◌, ◌||◌, Option, none, some, List,
  [], ◌∷◌, Result, ok, err, ◌>>=◌, ◌>>◌, ok_or, bail_if, ltb, leb, ◌==◌, if◌then◌else◌, length,
  take, is_empty, any, all, is_some,
}
use vaultwarden_eso_provider.Text.{
  Text, text_eq, trim, byte_len, is_ascii_graphic, trim_end_matches,
}
use vaultwarden_eso_provider.Utf8.{as_bytes, from_utf8}
use vaultwarden_eso_provider.Primitives.{Primitives}
use vaultwarden_eso_provider.Policy.{PolicyRules, allow_list, Files, texts_eq, rules_eq}
use vaultwarden_eso_provider.Auth.{
  min_scoped_token_bytes, max_scoped_token_bytes, TokenDigest, ScopedAuthRules, WebhookAuth, legacy,
  scoped_policy, disabled_insecure, digest_of,
}

abbrev pub max_auth_policy_file_bytes : ℕ
max_auth_policy_file_bytes = 1024 * 1024

abbrev pub max_auth_capabilities : ℕ
max_auth_capabilities = 1024

abbrev pub max_auth_tokens : ℕ
max_auth_tokens = 4096

abbrev pub auth_policy_version : ℕ
auth_policy_version = 1

-- The messages of the source as constructors, with the index and the name that they print.
pub data AuthError : Type 0 where
  conflicting_modes missing_mode both_given empty_secret file_unreadable : AuthError
  open_failed read_failed file_too_large invalid_json : AuthError
  unsupported_version : ℕ → AuthError
  no_capability too_many_capabilities too_many_tokens duplicate_name duplicate_token : AuthError
  empty_name padded_name no_tokens no_keys bad_token_length bad_token_bytes : ℕ → AuthError
  empty_entry : ℕ → String → AuthError

pub record RawCapability : Type 0 where
  pub name : Text
  pub tokens : List Text
  pub allowed_keys : List Text
  pub allowed_key_prefixes : List Text

pub record RawAuthPolicy : Type 0 where
  pub version : ℕ
  pub capabilities : List RawCapability

unfoldable pub normalize_entries : ℕ → String → List Text → Result AuthError (List Text)
normalize_entries index field [] = ok []
normalize_entries index field (entry ∷ entries) = do
  bail_if (is_empty (trim entry)) (empty_entry index field)
  rest ← normalize_entries index field entries
  ok (trim entry ∷ rest)

unfoldable pub validate_scoped_token : ℕ → Text → Result AuthError (Unit {0})
validate_scoped_token index token = do
  bail_if
      (not (
        leb min_scoped_token_bytes (byte_len token) && leb (byte_len token) max_scoped_token_bytes))
      (bad_token_length index)
  bail_if (not (all is_ascii_graphic (as_bytes token))) (bad_token_bytes index)
  ok tt

-- Membership of a `HashSet` of texts or digests.
abbrev pub seen : List Text → Text → Bool
seen set s = any (text_eq s) set

-- `usize::saturating_add`.
abbrev pub saturating_add : ℕ → ℕ → ℕ
saturating_add a b = min (a + b) (2 ^ 64 - 1)

-- The derived equality of `ScopedAuthRules`.
unfoldable pub capabilities_eq : ScopedAuthRules → ScopedAuthRules → Bool
capabilities_eq [] [] = true
capabilities_eq (c ∷ cs) (d ∷ ds) =
    texts_eq c.tokens d.tokens
    && rules_eq c.selector_rules d.selector_rules
    && capabilities_eq cs ds
capabilities_eq _ _ = false

-- What a reload does with the rules that the file gives.
unfoldable pub swap_capabilities :
    ScopedAuthRules → Result AuthError ScopedAuthRules → Result AuthError Bool × ScopedAuthRules
swap_capabilities current (err e) = (err e, current)
swap_capabilities current (ok next) =
    if capabilities_eq current next then (ok false, current) else (ok true, next)

module _ (p : Primitives) where
  -- The loop over the tokens of one capability: its digests, and the set with them.
  unfoldable pub read_tokens :
      ℕ → List TokenDigest → List Text → Result AuthError (List TokenDigest × List TokenDigest)
  read_tokens index digests [] = ok ([], digests)
  read_tokens index digests (token ∷ tokens) = do
    validate_scoped_token index token
    bail_if (seen digests (digest_of p token)) duplicate_token
    (rest, digests') ← read_tokens index (digest_of p token ∷ digests) tokens
    ok (digest_of p token ∷ rest, digests')

  -- The two lists of keys of one capability.
  unfoldable pub read_rules : ℕ → RawCapability → Result AuthError PolicyRules
  read_rules index capability = do
    allowed_keys ← normalize_entries index "allowedKeys" capability.allowed_keys
    allowed_key_prefixes ←
        normalize_entries index "allowedKeyPrefixes" capability.allowed_key_prefixes
    bail_if (is_empty allowed_keys && is_empty allowed_key_prefixes) (no_keys index)
    ok (allow_list allowed_keys allowed_key_prefixes)

  -- The loop over the capabilities, from its variables.
  unfoldable pub read_capabilities :
      ℕ → List Text → List TokenDigest → ℕ → List RawCapability → Result AuthError ScopedAuthRules
  unfolding read_tokens read_rules
  read_capabilities index names digests total [] = ok []
  read_capabilities index names digests total (capability ∷ capabilities) = do
    bail_if (is_empty (trim capability.name)) (empty_name index)
    bail_if (not (text_eq (trim capability.name) capability.name)) (padded_name index)
    bail_if (seen names capability.name) duplicate_name
    bail_if (is_empty capability.tokens) (no_tokens index)
    bail_if (ltb max_auth_tokens (saturating_add total (length capability.tokens))) too_many_tokens
    (tokens, digests') ← read_tokens index digests capability.tokens
    selector_rules ← read_rules index capability
    rest ←
        read_capabilities (index + 1) (capability.name ∷ names) digests'
          (saturating_add total (length capability.tokens)) capabilities
    ok (record { tokens = tokens; selector_rules = selector_rules } ∷ rest)

  -- `ScopedAuthRules::try_from`.
  unfoldable pub rules_from : RawAuthPolicy → Result AuthError ScopedAuthRules
  rules_from raw = do
    bail_if (not (raw.version == auth_policy_version)) (unsupported_version raw.version)
    bail_if (is_empty raw.capabilities) no_capability
    bail_if (ltb max_auth_capabilities (length raw.capabilities)) too_many_capabilities
    read_capabilities 0 [] [] 0 raw.capabilities

  module _ (from_str : Text → Option RawAuthPolicy) (files : Files) where
    -- `ScopedAuthRules::read`; `from_str` is serde_json's, on the derived `Deserialize`.
    unfoldable pub read_scoped_rules : Text → Result AuthError ScopedAuthRules
    read_scoped_rules path = do
      bytes ← ok_or open_failed (files path)
      let head = take (max_auth_policy_file_bytes + 1) bytes
      contents ← ok_or read_failed (from_utf8 head)
      bail_if (ltb max_auth_policy_file_bytes (length head)) file_too_large
      raw ← ok_or invalid_json (from_str contents)
      rules_from raw

    -- `ScopedAuthPolicy::reload`, on the rules that are served.
    unfoldable pub reload_scoped : Text → ScopedAuthRules → Result AuthError Bool × ScopedAuthRules
    reload_scoped path current = swap_capabilities current (read_scoped_rules path)

    -- A secret from an argument, or from a file without the line ends at its end.
    unfoldable pub read_optional_secret : Option Text → Option Text → Result AuthError (Option Text)
    read_optional_secret (some value) (some path) = err both_given
    read_optional_secret (some value) none = do
      bail_if (is_empty (trim value)) empty_secret
      ok (some value)
    read_optional_secret none (some path) = do
      bytes ← ok_or file_unreadable (files path)
      contents ← ok_or file_unreadable (from_utf8 bytes)
      let resolved = trim_end_matches (λ c. c == b'\r' || c == b'\n') contents
      bail_if (is_empty (trim resolved)) empty_secret
      ok (some resolved)
    read_optional_secret none none = ok none

    abbrev pub from_bool : Bool → ℕ
    from_bool true = 1
    from_bool false = 0

    -- The mode that is configured, where there is one.
    unfoldable pub configured_mode : Option Text → Option Text → Bool → Result AuthError WebhookAuth
    configured_mode (some token) scoped_policy_file insecure = ok (legacy (digest_of p token))
    configured_mode none (some path) insecure = do
      rules ← read_scoped_rules path
      ok (scoped_policy rules)
    configured_mode none none true = ok disabled_insecure
    configured_mode none none false = err missing_mode

    -- `WebhookAuth::from_config`.
    unfoldable pub from_config :
        Option Text → Option Text → Option Text → Bool → Result AuthError WebhookAuth
    from_config token_arg token_file scoped_policy_file insecure_allow_unauthenticated = do
      token ← read_optional_secret token_arg token_file
      bail_if
          (ltb 1 (
            from_bool (is_some token)
            + from_bool (is_some scoped_policy_file)
            + from_bool insecure_allow_unauthenticated))
          conflicting_modes
      configured_mode token scoped_policy_file insecure_allow_unauthenticated
