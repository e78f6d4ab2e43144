-- ===== src/Auth.antt =====
-- crates/vaultwarden-eso-provider/src/auth.rs: bearer tokens, and the scopes they authorize.
pub mod Bearer
pub mod Config
pub mod Modes
pub mod Scopes
pub mod Capabilities
use vaultwarden_eso_provider.Prelude.{
  ℕ, ◌+◌, ◌-◌, ◌*◌, ◌^◌, min, String, Bool, true, false, not, ◌&&◌, ◌||◌, Option, none, some, List,
  [], ◌∷◌, ◌++◌, Result, ok, err, ◌>>=◌, ◌>>◌, ok_or, bail_if, ltb, leb, ◌==◌, if◌then◌else◌,
  length, take, is_empty, any, all, is_some, and_then, option_map,
}
use vaultwarden_eso_provider.Text.{
  Text, codes, text_eq, trim, byte_len, split_once, eq_ignore_ascii_case, is_ascii_whitespace,
  is_ascii_graphic, trim_end_matches,
}
use vaultwarden_eso_provider.Utf8.{Bytes, as_bytes, from_utf8}
use vaultwarden_eso_provider.Primitives.{Primitives}
use vaultwarden_eso_provider.Policy.{PolicyRules, allow_list, allows, Files, texts_eq, rules_eq}

abbrev pub min_scoped_token_bytes : ℕ
min_scoped_token_bytes = 32

abbrev pub max_scoped_token_bytes : ℕ
max_scoped_token_bytes = 4096

-- `TokenDigest`: a SHA-256 digest, compared in constant time.
abbrev pub TokenDigest : Type 0
TokenDigest = Bytes

pub record ScopedCapability : Type 0 where
  pub tokens : List TokenDigest
  pub selector_rules : PolicyRules

-- The only field of `ScopedAuthRules`.
abbrev pub ScopedAuthRules : Type 0
ScopedAuthRules = List ScopedCapability

pub data AuthorizedScope : Type 0 where
  global : AuthorizedScope
  scoped : PolicyRules → AuthorizedScope

-- `AuthorizedScope::allows`.
unfoldable pub scope_allows : AuthorizedScope → Text → Bool
scope_allows global key = true
scope_allows (scoped rules) key = allows rules key

-- The text `scheme token` of one header.
unfoldable pub bearer_from : Text × Text → Option Text
bearer_from (scheme, token) =
    if not (eq_ignore_ascii_case scheme (codes "Bearer"))
      || is_empty token
      || any is_ascii_whitespace token
    then none
    else some token

-- The values of the authorization headers: `none` where `to_str` refuses one.
unfoldable pub bearer_token : List (Option Text) → Option Text
bearer_token (some raw ∷ []) = and_then (split_once b' ' raw) bearer_from
bearer_token _ = none

pub data WebhookAuth : Type 0 where
  legacy : TokenDigest → WebhookAuth
  scoped_policy : ScopedAuthRules → WebhookAuth
  disabled_insecure : WebhookAuth

module _ (p : Primitives) where
  -- `TokenDigest::new`.
  unfoldable pub digest_of : Text → TokenDigest
  digest_of token = p.sha256 (as_bytes token)

  -- The tokens of one capability against the digest that was supplied.
  unfoldable pub scan_tokens :
      TokenDigest → PolicyRules → Option PolicyRules → List TokenDigest → Option PolicyRules
  scan_tokens supplied rules matched [] = matched
  scan_tokens supplied rules matched (expected ∷ tokens) =
      scan_tokens supplied rules (if text_eq expected supplied then some rules else matched) tokens

  -- The loops of `ScopedAuthRules::authorize`: no match ends them, and the last one counts.
  unfoldable pub scan_capabilities :
      TokenDigest → Option PolicyRules → ScopedAuthRules → Option PolicyRules
  unfolding scan_tokens
  scan_capabilities supplied matched [] = matched
  scan_capabilities supplied matched (capability ∷ capabilities) =
      scan_capabilities supplied
        (scan_tokens supplied capability.selector_rules matched capability.tokens) capabilities

  -- `ScopedAuthPolicy::authorize`.
  unfoldable pub authorize_scoped : ScopedAuthRules → Text → Option AuthorizedScope
  authorize_scoped rules supplied =
      if not (
        leb min_scoped_token_bytes (byte_len supplied)
        && leb (byte_len supplied) max_scoped_token_bytes)
      then none
      else option_map scoped (scan_capabilities (digest_of supplied) none rules)

  -- `WebhookAuth::authorize`, on the values of the authorization headers.
  unfoldable pub authorize : WebhookAuth → List (Option Text) → Option AuthorizedScope
  authorize disabled_insecure headers = some global
  authorize (legacy expected) headers =
      and_then (bearer_token headers)
        (λ supplied. if text_eq expected (digest_of supplied) then some global else none)
  authorize (scoped_policy rules) headers =
      and_then (bearer_token headers) (λ supplied. authorize_scoped rules supplied)
