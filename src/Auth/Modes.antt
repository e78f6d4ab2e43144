-- ===== src/Auth/Modes.antt =====
-- Which arguments switch the authentication off.
use vaultwarden_eso_provider.Prelude.{
  ◌≡◌, refl, Bool, true, false, Option, none, some, ◌+◌, ◌||◌, ◌==◌, ok, >>=-eq-ok, ok_injective,
  ok_or, bail_if, is_empty, ltb, is_some,
}
use vaultwarden_eso_provider.Text.{Text, trim, trim_end_matches}
use vaultwarden_eso_provider.Utf8.{from_utf8}
use vaultwarden_eso_provider.Primitives.{Primitives}
use vaultwarden_eso_provider.Policy.{Files}
use vaultwarden_eso_provider.Auth.{disabled_insecure}
use vaultwarden_eso_provider.Auth.Config.{
  RawAuthPolicy, file_unreadable, empty_secret, conflicting_modes, read_optional_secret,
  configured_mode, read_scoped_rules, from_config, from_bool,
}

no_secret :
    (p : Primitives) (from_str : Text → Option RawAuthPolicy) (files : Files)
    (value file : Option Text)
    → read_optional_secret p from_str files value file ≡ ok none
    → (value ≡ none) × (file ≡ none)
unfolding read_optional_secret
no_secret p from_str files none none h = (refl, refl)
no_secret p from_str files none (some path) h =
    let (bytes, _, h₁) = >>=-eq-ok (ok_or file_unreadable (files path)) _ h in
    let (contents, _, h₂) = >>=-eq-ok (ok_or file_unreadable (from_utf8 bytes)) _ h₁ in
    let resolved = trim_end_matches (λ c. c == b'\r' || c == b'\n') contents in
    let (_, _, h₃) = >>=-eq-ok (bail_if (is_empty (trim resolved)) empty_secret) _ h₂ in
    let e = ok_injective h₃ in cc
no_secret p from_str files (some value) none h =
    let (_, _, h₁) = >>=-eq-ok (bail_if (is_empty (trim value)) empty_secret) _ h in
    let e = ok_injective h₁ in cc
no_secret p from_str files (some value) (some path) h = cc

configured_mode-disabled :
    (p : Primitives) (from_str : Text → Option RawAuthPolicy) (files : Files)
    (token file : Option Text) (insecure : Bool)
    → configured_mode p from_str files token file insecure ≡ ok disabled_insecure
    → (token ≡ none) × (file ≡ none) × (insecure ≡ true)
unfolding configured_mode
configured_mode-disabled p from_str files (some token) file insecure h =
    let e = ok_injective h in cc
configured_mode-disabled p from_str files none (some path) insecure h =
    let (rules, _, h₁) = >>=-eq-ok (read_scoped_rules p from_str files path) _ h in
    let e = ok_injective h₁ in cc
configured_mode-disabled p from_str files none none true h = (refl, refl, refl)
configured_mode-disabled p from_str files none none false h = cc

-- Requests are accepted without a token only where the configuration says so, and names no token and
-- no policy file.
pub from_config-disabled :
    (p : Primitives) (from_str : Text → Option RawAuthPolicy) (files : Files)
    (token token_file scoped_policy_file : Option Text) (insecure : Bool)
    → from_config p from_str files token token_file scoped_policy_file insecure
      ≡ ok disabled_insecure
    → (insecure ≡ true) × (token ≡ none) × (token_file ≡ none) × (scoped_policy_file ≡ none)
unfolding from_config
from_config-disabled p from_str files token token_file scoped_policy_file insecure h =
    let (secret, e₁, h₁) = >>=-eq-ok (read_optional_secret p from_str files token token_file) _ h in
    let modes =
      from_bool p from_str files (is_some secret)
      + from_bool p from_str files (is_some scoped_policy_file)
      + from_bool p from_str files insecure in
    let (_, _, h₂) = >>=-eq-ok (bail_if (ltb 1 modes) conflicting_modes) _ h₁ in
    let (no_token, no_policy, allowed) =
      configured_mode-disabled p from_str files secret scoped_policy_file insecure h₂ in
    let (no_value, no_file) = no_secret p from_str files token token_file (rw no_token at e₁) in
    (allowed, no_value, no_file, no_policy)
