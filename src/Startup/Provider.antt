-- ===== src/Startup/Provider.antt =====
-- What holds of a provider that has started.
use vaultwarden_eso_provider.Prelude.{
  ℕ, String, ◌≡◌, ◌≢◌, ◌≤◌, refl, ap, ◌∙◌, subst, Bool, true, false, Option, none, some, List, ok,
  arith, >>=-eq-ok, ok_injective, map_err, map_err-eq-ok, bail_if, bail_if-eq-ok, ◌==◌,
}
use vaultwarden_eso_provider.Text.{Text}
use vaultwarden_eso_provider.Utf8.{Bytes}
use vaultwarden_eso_provider.Primitives.{Primitives}
use vaultwarden_eso_provider.Core.{is_blank, require_non_empty, empty_field}
use vaultwarden_eso_provider.Policy.{Files, from_args}
use vaultwarden_eso_provider.Policy.Reload.{HasStarted, from_args-IsRestricted}
use vaultwarden_eso_provider.Auth.{WebhookAuth, disabled_insecure}
use vaultwarden_eso_provider.Auth.Config.{RawAuthPolicy}
use vaultwarden_eso_provider.Auth.Modes.{from_config-disabled}
use vaultwarden_eso_provider.Cache.{from_secs}
use vaultwarden_eso_provider.Endpoints.{UrlCrate, BitwardenEndpoints, parse_endpoint, parse_split}
use vaultwarden_eso_provider.Endpoints.Security.{
  KeepsOrigin, AreSecure, parse_named_iff, from_single_origin-AreSecure, parse_split-AreSecure,
}
use vaultwarden_eso_provider.Client.{ApiClient, HttpClient, no_redirects, http_client_from}
use vaultwarden_eso_provider.Client.Building.{with_options-fields}
use vaultwarden_eso_provider.Client.Options.{new_http_config, with_extra_root_certificates}
use vaultwarden_eso_provider.Startup.{
  Args, Started, validation, zero_connect_timeout, zero_request_timeout, endpoint, client, policy,
  auth, sensitive_value, read_sensitive_arg, endpoints_from, endpoints_from_args,
  load_extra_root_certificates, provider_from_args, cache_config_from, start, resolve_semaphore,
  webhook_auth_from_args,
}

read_sensitive_arg_solid :
    (files : Files) (value file : Option Text) (name : String) (secret : Text)
    → read_sensitive_arg files value file name ≡ ok secret
    → is_blank secret ≡ false
unfolding read_sensitive_arg require_non_empty
read_sensitive_arg_solid files value file name secret h =
    let (resolved, _, h₁) = >>=-eq-ok (sensitive_value files value file name) _ h in
    let (_, e, h₂) = >>=-eq-ok (map_err validation (require_non_empty resolved name)) _ h₁ in
    subst (λ s. is_blank s ≡ false) (ok_injective h₂)
      (bail_if-eq-ok (is_blank resolved) (empty_field name) (map_err-eq-ok validation _ e))

-- Requests are accepted without a token only where the arguments say so, and then they name no token
-- and no policy file.
abbrev pub IsAuthenticated : Args → WebhookAuth → Type 0
IsAuthenticated args mode =
    mode ≡ disabled_insecure
    → (args.insecure_allow_unauthenticated ≡ true)
      × (args.webhook_auth_token ≡ none)
      × (args.webhook_auth_token_file ≡ none)
      × (args.auth_policy_file ≡ none)

module _ (c : UrlCrate) (keeps : KeepsOrigin c) where
  endpoints_from-AreSecure :
      (single_origin_url identity_url api_url : Option Text) (endpoints : BitwardenEndpoints c)
      → endpoints_from c single_origin_url identity_url api_url ≡ ok endpoints
      → AreSecure c endpoints
  unfolding endpoints_from parse_endpoint
  endpoints_from-AreSecure (some single) none none endpoints h =
      let (base_url, e, h₁) = >>=-eq-ok (map_err endpoint (parse_endpoint c single)) _ h in
      let (_, _, secure) =
        (parse_named_iff c single "single_origin_url" base_url).0
          (map_err-eq-ok endpoint (parse_endpoint c single) e) in
      subst (AreSecure c) (ok_injective h₁) (from_single_origin-AreSecure c keeps base_url secure)
  endpoints_from-AreSecure none (some identity) (some api) endpoints h =
      parse_split-AreSecure c keeps identity api endpoints
        (map_err-eq-ok endpoint (parse_split c identity api) h)
  endpoints_from-AreSecure (some single) (some identity) api endpoints h = cc
  endpoints_from-AreSecure (some single) none (some api) endpoints h = cc
  endpoints_from-AreSecure none (some identity) none endpoints h = cc
  endpoints_from-AreSecure none none api endpoints h = cc

  module _ (files : Files) {C : Type 0} (from_pem_bundle : Bytes → Option (List C))
      (builds : HttpClient C → Bool) where
    -- A client with credentials that are not blank, timeouts that are not zero, no redirects, a memory
    -- budget that Argon2 can be given, the cache that the arguments say and nothing in it, and
    -- endpoints that use HTTPS or the local host.
    pub record IsConfigured (args : Args) (provider : ApiClient c C) : Type 0 where
      pub id_solid : is_blank provider.auth.client_id ≡ false
      pub secret_solid : is_blank provider.auth.client_secret ≡ false
      pub password_solid : is_blank provider.auth.master_password ≡ false
      pub connect_timed : provider.http.connect_timeout ≢ 0
      pub request_timed : provider.http.request_timeout ≢ 0
      pub redirects_off : provider.http.redirect_policy ≡ no_redirects
      pub budget_low : 16 ≤ provider.argon2_memory_limit_mib
      pub budget_high : provider.argon2_memory_limit_mib ≤ 1024
      pub cache_set : provider.cache_config ≡ cache_config_from c files from_pem_bundle builds args
      pub cold : provider.client_state.cache ≡ none
      pub secure : AreSecure c provider.endpoints

    seconds_timed : (n : ℕ) → (n == 0) ≡ false → from_secs n ≢ 0
    seconds_timed n h e = ground arith

    -- A provider starts only as `IsConfigured` says.
    pub provider_from_args-IsConfigured :
        (args : Args) (provider : ApiClient c C)
        → provider_from_args c files from_pem_bundle builds args ≡ ok provider
        → IsConfigured args provider
    unfolding provider_from_args endpoints_from_args http_client_from new_http_config
        with_extra_root_certificates
    provider_from_args-IsConfigured args provider h =
        let (client_id, e₁, h₁) =
          >>=-eq-ok (read_sensitive_arg files args.client_id args.client_id_file "client_id") _ h in
        let (client_secret, e₂, h₂) =
          >>=-eq-ok
            (read_sensitive_arg files args.client_secret args.client_secret_file "client_secret") _
            h₁ in
        let (master_password, e₃, h₃) =
          >>=-eq-ok
            (read_sensitive_arg files args.master_password args.master_password_file
              "master_password")
            _ h₂ in
        let (_, _, h₄) =
          >>=-eq-ok
            (map_err validation (require_non_empty args.device_identifier "device_identifier")) _
            h₃ in
        let (_, _, h₅) =
          >>=-eq-ok (map_err validation (require_non_empty args.device_name "device_name")) _ h₄ in
        let (_, e₆, h₆) =
          >>=-eq-ok (bail_if (args.http_connect_timeout_seconds == 0) zero_connect_timeout) _ h₅ in
        let (_, e₇, h₇) =
          >>=-eq-ok (bail_if (args.http_request_timeout_seconds == 0) zero_request_timeout) _ h₆ in
        let (endpoints, e₈, h₈) = >>=-eq-ok (endpoints_from_args c args) _ h₇ in
        let (certificates, _, h₉) =
          >>=-eq-ok (load_extra_root_certificates files from_pem_bundle args.ca_bundle_file) _ h₈ in
        let (low, high, same) =
          with_options-fields c builds _ provider (map_err-eq-ok client _ h₉) in
        subst (IsConfigured args) same (record {
          id_solid = read_sensitive_arg_solid files _ _ "client_id" client_id e₁;
          secret_solid = read_sensitive_arg_solid files _ _ "client_secret" client_secret e₂;
          password_solid = read_sensitive_arg_solid files _ _ "master_password" master_password e₃;
          connect_timed =
              seconds_timed args.http_connect_timeout_seconds
                (bail_if-eq-ok _ zero_connect_timeout e₆);
          redirects_off = refl;
          request_timed =
              seconds_timed args.http_request_timeout_seconds
                (bail_if-eq-ok _ zero_request_timeout e₇);
          budget_low = low;
          budget_high = high;
          cache_set = refl;
          cold = refl;
          secure =
              endpoints_from-AreSecure args.single_origin_url args.identity_url args.api_url
                endpoints e₈;
        })

    -- What `main` starts serves with a client that is configured, a policy that is restricted
    -- unless the arguments allow everything, requests that are authenticated unless the arguments
    -- say otherwise, and the permits of a limit that is not zero.
    pub record IsStarted (args : Args) (s : Started c files from_pem_bundle builds) : Type 0 where
      pub configured : IsConfigured args s.provider
      pub restricted : HasStarted args.policy s.selector_policy
      pub authenticated : IsAuthenticated args s.webhook_auth
      pub limited : s.permits ≡ resolve_semaphore args.resolve_concurrency_limit

    -- With URLs whose methods keep scheme and host, a process that starts has credentials that are not
    -- blank, timeouts that are not zero, no redirects, a memory budget from 16 to 1024 MiB, an empty
    -- cache with the settings of the arguments, endpoints that use HTTPS or the local host, a policy
    -- that is restricted unless the arguments allow everything, authentication unless the arguments
    -- switch it off and name no token and no policy file, and the permits of the limit they give.
    pub start-IsStarted :
        (p : Primitives) (from_str : Text → Option RawAuthPolicy) (args : Args)
        (s : Started c files from_pem_bundle builds)
        → start c files from_pem_bundle builds p from_str args ≡ ok s
        → IsStarted args s
    unfolding start webhook_auth_from_args
    start-IsStarted p from_str args s h =
        let (provider, e₁, h₁) =
          >>=-eq-ok (provider_from_args c files from_pem_bundle builds args) _ h in
        let (selector_policy, e₂, h₂) =
          >>=-eq-ok (map_err policy (from_args files args.policy)) _ h₁ in
        let (webhook_auth, e₃, h₃) =
          >>=-eq-ok (webhook_auth_from_args p from_str files args) _ h₂ in
        subst (IsStarted args) (ok_injective h₃) (record {
          configured = provider_from_args-IsConfigured args provider e₁;
          restricted =
              from_args-IsRestricted files args.policy selector_policy
                (map_err-eq-ok policy (from_args files args.policy) e₂);
          authenticated = λ disabled.
              from_config-disabled p from_str files args.webhook_auth_token
                args.webhook_auth_token_file args.auth_policy_file
                args.insecure_allow_unauthenticated (map_err-eq-ok auth _ e₃ ∙ ap ok disabled);
          limited = refl;
        })
