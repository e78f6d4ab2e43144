-- ===== src/Startup.antt =====
-- The start of crates/vaultwarden-eso-provider/src/main.rs: what the arguments must say for the
-- provider, its policy and its authentication to come up. clap's parsing of them is not modelled.
pub mod Provider
pub mod Healthcheck
use vaultwarden_eso_provider.Prelude.{
  ℕ, String, Bool, true, false, not, ◌||◌, Option, none, some, List, [], ◌∷◌, Result, ok, err,
  ◌>>=◌, ◌>>◌, map_err, ok_or, bail_if, ltb, ◌==◌, if◌then◌else◌, is_empty,
}
use vaultwarden_eso_provider.Text.{Text, trim_end_matches}
use vaultwarden_eso_provider.Utf8.{Bytes, from_utf8}
use vaultwarden_eso_provider.Primitives.{Primitives}
use vaultwarden_eso_provider.Core.{ValidationError, require_non_empty}
use vaultwarden_eso_provider.Errors.{ClientError, ApiError}
use vaultwarden_eso_provider.Policy.{Files, PolicyArgs, PolicyError, SelectorPolicy, from_args}
use vaultwarden_eso_provider.Auth.{WebhookAuth}
use vaultwarden_eso_provider.Auth.Config.{AuthError, RawAuthPolicy, from_config}
use vaultwarden_eso_provider.Cache.{CacheConfig, from_secs}
use vaultwarden_eso_provider.Endpoints.{
  UrlCrate, BitwardenEndpoints, parse_endpoint, from_single_origin, parse_split,
}
use vaultwarden_eso_provider.Client.{ApiClient, HttpClient, with_options}
use vaultwarden_eso_provider.Client.Options.{
  HttpConfig, new_cache_config, with_stale_if_error, with_refresh_retry_interval, new_http_config,
  with_extra_root_certificates,
}

-- `Args`, without the listen address; the policy's arguments are a record of their own.
pub record Args : Type 0 where
  pub single_origin_url : Option Text
  pub identity_url : Option Text
  pub api_url : Option Text
  pub client_id : Option Text
  pub client_id_file : Option Text
  pub client_secret : Option Text
  pub client_secret_file : Option Text
  pub master_password : Option Text
  pub master_password_file : Option Text
  pub device_identifier : Text
  pub device_name : Text
  pub device_type : ℕ
  pub cache_ttl_seconds : ℕ
  pub cache_stale_if_error_seconds : ℕ
  pub cache_refresh_retry_interval_seconds : ℕ
  pub policy : PolicyArgs
  pub policy_reload_interval_seconds : ℕ
  pub http_connect_timeout_seconds : ℕ
  pub http_request_timeout_seconds : ℕ
  pub ca_bundle_file : Option Text
  pub webhook_auth_token : Option Text
  pub webhook_auth_token_file : Option Text
  pub auth_policy_file : Option Text
  pub auth_policy_reload_interval_seconds : ℕ
  pub insecure_allow_unauthenticated : Bool
  pub argon2_memory_limit_mib : ℕ
  pub resolve_concurrency_limit : ℕ
  pub healthcheck_url : Option Text

pub data StartError : Type 0 where
  both_given not_given unreadable : String → StartError
  validation : ValidationError → StartError
  zero_connect_timeout zero_request_timeout : StartError
  both_endpoint_modes no_endpoint_mode : StartError
  endpoint : ClientError → StartError
  ca_unreadable ca_invalid ca_empty : StartError
  client : ApiError → StartError
  policy : PolicyError → StartError
  auth : AuthError → StartError

-- `resolve_semaphore`: its permits.
unfoldable pub resolve_semaphore : ℕ → Option ℕ
resolve_semaphore limit = if ltb 0 limit then some limit else none

-- `Args::zeroize_sensitive`, without the wiping of the memory.
unfoldable pub zeroize_sensitive : Args → Args
zeroize_sensitive args = record args {
  client_id = none;
  client_secret = none;
  master_password = none;
  webhook_auth_token = none;
}

module _ (files : Files) where
  -- The value, or the content of the file without the line ends at its end.
  unfoldable pub sensitive_value : Option Text → Option Text → String → Result StartError Text
  sensitive_value (some value) (some path) name = err (both_given name)
  sensitive_value (some value) none name = ok value
  sensitive_value none (some path) name = do
    bytes ← ok_or (unreadable name) (files path)
    contents ← ok_or (unreadable name) (from_utf8 bytes)
    ok (trim_end_matches (λ c. c == b'\r' || c == b'\n') contents)
  sensitive_value none none name = err (not_given name)

  unfoldable pub read_sensitive_arg : Option Text → Option Text → String → Result StartError Text
  unfolding sensitive_value
  read_sensitive_arg value file name = do
    resolved ← sensitive_value value file name
    map_err validation (require_non_empty resolved name)
    ok resolved

  -- `from_pem_bundle` is reqwest's.
  unfoldable pub load_extra_root_certificates :
      {C : Type 0} → (Bytes → Option (List C)) → Option Text → Result StartError (List C)
  load_extra_root_certificates from_pem_bundle none = ok []
  load_extra_root_certificates from_pem_bundle (some path) = do
    pem ← ok_or ca_unreadable (files path)
    certificates ← ok_or ca_invalid (from_pem_bundle pem)
    bail_if (is_empty certificates) ca_empty
    ok certificates

unfoldable pub webhook_auth_from_args :
    Primitives → (Text → Option RawAuthPolicy) → Files → Args → Result StartError WebhookAuth
webhook_auth_from_args p from_str files args = map_err auth (
    from_config p from_str files args.webhook_auth_token args.webhook_auth_token_file
      args.auth_policy_file args.insecure_allow_unauthenticated)

module _ (c : UrlCrate) where
  -- The match of `endpoints_from_args`.
  unfoldable pub endpoints_from :
      Option Text → Option Text → Option Text → Result StartError (BitwardenEndpoints c)
  endpoints_from (some single_origin_url) none none = do
    base_url ← map_err endpoint (parse_endpoint c single_origin_url)
    ok (from_single_origin c base_url)
  endpoints_from none (some identity_url) (some api_url) =
      map_err endpoint (parse_split c identity_url api_url)
  endpoints_from (some single_origin_url) (some identity_url) api_url = err both_endpoint_modes
  endpoints_from (some single_origin_url) none (some api_url) = err both_endpoint_modes
  endpoints_from none (some identity_url) none = err no_endpoint_mode
  endpoints_from none none api_url = err no_endpoint_mode

  unfoldable pub endpoints_from_args : Args → Result StartError (BitwardenEndpoints c)
  unfolding endpoints_from
  endpoints_from_args args = endpoints_from args.single_origin_url args.identity_url args.api_url

  module _ (files : Files) {C : Type 0} (from_pem_bundle : Bytes → Option (List C))
      (builds : HttpClient C → Bool) where
    -- The cache settings of the arguments.
    unfoldable pub cache_config_from : Args → CacheConfig
    unfolding new_cache_config with_stale_if_error with_refresh_retry_interval
    cache_config_from args =
        with_refresh_retry_interval (from_secs args.cache_refresh_retry_interval_seconds) (
          with_stale_if_error (from_secs args.cache_stale_if_error_seconds)
            (new_cache_config (from_secs args.cache_ttl_seconds)))

    unfoldable pub provider_from_args : Args → Result StartError (ApiClient c C)
    unfolding endpoints_from_args cache_config_from new_http_config with_extra_root_certificates
    provider_from_args args = do
      client_id ← read_sensitive_arg files args.client_id args.client_id_file "client_id"
      client_secret ←
          read_sensitive_arg files args.client_secret args.client_secret_file "client_secret"
      master_password ←
          read_sensitive_arg files args.master_password args.master_password_file "master_password"
      map_err validation (require_non_empty args.device_identifier "device_identifier")
      map_err validation (require_non_empty args.device_name "device_name")
      bail_if (args.http_connect_timeout_seconds == 0) zero_connect_timeout
      bail_if (args.http_request_timeout_seconds == 0) zero_request_timeout
      endpoints ← endpoints_from_args args
      certificates ← load_extra_root_certificates files from_pem_bundle args.ca_bundle_file
      map_err client (
          with_options c builds (record {
            endpoints = endpoints;
            auth = record {
              client_id = client_id;
              client_secret = client_secret;
              master_password = master_password;
            };
            device = record {
              device_type = args.device_type;
              identifier = args.device_identifier;
              device_name = args.device_name;
            };
            cache_config = cache_config_from args;
            http_config = with_extra_root_certificates certificates (
                new_http_config (from_secs args.http_connect_timeout_seconds)
                  (from_secs args.http_request_timeout_seconds));
            argon2_memory_limit_mib = args.argon2_memory_limit_mib;
          }))

    -- The state that `main` builds, in its order.
    pub record Started : Type 0 where
      pub provider : ApiClient c C
      pub selector_policy : SelectorPolicy
      pub webhook_auth : WebhookAuth
      pub permits : Option ℕ

    unfoldable pub start :
        Primitives → (Text → Option RawAuthPolicy) → Args → Result StartError Started
    unfolding provider_from_args resolve_semaphore webhook_auth_from_args
    start p from_str args = do
      provider ← provider_from_args args
      selector_policy ← map_err policy (from_args files args.policy)
      webhook_auth ← webhook_auth_from_args p from_str files args
      ok (record {
        provider = provider;
        selector_policy = selector_policy;
        webhook_auth = webhook_auth;
        permits = resolve_semaphore args.resolve_concurrency_limit;
      })
