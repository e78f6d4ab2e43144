-- ===== src/Tests/Startup.antt =====
-- A witness on a start.
use vaultwarden_eso_provider.Prelude.{ℕ, ◌≡◌, true, some, none, [], ok}
use vaultwarden_eso_provider.Text.{
  codes, trim, is_whitespace, trim_start_matches, trim_end_matches, cons_trimmed, split_once,
  cons_first, text_eq,
}
use vaultwarden_eso_provider.Utf8.{from_utf8}
use vaultwarden_eso_provider.Core.{require_non_empty, is_blank}
use vaultwarden_eso_provider.Auth.{disabled_insecure}
use vaultwarden_eso_provider.Auth.Config.{from_config, configured_mode, read_optional_secret}
use vaultwarden_eso_provider.Cache.{from_secs}
use vaultwarden_eso_provider.Endpoints.{
  parse_endpoint, parse_named, is_insecure, from_single_origin, append_path_segments, push_all,
}
use vaultwarden_eso_provider.Client.{no_redirects, http_client_from, new_state, with_options}
use vaultwarden_eso_provider.Client.Options.{
  new_cache_config, with_stale_if_error, with_refresh_retry_interval, new_http_config,
  with_extra_root_certificates,
}
use vaultwarden_eso_provider.Startup.{
  Args, Started, start, provider_from_args, read_sensitive_arg, sensitive_value,
  endpoints_from_args, endpoints_from, load_extra_root_certificates, cache_config_from,
  resolve_semaphore, webhook_auth_from_args,
}
use vaultwarden_eso_provider.Startup.Provider.{IsStarted, start-IsStarted}
use vaultwarden_eso_provider.Tests.Samples.{toy}
use vaultwarden_eso_provider.Tests.Client.{addresses, addresses-KeepsOrigin}
use vaultwarden_eso_provider.Tests.Provider.{files, args, policy, policy_started, raw_policy}

abbrev arguments : Args
arguments = record {
  single_origin_url = some (codes "http:localhost");
  identity_url = none;
  api_url = none;
  client_id = some (codes "user.1");
  client_id_file = none;
  client_secret = none;
  client_secret_file = some (codes "secret");
  master_password = some (codes "secret");
  master_password_file = none;
  device_identifier = codes "d";
  device_name = codes "n";
  device_type = 22;
  cache_ttl_seconds = 60;
  cache_stale_if_error_seconds = 0;
  cache_refresh_retry_interval_seconds = 15;
  policy = args;
  policy_reload_interval_seconds = 30;
  http_connect_timeout_seconds = 5;
  http_request_timeout_seconds = 25;
  ca_bundle_file = none;
  webhook_auth_token = none;
  webhook_auth_token_file = none;
  auth_policy_file = none;
  auth_policy_reload_interval_seconds = 30;
  insecure_allow_unauthenticated = true;
  argon2_memory_limit_mib = 64;
  resolve_concurrency_limit = 16;
  healthcheck_url = none;
}

-- The state that these arguments start.
abbrev started : Started addresses files {C = ℕ} (λ pem. none) (λ http_config. true)
started = record {
  provider = record {
    endpoints = record {
      identity_url = record {
        address_scheme = codes "http";
        address_host = codes "localhost";
        address_path = codes "/identity";
      };
      api_url = record {
        address_scheme = codes "http";
        address_host = codes "localhost";
        address_path = codes "/api";
      };
    };
    auth = record {
      client_id = codes "user.1";
      client_secret = codes "id:8";
      master_password = codes "secret";
    };
    device = record { device_type = 22; identifier = codes "d"; device_name = codes "n" };
    http = record {
      user_agent = codes "vaultwarden-eso-provider";
      connect_timeout = from_secs 5;
      request_timeout = from_secs 25;
      redirect_policy = no_redirects;
      root_certificates = [];
    };
    cache_config = record {
      ttl = from_secs 60;
      stale_if_error = 0;
      refresh_retry_interval = from_secs 15;
    };
    argon2_memory_limit_mib = 64;
    client_state = new_state addresses;
  };
  selector_policy = policy;
  webhook_auth = disabled_insecure;
  permits = some 16;
}

has_started :
    start addresses files (λ pem. none) (λ http_config. true) toy (λ s. some raw_policy) arguments
    ≡ ok started
unfolding start provider_from_args read_sensitive_arg sensitive_value endpoints_from_args
    endpoints_from load_extra_root_certificates cache_config_from resolve_semaphore
    webhook_auth_from_args with_options http_client_from new_cache_config with_stale_if_error
    with_refresh_retry_interval new_http_config with_extra_root_certificates parse_endpoint
    parse_named is_insecure from_single_origin append_path_segments push_all from_config
    configured_mode read_optional_secret require_non_empty is_blank trim is_whitespace
    trim_start_matches trim_end_matches cons_trimmed split_once cons_first text_eq from_utf8
has_started = rw policy_started

start-IsStarted_example :
    IsStarted addresses addresses-KeepsOrigin files {C = ℕ}
      (λ pem. none)
      (λ http_config. true)
      arguments
      started
start-IsStarted_example =
    start-IsStarted addresses addresses-KeepsOrigin files (λ pem. none) (λ http_config. true) toy
      (λ s. some raw_policy) arguments started has_started
