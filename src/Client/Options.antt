-- ===== src/Client/Options.antt =====
-- The options of the client of crates/bweso-bitwarden/src/api.rs, and their builders.
use vaultwarden_eso_provider.Prelude.{ℕ, List, []}
use vaultwarden_eso_provider.Text.{Text, codes}
use vaultwarden_eso_provider.Cache.{CacheConfig, from_secs}
use vaultwarden_eso_provider.Endpoints.{UrlCrate, BitwardenEndpoints, from_single_origin}

abbrev pub default_cache_ttl : ℕ
default_cache_ttl = from_secs 60

abbrev pub default_cache_refresh_retry_interval : ℕ
default_cache_refresh_retry_interval = from_secs 15

-- `BitwardenCacheConfig::new`, and its builders.
unfoldable pub new_cache_config : ℕ → CacheConfig
new_cache_config ttl = record {
  ttl = ttl;
  stale_if_error = 0;
  refresh_retry_interval = default_cache_refresh_retry_interval;
}

unfoldable pub with_stale_if_error : ℕ → CacheConfig → CacheConfig
with_stale_if_error stale_if_error config = record config { stale_if_error = stale_if_error }

unfoldable pub with_refresh_retry_interval : ℕ → CacheConfig → CacheConfig
with_refresh_retry_interval interval config = record config { refresh_retry_interval = interval }

-- `BitwardenCacheConfig::disabled` and `BitwardenCacheConfig::default`.
unfoldable pub disabled_cache : CacheConfig
unfolding new_cache_config
disabled_cache = new_cache_config 0

unfoldable pub default_cache_config : CacheConfig
unfolding new_cache_config
default_cache_config = new_cache_config default_cache_ttl

pub record BitwardenAuth : Type 0 where
  pub client_id : Text
  pub client_secret : Text
  pub master_password : Text

pub record BitwardenDevice : Type 0 where
  pub device_type : ℕ
  pub identifier : Text
  pub device_name : Text

-- `BitwardenDevice::default`.
unfoldable pub default_device : BitwardenDevice
default_device = record {
  device_type = 22;
  identifier = codes "vaultwarden-eso-provider";
  device_name = codes "Vaultwarden ESO Provider";
}

-- Certificates are those of reqwest.
pub record HttpConfig (Certificate : Type 0) : Type 0 where
  pub connect_timeout : ℕ
  pub request_timeout : ℕ
  pub extra_root_certificates : List Certificate

-- `BitwardenHttpConfig::new` and `with_extra_root_certificates`.
unfoldable pub new_http_config : {C : Type 0} → ℕ → ℕ → HttpConfig C
new_http_config connect_timeout request_timeout = record {
  connect_timeout = connect_timeout;
  request_timeout = request_timeout;
  extra_root_certificates = [];
}

unfoldable pub with_extra_root_certificates : {C : Type 0} → List C → HttpConfig C → HttpConfig C
with_extra_root_certificates certificates config = record config {
  extra_root_certificates = certificates;
}

-- `BitwardenHttpConfig::default`.
unfoldable pub default_http_config : {C : Type 0} → HttpConfig C
unfolding new_http_config
default_http_config = new_http_config (from_secs 5) (from_secs 25)

abbrev default_argon2_memory_limit_mib : ℕ
default_argon2_memory_limit_mib = 64

module _ (c : UrlCrate) where
  pub record ClientOptions (Certificate : Type 0) : Type 0 where
    pub endpoints : BitwardenEndpoints c
    pub auth : BitwardenAuth
    pub device : BitwardenDevice
    pub cache_config : CacheConfig
    pub http_config : HttpConfig Certificate
    pub argon2_memory_limit_mib : ℕ

  -- `BitwardenApiClientOptions::split` and `single_origin`.
  unfoldable pub split_options :
      {C : Type 0} → BitwardenEndpoints c → BitwardenAuth → ClientOptions C
  unfolding default_device default_cache_config default_http_config
  split_options endpoints auth = record {
    endpoints = endpoints;
    auth = auth;
    device = default_device;
    cache_config = default_cache_config;
    http_config = default_http_config;
    argon2_memory_limit_mib = default_argon2_memory_limit_mib;
  }

  unfoldable pub single_origin_options : {C : Type 0} → c.Url → BitwardenAuth → ClientOptions C
  unfolding split_options from_single_origin
  single_origin_options base_url auth = split_options (from_single_origin c base_url) auth

  unfoldable pub with_device : {C : Type 0} → BitwardenDevice → ClientOptions C → ClientOptions C
  with_device device options = record options { device = device }

  unfoldable pub with_cache_config : {C : Type 0} → CacheConfig → ClientOptions C → ClientOptions C
  with_cache_config cache_config options = record options { cache_config = cache_config }

  unfoldable pub with_http_config : {C : Type 0} → HttpConfig C → ClientOptions C → ClientOptions C
  with_http_config http_config options = record options { http_config = http_config }
