-- ===== src/Client/Building.antt =====
-- What `with_options` makes of its options.
use vaultwarden_eso_provider.Prelude.{
  ◌≡◌, ◌≤◌, Bool, not, ◌&&◌, leb, ok, >>=-eq-ok, bail_if, bail_if-eq-ok, ok_injective, arith,
}
use vaultwarden_eso_provider.Errors.{http, invalid_kdf_memory_limit}
use vaultwarden_eso_provider.Endpoints.{UrlCrate}
use vaultwarden_eso_provider.Client.Options.{ClientOptions}
use vaultwarden_eso_provider.Client.{
  HttpClient, ApiClient, http_client_from, with_options, new_state,
}

module _ (c : UrlCrate) {C : Type 0} (builds : HttpClient C → Bool) where
  -- A client has the parts of its options, and a memory budget within the bounds.
  pub with_options-fields :
      (options : ClientOptions c C) (provider : ApiClient c C)
      → with_options c builds options ≡ ok provider
      → (16 ≤ options.argon2_memory_limit_mib)
        × (options.argon2_memory_limit_mib ≤ 1024)
        × (record {
          endpoints = options.endpoints;
          auth = options.auth;
          device = options.device;
          http = http_client_from options.http_config;
          cache_config = options.cache_config;
          argon2_memory_limit_mib = options.argon2_memory_limit_mib;
          client_state = new_state c;
        }
            ≡ provider)
  unfolding with_options
  with_options-fields options provider h =
      let (_, e, h₁) =
        >>=-eq-ok
          (bail_if
            (not
              (leb 16 options.argon2_memory_limit_mib && leb options.argon2_memory_limit_mib 1024))
            invalid_kdf_memory_limit)
          _ h in
      let (_, _, h₂) =
        >>=-eq-ok (bail_if (not (builds (http_client_from options.http_config))) http) _ h₁ in
      let in_range = bail_if-eq-ok _ invalid_kdf_memory_limit e in
      (ground arith, ground arith, ok_injective h₂)
