-- ===== src/Errors.antt =====
-- The error types of crates/bweso-bitwarden: `BitwardenApiError` (src/api.rs) and
-- `BitwardenClientError` (src/lib.rs), and which of them allow a stale read.
use vaultwarden_eso_provider.Prelude.{ℕ, String, Bool, true, false, ◌&&◌, ◌||◌, leb, ◌==◌}
use vaultwarden_eso_provider.Core.{ValidationError}
use vaultwarden_eso_provider.Crypto.{CryptoError}
use vaultwarden_eso_provider.Keys.{KeyDerivationError}
use vaultwarden_eso_provider.Cipher.{CipherError}

-- The errors that reqwest and serde_json carry inside are left out.
pub data ApiError : Type 0 where
  invalid_kdf_memory_limit refresh_throttled unlock_task_failed http invalid_base_url : ApiError
  -- The endpoint's name and the status.
  http_status : String → ℕ → ApiError
  -- The endpoint's name and the limit.
  response_too_large : String → ℕ → ApiError
  invalid_json : String → ApiError
  unsupported_kdf_type : ℕ → ApiError
  missing_kdf_parameter : String → ApiError
  missing_master_password_unlock missing_master_key_wrapped_user_key : ApiError
  missing_cached_sync cipher_not_found ambiguous_cipher_name unsupported_shared_item : ApiError

pub data ClientError : Type 0 where
  validation : ValidationError → ClientError
  crypto : CryptoError → ClientError
  cipher : CipherError → ClientError
  key_derivation : KeyDerivationError → ClientError
  api : ApiError → ClientError
  invalid_endpoint insecure_endpoint unsupported_version_selector unprefixed_selector_key :
      ClientError

-- `BitwardenApiError::permits_stale_cache`.
unfoldable pub api_permits_stale_cache : ApiError → Bool
api_permits_stale_cache http = true
api_permits_stale_cache (http_status endpoint status) =
    status == 408 || status == 429 || (leb 500 status && leb status 599)
api_permits_stale_cache _ = false

-- `BitwardenClientError::permits_stale_cache`.
unfoldable pub permits_stale_cache : ClientError → Bool
permits_stale_cache (api error) = api_permits_stale_cache error
permits_stale_cache _ = false
