-- ===== src/Resolve/Statuses.antt =====
-- The status of an error. The External Secrets Operator takes the status 404 as a deletion.
use vaultwarden_eso_provider.Prelude.{◌≡◌, ◌≢◌, ◌↔◌, arith, refl, ap}
use vaultwarden_eso_provider.Cipher.{
  CipherError, blank_property, missing_property, no_extractable_fields, duplicate_document_field,
  unsupported_attachment,
}
use vaultwarden_eso_provider.Errors.{
  ClientError, ApiError, validation, cipher, key_derivation, api, invalid_endpoint,
  insecure_endpoint, unsupported_version_selector, unprefixed_selector_key, cipher_not_found,
  invalid_kdf_memory_limit, refresh_throttled, unlock_task_failed, http, invalid_base_url,
  http_status, response_too_large, invalid_json, unsupported_kdf_type, missing_kdf_parameter,
  missing_master_password_unlock, missing_master_key_wrapped_user_key, missing_cached_sync,
  ambiguous_cipher_name, unsupported_shared_item,
}
use vaultwarden_eso_provider.Resolve.Messages.{
  cipher_status_and_kind, api_status_and_kind, provider_status_and_kind,
}

cipher_status : (e : CipherError) → (cipher_status_and_kind e).0 ≢ 404
unfolding cipher_status_and_kind
cipher_status blank_property = omega arith
cipher_status (missing_property t) = omega arith
cipher_status (duplicate_document_field t) = omega arith
cipher_status unsupported_attachment = omega arith
cipher_status (no_extractable_fields t) = omega arith
cipher_status (CipherError.crypto c) = omega arith

api_status : (e : ApiError) → (api_status_and_kind e).0 ≡ 404 → e ≡ cipher_not_found
unfolding api_status_and_kind
api_status cipher_not_found h = refl
api_status ambiguous_cipher_name h = absurd (omega arith)
api_status unsupported_shared_item h = absurd (omega arith)
api_status refresh_throttled h = absurd (omega arith)
api_status http h = absurd (omega arith)
api_status (http_status endpoint status) h = absurd (omega arith)
api_status (response_too_large endpoint limit) h = absurd (omega arith)
api_status (invalid_json endpoint) h = absurd (omega arith)
api_status unlock_task_failed h = absurd (omega arith)
api_status (unsupported_kdf_type t) h = absurd (omega arith)
api_status invalid_kdf_memory_limit h = absurd (omega arith)
api_status (missing_kdf_parameter t) h = absurd (omega arith)
api_status missing_master_password_unlock h = absurd (omega arith)
api_status missing_master_key_wrapped_user_key h = absurd (omega arith)
api_status missing_cached_sync h = absurd (omega arith)
api_status invalid_base_url h = absurd (omega arith)

not_found : (e : ClientError) → (provider_status_and_kind e).0 ≡ 404 → e ≡ api cipher_not_found
unfolding provider_status_and_kind
not_found (api x) h = ap api (api_status x h)
not_found (cipher x) h = absurd (cipher_status x h)
not_found (validation x) h = absurd (omega arith)
not_found (ClientError.crypto x) h = absurd (omega arith)
not_found (key_derivation x) h = absurd (omega arith)
not_found invalid_endpoint h = absurd (omega arith)
not_found insecure_endpoint h = absurd (omega arith)
not_found unsupported_version_selector h = absurd (omega arith)
not_found unprefixed_selector_key h = absurd (omega arith)

-- The status of an error is 404 exactly when it is the error of an item that is not in the vault.
pub provider_status_and_kind-not_found :
    (e : ClientError) → ((provider_status_and_kind e).0 ≡ 404) ↔ (e ≡ api cipher_not_found)
unfolding provider_status_and_kind
provider_status_and_kind-not_found e = (not_found e, λ h. rw h)
