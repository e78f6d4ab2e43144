-- ===== src/Resolve/Messages.antt =====
-- The status, the kind and the message of an error, of crates/vaultwarden-eso-provider/src/main.rs.
use vaultwarden_eso_provider.Prelude.{ℕ, String, List, [], ◌∷◌, if◌then◌else◌}
use vaultwarden_eso_provider.Text.{codes, text_eq}
use vaultwarden_eso_provider.Cipher.{
  CipherError, blank_property, missing_property, no_extractable_fields, duplicate_document_field,
  unsupported_attachment,
}
use vaultwarden_eso_provider.Errors.{
  ClientError, ApiError, validation, cipher, key_derivation, api, invalid_endpoint,
  insecure_endpoint, unsupported_version_selector, unprefixed_selector_key,
  invalid_kdf_memory_limit, refresh_throttled, unlock_task_failed, http, invalid_base_url,
  http_status, response_too_large, invalid_json, unsupported_kdf_type, missing_kdf_parameter,
  missing_master_password_unlock, missing_master_key_wrapped_user_key, missing_cached_sync,
  cipher_not_found, ambiguous_cipher_name, unsupported_shared_item,
}

-- The errors of an item.
unfoldable pub cipher_status_and_kind : CipherError → ℕ × String
cipher_status_and_kind blank_property = (400, "validation")
cipher_status_and_kind (missing_property property) = (422, "property_not_found")
cipher_status_and_kind (duplicate_document_field name) = (409, "ambiguous_document")
cipher_status_and_kind unsupported_attachment = (422, "unsupported_attachment")
cipher_status_and_kind (no_extractable_fields id) = (500, "crypto")
cipher_status_and_kind (CipherError.crypto error) = (500, "crypto")

-- The errors of the API client.
unfoldable pub api_status_and_kind : ApiError → ℕ × String
api_status_and_kind cipher_not_found = (404, "item_not_found")
api_status_and_kind ambiguous_cipher_name = (409, "ambiguous_selector")
api_status_and_kind unsupported_shared_item = (422, "unsupported_shared_item")
api_status_and_kind refresh_throttled = (503, "upstream_backoff")
api_status_and_kind http = (502, "upstream_http")
api_status_and_kind (http_status endpoint status) = (502, "upstream_status")
api_status_and_kind (response_too_large endpoint limit) = (502, "upstream_payload")
api_status_and_kind (invalid_json endpoint) = (502, "upstream_payload")
api_status_and_kind unlock_task_failed = (500, "key_derivation")
api_status_and_kind (unsupported_kdf_type kdf_type) = (500, "kdf_parameters")
api_status_and_kind invalid_kdf_memory_limit = (500, "kdf_parameters")
api_status_and_kind (missing_kdf_parameter parameter) = (500, "kdf_parameters")
api_status_and_kind missing_master_password_unlock = (500, "sync_payload")
api_status_and_kind missing_master_key_wrapped_user_key = (500, "sync_payload")
api_status_and_kind missing_cached_sync = (500, "sync_payload")
api_status_and_kind invalid_base_url = (500, "endpoint")

unfoldable pub provider_status_and_kind : ClientError → ℕ × String
unfolding cipher_status_and_kind api_status_and_kind
provider_status_and_kind (validation error) = (400, "validation")
provider_status_and_kind (cipher error) = cipher_status_and_kind error
provider_status_and_kind (api error) = api_status_and_kind error
provider_status_and_kind (ClientError.crypto error) = (500, "crypto")
provider_status_and_kind (key_derivation error) = (500, "key_derivation")
provider_status_and_kind invalid_endpoint = (500, "endpoint")
provider_status_and_kind insecure_endpoint = (500, "endpoint")
provider_status_and_kind unsupported_version_selector = (400, "unsupported_version")
provider_status_and_kind unprefixed_selector_key = (400, "validation")

-- The arms of the match of `public_error_message`.
abbrev messages : List (String × String)
messages =
    ("auth", "provider authentication failed")
    ∷ ("validation", "invalid resolve request")
    ∷ ("unsupported_version", "remoteRef.version is not supported")
    ∷ ("policy_denied", "requested Bitwarden item is not allowed by provider policy")
    ∷ ("item_not_found", "requested Bitwarden item or property was not found")
    ∷ ("property_not_found", "requested Bitwarden item or property was not found")
    ∷ ("ambiguous_document", "selected Bitwarden item contains conflicting whole-item fields")
    ∷ ("ambiguous_selector", "requested Bitwarden item name is ambiguous; use the item ID")
    ∷ ("unsupported_attachment", "Bitwarden attachment extraction is not supported")
    ∷ ("unsupported_shared_item", "shared organization Bitwarden items are not supported")
    ∷ ("upstream_http", "Bitwarden-compatible upstream request failed")
    ∷ ("upstream_status", "Bitwarden-compatible upstream returned an error status")
    ∷ ("upstream_backoff", "upstream refresh recently failed; retry after the configured cooldown")
    ∷ ("upstream_payload", "Bitwarden-compatible upstream returned an invalid payload")
    ∷ ("crypto", "failed to decrypt selected Bitwarden item")
    ∷ ("key_derivation", "failed to unlock Bitwarden vault key")
    ∷ ("kdf_parameters", "Bitwarden-compatible KDF parameters are unsupported")
    ∷ ("sync_payload", "Bitwarden-compatible sync payload is missing required unlock data")
    ∷ ("endpoint", "provider endpoint configuration is invalid")
    ∷ ("overloaded", "provider is at concurrency limit; retry shortly")
    ∷ ("request_timeout", "provider request body timed out")
    ∷ []

-- The first arm that matches, or the last one, which matches anything.
unfoldable pub message_in : List (String × String) → String → String
message_in [] error_kind = "provider request failed"
message_in ((kind, message) ∷ rest) error_kind =
    let other = message_in rest error_kind in
    if text_eq (codes kind) (codes error_kind) then message else other

unfoldable pub public_error_message : String → String
unfolding message_in
public_error_message error_kind = message_in messages error_kind
