-- ===== src/Resolve.antt =====
-- The resolve endpoint of crates/vaultwarden-eso-provider/src/main.rs: the order of its checks, the
-- answer, and the metric that each request leaves.
pub mod Messages
pub mod Statuses
pub mod Checks
use vaultwarden_eso_provider.Prelude.{
  ℕ, ◌*◌, String, Bool, true, false, not, ◌&&◌, ◌||◌, Option, none, some, List, [], ◌∷◌, Result, ok,
  err, ltb, ◌==◌, if◌then◌else◌, length, option_map,
}
use vaultwarden_eso_provider.Text.{
  Text, codes, text_eq, trim, split, rsplit_once, eq_ignore_ascii_case, to_ascii_lowercase,
  ends_with,
}
use vaultwarden_eso_provider.Utf8.{Bytes}
use vaultwarden_eso_provider.Primitives.{Primitives}
use vaultwarden_eso_provider.Core.{RemoteRef, SecretDocument}
use vaultwarden_eso_provider.Cipher.{
  CipherError, blank_property, missing_property, no_extractable_fields, duplicate_document_field,
  unsupported_attachment,
}
use vaultwarden_eso_provider.Errors.{
  ClientError, ApiError, validation, cipher, key_derivation, api, invalid_endpoint,
  insecure_endpoint, unsupported_version_selector, unprefixed_selector_key,
  invalid_kdf_memory_limit, refresh_throttled, unlock_task_failed, http, invalid_base_url,
  http_status, response_too_large, invalid_json, unsupported_kdf_type, missing_kdf_parameter,
  missing_master_password_unlock, missing_master_key_wrapped_user_key, missing_cached_sync,
  cipher_not_found, ambiguous_cipher_name, unsupported_shared_item,
}
use vaultwarden_eso_provider.Selector.{Selector, selector_from}
use vaultwarden_eso_provider.Resolve.Messages.{provider_status_and_kind, public_error_message}
use vaultwarden_eso_provider.Policy.{PolicyRules, allows}
use vaultwarden_eso_provider.Auth.{WebhookAuth, AuthorizedScope, authorize, scope_allows}

abbrev pub resolve_body_limit_bytes : ℕ
resolve_body_limit_bytes = 16 * 1024

-- How the body comes: too late, with a transport error, or whole.
pub data Arrival : Type 0 where
  late broken : Arrival
  whole : Bytes → Arrival

-- A request: the values of its authorization headers and of the content type, `none` where `to_str`
-- refuses one, and its body.
pub record ResolveHttpRequest : Type 0 where
  pub authorization : List (Option Text)
  pub content_type : Option (Option Text)
  pub body : Arrival

-- The first piece of a split.
abbrev first_piece : List Text → Text
first_piece [] = []
first_piece (s ∷ rest) = s

unfoldable pub is_json_subtype : Option (Text × Text) → Bool
is_json_subtype none = false
is_json_subtype (some (_, subtype)) =
    eq_ignore_ascii_case subtype (codes "json")
    || ends_with (to_ascii_lowercase subtype) (codes "+json")

unfoldable pub is_json_content_type : Option (Option Text) → Bool
is_json_content_type (some (some content_type)) =
    is_json_subtype (rsplit_once b'/' (trim (first_piece (split b';' content_type))))
is_json_content_type _ = false

pub data Decoded : Type 0 where
  decoded : RemoteRef → Decoded
  refused : ℕ → Decoded
  timed_out : Decoded

-- `serde_json::from_slice` on the bytes within the limit.
abbrev pub parsed : Option RemoteRef → Decoded
parsed none = refused 400
parsed (some remote_ref) = decoded remote_ref

-- `decode_resolve_request` under its timeout; `from_slice` is serde_json's, on the derived
-- `Deserialize` of `ResolveRequest`.
unfoldable pub decode_resolve_request : (Bytes → Option RemoteRef) → ResolveHttpRequest → Decoded
decode_resolve_request from_slice request =
    if not (is_json_content_type request.content_type) then refused 415 else elim request.body [
      | late ↦ timed_out
      | broken ↦ refused 413
      | whole body ↦
          if ltb resolve_body_limit_bytes (length body)
          then refused 413
          else parsed (from_slice body)
    ]

-- One call of `record_resolve_request`, without the duration.
pub record Recorded : Type 0 where
  pub status : ℕ
  pub outcome : String
  pub error_kind : String

-- What one request leaves: its answer, the state of the provider, and the calls of the metrics.
pub record Answered (S : Type 0) : Type 0 where
  pub answer : Result (ℕ × String) SecretDocument
  pub provider_state : S
  pub recorded : List Recorded

-- The parts of `AppState` that a request reads; `permits` are those left of the semaphore.
pub record AppState : Type 0 where
  pub selector_policy : PolicyRules
  pub auth : WebhookAuth
  pub permits : Option ℕ

-- Whether no permit is left.
abbrev pub is_exhausted : Option ℕ → Bool
is_exhausted none = false
is_exhausted (some n) = n == 0

module _ {S : Type 0} where
  -- `record_resolve_request` and `public_error`, or `provider_error`.
  unfoldable pub refuse : S → ℕ × String → Answered S
  refuse s (status, error_kind) = record {
    answer = err (status, public_error_message error_kind);
    provider_state = s;
    recorded = record { status = status; outcome = "error"; error_kind = error_kind } ∷ [];
  }

  -- The match on what the provider returns.
  unfoldable pub answer_with : Result ClientError SecretDocument × S → Answered S
  answer_with (ok document, s) = record {
    answer = ok document;
    provider_state = s;
    recorded = record { status = 200; outcome = "success"; error_kind = "none" } ∷ [];
  }
  answer_with (err error, s) = refuse s (provider_status_and_kind error)

module _ {S : Type 0} (provider : Selector → S → Result ClientError SecretDocument × S)
    (state : AppState) where
  unfoldable pub resolve_selector : AuthorizedScope → S → Result ClientError Selector → Answered S
  resolve_selector auth_scope s (err error) = refuse s (provider_status_and_kind error)
  resolve_selector auth_scope s (ok selector) =
      if not (allows state.selector_policy selector.key)
        || not (scope_allows auth_scope selector.key)
      then refuse s (403, "policy_denied")
      else answer_with (provider selector s)

  unfoldable pub resolve_decoded : AuthorizedScope → S → Decoded → Answered S
  resolve_decoded auth_scope s timed_out = refuse s (408, "request_timeout")
  resolve_decoded auth_scope s (refused status) = refuse s (status, "validation")
  resolve_decoded auth_scope s (decoded remote_ref) =
      if is_exhausted state.permits
      then refuse s (503, "overloaded")
      else resolve_selector auth_scope s (selector_from remote_ref)

  unfoldable pub resolve_authorized :
      (Bytes → Option RemoteRef) → ResolveHttpRequest → S → Option AuthorizedScope → Answered S
  resolve_authorized from_slice request s none = refuse s (401, "auth")
  resolve_authorized from_slice request s (some auth_scope) =
      resolve_decoded auth_scope s (decode_resolve_request from_slice request)

  -- `resolve`, with the metrics and the answer of every branch.
  unfoldable pub resolve :
      Primitives → (Bytes → Option RemoteRef) → ResolveHttpRequest → S → Answered S
  resolve p from_slice request s =
      resolve_authorized from_slice request s (authorize p state.auth request.authorization)
