-- ===== src/Api.antt =====
-- crates/bweso-bitwarden/src/api.rs up to the unlocked session: responses of the server, their
-- bounded bodies, KDF parameters, and the session that a token response unlocks.
pub mod Body
pub mod Session
use vaultwarden_eso_provider.Prelude.{
  ℕ, zero, suc, ◌+◌, ◌*◌, ◌^◌, String, Bool, true, false, not, ◌&&◌, Option, none, some, List, [],
  ◌∷◌, ◌++◌, Result, ok, err, ◌>>=◌, ◌>>◌, map_err, ok_or, bail_if, or_else, and_then, unwrap_or,
  ltb, leb, ◌==◌, if◌then◌else◌, length,
}
use vaultwarden_eso_provider.Text.{Text, codes}
use vaultwarden_eso_provider.Utf8.{Bytes}
use vaultwarden_eso_provider.Primitives.{Primitives}
use vaultwarden_eso_provider.Crypto.{AuthenticatedSymmetricKey}
use vaultwarden_eso_provider.Keys.{
  KdfConfig, pbkdf2_sha256, argon2id, MasterPasswordUnlockData, unlock_user_key, kdf_too_expensive,
  KeyDerivationError,
}
use vaultwarden_eso_provider.Errors.{
  ApiError, ClientError, http, http_status, response_too_large, invalid_json, unsupported_kdf_type,
  missing_kdf_parameter, missing_master_password_unlock, missing_master_key_wrapped_user_key, api,
  key_derivation,
}

abbrev pub max_upstream_response_bytes : ℕ
max_upstream_response_bytes = 32 * 1024 * 1024

-- What `response.chunk().await` gives: a piece of the body, or a transport error.
pub data Chunk : Type 0 where
  received : Bytes → Chunk
  failed : Chunk

-- `usize::checked_add`.
abbrev pub checked_add : ℕ → ℕ → Option ℕ
checked_add a b = if ltb (a + b) (2 ^ 64) then some (a + b) else none

-- The guard of one chunk: the length of the body with it, if that is within the limit.
unfoldable pub next_length : String → ℕ → ℕ → ℕ → Result ApiError ℕ
next_length endpoint limit body_length chunk_length = do
  next_len ← ok_or (response_too_large endpoint limit) (checked_add body_length chunk_length)
  bail_if (ltb limit next_len) (response_too_large endpoint limit)
  ok next_len

-- The loop of `decode_json_body`, from the body so far; the list is what the chunks will be.
unfoldable pub collect_body : String → ℕ → Bytes → List Chunk → Result ApiError Bytes
unfolding next_length
collect_body endpoint limit body [] = ok body
collect_body endpoint limit body (failed ∷ chunks) = err http
collect_body endpoint limit body (received chunk ∷ chunks) = do
  next_length endpoint limit (length body) (length chunk)
  collect_body endpoint limit (body ++ chunk) chunks

-- A response: its status and the chunks of its body.
pub record HttpResponse : Type 0 where
  pub status : ℕ
  pub chunks : List Chunk

abbrev pub is_success : ℕ → Bool
is_success status = leb 200 status && leb status 299

module _ {T : Type 0} (from_slice : Bytes → Option T) where
  unfoldable pub decode_json_body : List Chunk → String → ℕ → Result ApiError T
  decode_json_body chunks endpoint limit = do
    body ← collect_body endpoint limit [] chunks
    ok_or (invalid_json endpoint) (from_slice body)

  unfoldable pub decode_json : HttpResponse → String → Result ApiError T
  decode_json response endpoint = do
    bail_if (not (is_success response.status)) (http_status endpoint response.status)
    decode_json_body response.chunks endpoint max_upstream_response_bytes

-- The parameters of Argon2 must both be there; they are read in this order.
unfoldable pub kdf_from_parts : ℕ → ℕ → Option ℕ → Option ℕ → Result ApiError KdfConfig
kdf_from_parts kdf_type iterations memory parallelism =
    if kdf_type == 0
    then ok (pbkdf2_sha256 iterations)
    else if kdf_type == 1
    then (do
      memory_mib ← ok_or (missing_kdf_parameter "memory") memory
      lanes ← ok_or (missing_kdf_parameter "parallelism") parallelism
      ok (argon2id iterations memory_mib lanes))
    else err (unsupported_kdf_type kdf_type)

-- `PreloginResponse` and `TokenKdfResponse` hold the same four numbers.
pub record KdfResponse : Type 0 where
  pub kdf_type : ℕ
  pub iterations : ℕ
  pub memory : Option ℕ
  pub parallelism : Option ℕ

unfoldable pub kdf_from_response : KdfResponse → Result ApiError KdfConfig
kdf_from_response r = kdf_from_parts r.kdf_type r.iterations r.memory r.parallelism

pub record MasterPasswordUnlockResponse : Type 0 where
  pub kdf : KdfResponse
  pub master_key_wrapped_user_key : Option Text
  pub master_key_encrypted_user_key : Option Text
  pub salt : Text

pub record UserDecryptionOptionsResponse : Type 0 where
  pub master_password_unlock : Option MasterPasswordUnlockResponse

pub record TokenResponse : Type 0 where
  pub access_token : Text
  pub expires_in : Option ℕ
  pub token_type : Option Text
  pub user_decryption_options : Option UserDecryptionOptionsResponse

-- `MasterPasswordUnlockData::try_from`.
unfoldable pub unlock_data_from :
    MasterPasswordUnlockResponse → Result ApiError MasterPasswordUnlockData
unlock_data_from response = do
  wrapped ←
      ok_or missing_master_key_wrapped_user_key
        (or_else response.master_key_wrapped_user_key response.master_key_encrypted_user_key)
  kdf ← kdf_from_response response.kdf
  ok (record { salt = response.salt; kdf = kdf; master_key_wrapped_user_key = wrapped })

pub record BitwardenSession : Type 0 where
  pub access_token : Text
  pub expires_in : Option ℕ
  pub token_type : Text
  pub user_key : AuthenticatedSymmetricKey

-- The operator's memory budget binds Argon2id alone.
unfoldable pub check_memory_limit : KdfConfig → ℕ → Result KeyDerivationError (Unit {0})
check_memory_limit (pbkdf2_sha256 iterations) limit = ok tt
check_memory_limit (argon2id iterations memory_mib parallelism) limit =
    bail_if (ltb limit memory_mib) (kdf_too_expensive "argon2_memory_mib" memory_mib limit)

-- `BitwardenApiClient::unlock_session`.
unfoldable pub unlock_session :
    Primitives → TokenResponse → Text → ℕ → Result ClientError BitwardenSession
unlock_session p response master_password argon2_memory_limit_mib = do
  unlock ←
      ok_or (api missing_master_password_unlock)
        (and_then response.user_decryption_options (λ options. options.master_password_unlock))
  unlock_data ← map_err api (unlock_data_from unlock)
  map_err key_derivation (check_memory_limit unlock_data.kdf argon2_memory_limit_mib)
  user_key ← map_err key_derivation (unlock_user_key p unlock_data master_password)
  ok (record {
    access_token = response.access_token;
    expires_in = response.expires_in;
    token_type = unwrap_or (codes "Bearer") response.token_type;
    user_key = user_key;
  })
