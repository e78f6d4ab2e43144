-- ===== src/Primitives.antt =====
-- What the program takes from other crates: base64, HMAC-SHA256, AES-256-CBC, PBKDF2, HKDF, SHA-256
-- and Argon2, and from the Unicode tables the lower case of a text. The definitions that call them
-- take this record as a parameter; `none` is the `Err` of the crate's function.
use vaultwarden_eso_provider.Prelude.{ℕ, Option}
use vaultwarden_eso_provider.Text.{Text}
use vaultwarden_eso_provider.Utf8.{Bytes}

-- `argon2::Params`: memory in KiB, iterations, parallelism and output length.
pub record Argon2Params : Type 0 where
  pub memory_kib : ℕ
  pub iterations : ℕ
  pub parallelism : ℕ
  pub output_length : ℕ

pub record Primitives : Type 0 where
  -- `STANDARD.encode` and `STANDARD.decode` of the base64 crate.
  pub base64_encode : Bytes → Text
  pub base64_decode : Text → Option Bytes
  -- The tag of `HmacSha256::new_from_slice(key)` after its updates with one message.
  pub hmac_sha256 : Bytes → Bytes → Option Bytes
  -- `Decryptor::<Aes256>::new(key, iv).decrypt_padded::<Pkcs7>(data)`.
  pub aes256_cbc_decrypt : Bytes → Bytes → Bytes → Option Bytes
  -- `pbkdf2_hmac::<Sha256>(password, salt, iterations, out)` with an output of 32 bytes.
  pub pbkdf2_hmac_sha256 : Bytes → Bytes → ℕ → Bytes
  -- `Hkdf::<Sha256>::from_prk(prk)`, then `expand(info, out)` with an output of that many bytes.
  pub hkdf_from_prk : Bytes → Option Bytes
  pub hkdf_expand : Bytes → Bytes → ℕ → Option Bytes
  -- `Sha256::digest`.
  pub sha256 : Bytes → Bytes
  -- `argon2::Params::new` and `Argon2::hash_password_into` with an output of 32 bytes.
  pub argon2_params : ℕ → ℕ → ℕ → ℕ → Option Argon2Params
  pub argon2id : Argon2Params → Bytes → Bytes → Option Bytes
  -- `str::to_lowercase`.
  pub to_lowercase : Text → Text
