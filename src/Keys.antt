-- ===== src/Keys.antt =====
-- crates/bweso-bitwarden/src/keys.rs: KDF parameters, the master key, and the unlock of the user key.
pub mod Bounds
pub mod Unlock
use vaultwarden_eso_provider.Prelude.{
  ℕ, ◌+◌, ◌*◌, ◌^◌, String, Bool, true, false, not, Option, none, some, List, [], ◌∷◌, ◌++◌, Result,
  ok, err, ◌>>=◌, ◌>>◌, map_err, ok_or, bail_if, ltb, leb, ◌==◌, if◌then◌else◌, length, is_empty,
}
use vaultwarden_eso_provider.Text.{Text, codes, trim}
use vaultwarden_eso_provider.Utf8.{Bytes, as_bytes}
use vaultwarden_eso_provider.Primitives.{Primitives}
use vaultwarden_eso_provider.Crypto.{
  CryptoError, AuthenticatedSymmetricKey, key_from_slice, parse, decrypt_bytes,
}

abbrev pub master_key_length : ℕ
master_key_length = 32

abbrev pub authentication_hash_iterations : ℕ
authentication_hash_iterations = 1

abbrev pub pbkdf2_prelogin_iterations_min : ℕ
pbkdf2_prelogin_iterations_min = 5_000

abbrev pub pbkdf2_prelogin_iterations_max : ℕ
pbkdf2_prelogin_iterations_max = 2_000_000

abbrev pub argon2_prelogin_iterations_min : ℕ
argon2_prelogin_iterations_min = 2

abbrev pub argon2_prelogin_iterations_max : ℕ
argon2_prelogin_iterations_max = 10

abbrev pub argon2_prelogin_memory_mib_min : ℕ
argon2_prelogin_memory_mib_min = 16

abbrev pub argon2_prelogin_memory_mib_max : ℕ
argon2_prelogin_memory_mib_max = 1024

abbrev pub argon2_prelogin_parallelism_min : ℕ
argon2_prelogin_parallelism_min = 1

abbrev pub argon2_prelogin_parallelism_max : ℕ
argon2_prelogin_parallelism_max = 16

pub data KeyDerivationError : Type 0 where
  empty_password : KeyDerivationError
  -- The parameter's name, its value and the bound.
  kdf_downgrade kdf_too_expensive : String → ℕ → ℕ → KeyDerivationError
  invalid_argon2_parameters argon2_failed : KeyDerivationError
  invalid_master_key_length : ℕ → KeyDerivationError
  hkdf_expand_failed : KeyDerivationError
  crypto : CryptoError → KeyDerivationError

pub data KdfConfig : Type 0 where
  pbkdf2_sha256 : (iterations : ℕ) → KdfConfig
  argon2id : (iterations memory_mib parallelism : ℕ) → KdfConfig

unfoldable pub validate_kdf_bounds : String → ℕ → ℕ → ℕ → Result KeyDerivationError (Unit {0})
validate_kdf_bounds parameter actual minimum maximum = do
  bail_if (ltb actual minimum) (kdf_downgrade parameter actual minimum)
  bail_if (ltb maximum actual) (kdf_too_expensive parameter actual maximum)
  ok tt

unfoldable pub validate_for_prelogin : KdfConfig → Result KeyDerivationError (Unit {0})
unfolding validate_kdf_bounds
validate_for_prelogin (pbkdf2_sha256 iterations) =
    validate_kdf_bounds "pbkdf2_iterations" iterations pbkdf2_prelogin_iterations_min
      pbkdf2_prelogin_iterations_max
validate_for_prelogin (argon2id iterations memory_mib parallelism) = do
  validate_kdf_bounds "argon2_iterations" iterations argon2_prelogin_iterations_min
      argon2_prelogin_iterations_max
  validate_kdf_bounds "argon2_memory_mib" memory_mib argon2_prelogin_memory_mib_min
      argon2_prelogin_memory_mib_max
  validate_kdf_bounds "argon2_parallelism" parallelism argon2_prelogin_parallelism_min
      argon2_prelogin_parallelism_max

-- 32 bytes derived from the master password.
pub record MasterKey : Type 0 where
  pub bytes : Bytes

-- `MasterKey::try_from`.
unfoldable pub master_key_from_slice : Bytes → Result KeyDerivationError MasterKey
master_key_from_slice raw =
    if not (length raw == master_key_length)
    then err (invalid_master_key_length (length raw))
    else ok (record { bytes = raw })

-- `u32::checked_mul`.
abbrev pub checked_mul : ℕ → ℕ → Option ℕ
checked_mul a b = if ltb (a * b) (2 ^ 32) then some (a * b) else none

pub record MasterPasswordUnlockData : Type 0 where
  pub salt : Text
  pub kdf : KdfConfig
  pub master_key_wrapped_user_key : Text

module _ (p : Primitives) where
  unfoldable pub normalize_master_password_salt : Text → Text
  normalize_master_password_salt salt = p.to_lowercase (trim salt)

  -- The match of `derive_master_key`, on parameters that were validated.
  unfoldable pub derive : Text → Text → KdfConfig → Result KeyDerivationError MasterKey
  derive password salt (pbkdf2_sha256 iterations) =
      let normalized_salt = normalize_master_password_salt salt in
      ok (record {
        bytes = p.pbkdf2_hmac_sha256 (as_bytes password) (as_bytes normalized_salt) iterations;
      })
  derive password salt (argon2id iterations memory_mib parallelism) = do
    memory_kib ← ok_or invalid_argon2_parameters (checked_mul memory_mib 1024)
    params ←
        ok_or invalid_argon2_parameters
          (p.argon2_params memory_kib iterations parallelism master_key_length)
    let salt_digest = p.sha256 (as_bytes (normalize_master_password_salt salt))
    derived ← ok_or argon2_failed (p.argon2id params (as_bytes password) salt_digest)
    ok (record { bytes = derived })

  unfoldable pub derive_master_key : Text → Text → KdfConfig → Result KeyDerivationError MasterKey
  derive_master_key password salt kdf = do
    bail_if (is_empty password) empty_password
    validate_for_prelogin kdf
    derive password salt kdf

  unfoldable pub master_password_authentication_hash :
      Text → MasterKey → Result KeyDerivationError Text
  master_password_authentication_hash password master_key = do
    bail_if (is_empty password) empty_password
    let hash =
        p.pbkdf2_hmac_sha256 master_key.bytes (as_bytes password) authentication_hash_iterations
    ok (p.base64_encode hash)

  -- The two halves are expanded into one buffer of 64 bytes, which is split again.
  unfoldable pub stretch_master_key :
      MasterKey → Result KeyDerivationError AuthenticatedSymmetricKey
  stretch_master_key master_key = do
    hkdf ← ok_or (invalid_master_key_length master_key_length) (p.hkdf_from_prk master_key.bytes)
    enc ← ok_or hkdf_expand_failed (p.hkdf_expand hkdf (as_bytes (codes "enc")) 32)
    mac ← ok_or hkdf_expand_failed (p.hkdf_expand hkdf (as_bytes (codes "mac")) 32)
    map_err crypto (key_from_slice (enc ++ mac))

  unfoldable pub unwrap_user_key_with_master_key :
      MasterKey → Text → Result KeyDerivationError AuthenticatedSymmetricKey
  unwrap_user_key_with_master_key master_key encrypted_user_key = do
    wrapping_key ← stretch_master_key master_key
    encrypted ← map_err crypto (parse p encrypted_user_key)
    plain ← map_err crypto (decrypt_bytes p encrypted wrapping_key)
    map_err crypto (key_from_slice plain)

  unfoldable pub unlock_user_key :
      MasterPasswordUnlockData → Text → Result KeyDerivationError AuthenticatedSymmetricKey
  unlock_user_key unlock password = do
    master_key ← derive_master_key password unlock.salt unlock.kdf
    unwrap_user_key_with_master_key master_key unlock.master_key_wrapped_user_key
