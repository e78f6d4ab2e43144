-- ===== src/Tests/Crypto.antt =====
-- Witnesses on encrypted strings, keys and sessions.
use vaultwarden_eso_provider.Text.{
  split_once, split, strip_prefix, text_eq, text_cmp, trim, starts_with, is_whitespace, codes,
}
use vaultwarden_eso_provider.Text.Splitting.{join}
use vaultwarden_eso_provider.Crypto.RoundTrip.{serialize, decrypt-serialize}
use vaultwarden_eso_provider.Utf8.{from_utf8, as_bytes, Bytes}
use vaultwarden_eso_provider.Crypto.{
  parse, parse_encryption_type, three_parts, as_u8, decode_base64, decode_parts, decrypt_bytes,
  decrypt_utf8, key_from_slice, parse_u8, verify_mac, EncryptedString,
}
use vaultwarden_eso_provider.Tests.Samples.{
  shift_up, shift_down, repeat, toy, toy-laws, user_key, sealed, seal,
}
use vaultwarden_eso_provider.Prelude.{
  ℕ, ◌≡◌, ◌≤◌, ◌↔◌, refl, some, none, [], ◌∷◌, ◌++◌, ok, ◌>>=◌, arith, length,
}
use vaultwarden_eso_provider.Crypto.Parsing.{IsWellFormed, IsSerialized, parse_iff}
use vaultwarden_eso_provider.Crypto.Decryption.{decrypt_bytes_iff}
use vaultwarden_eso_provider.Keys.{
  KdfConfig, MasterKey, pbkdf2_sha256, MasterPasswordUnlockData, validate_for_prelogin,
  derive_master_key, derive, unlock_user_key, unwrap_user_key_with_master_key, stretch_master_key,
  normalize_master_password_salt,
}
use vaultwarden_eso_provider.Keys.Unlock.{IsUnlocked, unlock_user_key-IsUnlocked}
use vaultwarden_eso_provider.Api.{
  TokenResponse, BitwardenSession, unlock_session, unlock_data_from, kdf_from_response,
  kdf_from_parts, check_memory_limit, received, collect_body,
}
use vaultwarden_eso_provider.Api.Session.{IsSession, unlock_session-IsSession}
use vaultwarden_eso_provider.Api.Body.{Delivers, collect_body_iff}

abbrev sealed_pw : EncryptedString
sealed_pw = sealed (codes "pw")

parse_iff_example :
    (parse toy (seal (codes "pw")) ≡ ok sealed_pw) ↔ IsSerialized toy (seal (codes "pw")) sealed_pw
parse_iff_example = parse_iff toy (seal (codes "pw")) sealed_pw

decrypt_bytes_iff_example : (decrypt_bytes toy sealed_pw user_key ≡ ok (codes "pw")) ↔ (
    (toy.hmac_sha256 user_key.authentication_key (sealed_pw.iv ++ sealed_pw.ciphertext)
      ≡ some sealed_pw.mac)
    × (toy.aes256_cbc_decrypt user_key.encryption_key sealed_pw.iv sealed_pw.ciphertext
        ≡ some (codes "pw")))
decrypt_bytes_iff_example = decrypt_bytes_iff toy sealed_pw user_key (codes "pw")

pw-IsWellFormed : IsWellFormed sealed_pw
unfolding repeat
pw-IsWellFormed = record {
  iv_length = refl;
  mac_length = refl;
  some_data = omega arith;
  whole_blocks = refl;
}

decrypt-serialize_example :
    (parse toy (serialize toy sealed_pw) >>= λ e. decrypt_utf8 toy e user_key) ≡ ok (codes "pw")
unfolding repeat as_bytes
decrypt-serialize_example =
    decrypt-serialize toy toy-laws sealed_pw user_key (codes "pw") pw-IsWellFormed (ground arith)
      (ground arith) (ground arith) (ground arith) refl refl

abbrev stored_key : Bytes
stored_key = repeat 32 1 ++ repeat 32 2

abbrev kdf : KdfConfig
kdf = pbkdf2_sha256 600000

abbrev unlock_data : MasterPasswordUnlockData
unlock_data = record {
  salt = codes "user";
  kdf = kdf;
  master_key_wrapped_user_key = serialize toy (sealed stored_key);
}

abbrev master_key : MasterKey
master_key = record { bytes = toy.pbkdf2_hmac_sha256 (codes "secret") (codes "user") 600000 }

derived : derive_master_key toy (codes "secret") (codes "user") kdf ≡ ok master_key
unfolding derive_master_key derive validate_for_prelogin as_bytes trim is_whitespace
    normalize_master_password_salt
derived = refl

unlocked : unlock_user_key toy unlock_data (codes "secret") ≡ ok user_key
unfolding split_once split strip_prefix text_eq text_cmp trim starts_with is_whitespace join
    serialize from_utf8 as_bytes parse parse_encryption_type three_parts as_u8 decode_base64
    decode_parts decrypt_bytes decrypt_utf8 key_from_slice parse_u8 verify_mac shift_up shift_down
    repeat unlock_user_key unwrap_user_key_with_master_key stretch_master_key derive_master_key
    derive validate_for_prelogin normalize_master_password_salt
unlocked = refl

unlock_user_key-IsUnlocked_example : IsUnlocked toy unlock_data (codes "secret") user_key
unlock_user_key-IsUnlocked_example =
    unlock_user_key-IsUnlocked toy unlock_data (codes "secret") user_key unlocked

abbrev pub response : TokenResponse
response = record {
  access_token = codes "t";
  expires_in = some 3600;
  token_type = none;
  user_decryption_options = some (record {
    master_password_unlock = some (record {
      kdf = record { kdf_type = 0; iterations = 600000; memory = none; parallelism = none };
      master_key_wrapped_user_key = some (serialize toy (sealed stored_key));
      master_key_encrypted_user_key = none;
      salt = codes "user";
    });
  });
}

abbrev pub session : BitwardenSession
session = record {
  access_token = codes "t";
  expires_in = some 3600;
  token_type = codes "Bearer";
  user_key = user_key;
}

pub session_unlocked : unlock_session toy response (codes "secret") 64 ≡ ok session
unfolding unlock_session unlock_data_from kdf_from_response kdf_from_parts check_memory_limit
session_unlocked = rw unlocked

unlock_session-IsSession_example : IsSession toy response (codes "secret") 64 session
unlock_session-IsSession_example =
    unlock_session-IsSession toy response (codes "secret") 64 session session_unlocked

collect_body_iff_example :
    (collect_body "sync" 4 [] (received (1 ∷ []) ∷ received (2 ∷ []) ∷ []) ≡ ok (1 ∷ 2 ∷ [])) ↔ (
      Delivers (received (1 ∷ []) ∷ received (2 ∷ []) ∷ []) (1 ∷ 2 ∷ [])
      × (length {A = ℕ} (1 ∷ 2 ∷ []) ≤ 4))
collect_body_iff_example =
    collect_body_iff "sync" 4 (1 ∷ 2 ∷ []) (received (1 ∷ []) ∷ received (2 ∷ []) ∷ [])
      (omega arith)
