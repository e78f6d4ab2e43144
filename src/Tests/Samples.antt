-- ===== src/Tests/Samples.antt =====
-- Simple functions in the place of the external primitives, and a vault under them.
use vaultwarden_eso_provider.Prelude.{
  ℕ, zero, suc, ◌+◌, ◌-◌, ◌*◌, ◌/◌, ◌%◌, ◌≡◌, refl, if◌then◌else◌, Option, none, some, [], ◌∷◌,
  ◌++◌, arith, length, take, leb,
}
use vaultwarden_eso_provider.Text.{Text, codes}
use vaultwarden_eso_provider.Text.Splitting.{Avoids}
use vaultwarden_eso_provider.Utf8.{Bytes, as_bytes}
use vaultwarden_eso_provider.Primitives.{Primitives}
use vaultwarden_eso_provider.Crypto.{
  AuthenticatedSymmetricKey, EncryptedString, aes_cbc256_hmac_sha256_b64,
}
use vaultwarden_eso_provider.Crypto.RoundTrip.{Base64Laws, serialize}
use vaultwarden_eso_provider.Cipher.{EncryptedCipher}
use vaultwarden_eso_provider.Vault.{SyncResponse}
use vaultwarden_eso_provider.Selector.{Selector}

-- Every byte is written as the character 256 places on.
unfoldable pub shift_up : Bytes → Text
shift_up [] = []
shift_up (b ∷ bytes) = (b + 256) ∷ shift_up bytes

unfoldable pub shift_down : Text → Option Bytes
shift_down [] = some []
shift_down (c ∷ s) =
    let rest = shift_down s in
    if leb 256 c then (elim rest [ none ↦ none | some bytes ↦ some ((c - 256) ∷ bytes) ]) else none

unfoldable pub repeat : ℕ → ℕ → Bytes
repeat zero b = []
repeat (suc n) b = b ∷ repeat n b

abbrev pub fit : ℕ → Bytes → Bytes
fit n bytes = take n (bytes ++ repeat n 0)

-- The first byte is the length of the plaintext, which follows it.
abbrev pub unpad : Bytes → Option Bytes
unpad [] = none
unpad (n ∷ bytes) = some (take n bytes)

abbrev pub toy : Primitives
toy = record {
  base64_encode = shift_up;
  base64_decode = shift_down;
  hmac_sha256 = λ key message. some (repeat 32 (length message % 256));
  aes256_cbc_decrypt = λ key iv ciphertext. unpad ciphertext;
  pbkdf2_hmac_sha256 = λ password salt iterations. fit 32 (password ++ salt);
  hkdf_from_prk = λ prk. some prk;
  hkdf_expand = λ prk info n. some (fit n (info ++ prk));
  sha256 = fit 32;
  argon2_params = λ memory iterations parallelism output. some (record {
    memory_kib = memory;
    iterations = iterations;
    parallelism = parallelism;
    output_length = output;
  });
  argon2id = λ params password salt. some (fit 32 (password ++ salt));
  to_lowercase = λ s. s;
}

shift_up-Avoids : (bytes : Bytes) → Avoids b'|' (shift_up bytes)
unfolding shift_up
shift_up-Avoids [] = tt
shift_up-Avoids (b ∷ bytes) = (omega arith, shift_up-Avoids bytes)

shift_down-up : (bytes : Bytes) → shift_down (shift_up bytes) ≡ some bytes
unfolding shift_up shift_down
shift_down-up [] = refl
shift_down-up (b ∷ bytes) = ground (arith, shift_down-up bytes)

pub toy-laws : Base64Laws toy
toy-laws = record {
  decode-encode = λ bytes are_bytes. shift_down-up bytes;
  encode-Avoids = shift_up-Avoids;
}

-- Plaintext with its length before it, filled up to whole blocks.
abbrev pub pad : Bytes → Bytes
pad plain = fit ((length plain / 16 + 1) * 16) (length plain ∷ plain)

abbrev pub sealed : Bytes → EncryptedString
sealed plain = record {
  encryption_type = aes_cbc256_hmac_sha256_b64;
  iv = repeat 16 0;
  ciphertext = pad plain;
  mac = repeat 32 ((16 + length (pad plain)) % 256);
}

abbrev pub seal : Text → Text
seal text = serialize toy (sealed (as_bytes text))

abbrev pub user_key : AuthenticatedSymmetricKey
user_key = record { encryption_key = repeat 32 1; authentication_key = repeat 32 2 }

abbrev pub database_item : EncryptedCipher
database_item = record {
  id = codes "7";
  cipher_type = 1;
  organization_id = none;
  deleted_date = none;
  key = none;
  name = some (seal (codes "db"));
  notes = none;
  fields = [];
  login = some (record { username = none; password = some (seal (codes "pw")); totp = none });
  ssh_key = none;
}

abbrev pub deleted_item : EncryptedCipher
deleted_item = record database_item { deleted_date = some (codes "2024") }

abbrev pub vault : SyncResponse
vault = record { ciphers = deleted_item ∷ database_item ∷ [] }

abbrev pub password_of_database : Selector
password_of_database = record { key = codes "name:db"; property = some (codes "password") }
