-- ===== src/Keys/Unlock.antt =====
-- What a successful unlock of the user key establishes.
use vaultwarden_eso_provider.Prelude.{
  ◌≡◌, ◌≢◌, ◌++◌, some, [], ok, >>=-eq-ok, map_err, map_err-eq-ok,
}
use vaultwarden_eso_provider.Text.{Text}
use vaultwarden_eso_provider.Utf8.{Bytes}
use vaultwarden_eso_provider.Primitives.{Primitives}
use vaultwarden_eso_provider.Crypto.{
  EncryptedString, AuthenticatedSymmetricKey, parse, decrypt_bytes, key_from_slice,
}
use vaultwarden_eso_provider.Crypto.Decryption.{decrypt_bytes_iff}
use vaultwarden_eso_provider.Keys.{
  MasterKey, MasterPasswordUnlockData, crypto, derive, derive_master_key, stretch_master_key,
  unwrap_user_key_with_master_key, unlock_user_key,
}
use vaultwarden_eso_provider.Keys.Bounds.{InBounds, derive_master_key-InBounds}

-- The chain from the password to the user key, with the checks that were passed on the way.
pub record IsUnlocked (p : Primitives) (unlock : MasterPasswordUnlockData) (password : Text)
    (key : AuthenticatedSymmetricKey) : Type 0 where
  pub some_password : password ≢ []
  pub in_bounds : InBounds unlock.kdf
  pub master_key : MasterKey
  pub derived : derive p password unlock.salt unlock.kdf ≡ ok master_key
  pub wrapping_key : AuthenticatedSymmetricKey
  pub stretched : stretch_master_key p master_key ≡ ok wrapping_key
  pub encrypted : EncryptedString
  pub parsed : parse p unlock.master_key_wrapped_user_key ≡ ok encrypted
  pub tagged :
      p.hmac_sha256 wrapping_key.authentication_key (encrypted.iv ++ encrypted.ciphertext)
      ≡ some encrypted.mac
  pub plain : Bytes
  pub decrypted :
      p.aes256_cbc_decrypt wrapping_key.encryption_key encrypted.iv encrypted.ciphertext
      ≡ some plain
  pub split_key : key_from_slice plain ≡ ok key

-- An unlock that succeeds had a password and KDF parameters within their bounds, derived and
-- stretched the master key, parsed the wrapped key, verified its tag under the stretched key before
-- it decrypted it, and split the plaintext into the user key.
pub unlock_user_key-IsUnlocked :
    (p : Primitives) (unlock : MasterPasswordUnlockData) (password : Text)
    (key : AuthenticatedSymmetricKey)
    → unlock_user_key p unlock password ≡ ok key
    → IsUnlocked p unlock password key
unfolding unlock_user_key unwrap_user_key_with_master_key
unlock_user_key-IsUnlocked p unlock password key h =
    let (master, e₁, h₁) = >>=-eq-ok (derive_master_key p password unlock.salt unlock.kdf) _ h in
    let (wrapping, e₂, h₂) = >>=-eq-ok (stretch_master_key p master) _ h₁ in
    let (encrypted, e₃, h₃) =
      >>=-eq-ok (map_err crypto (parse p unlock.master_key_wrapped_user_key)) _ h₂ in
    let (plain, e₄, h₄) = >>=-eq-ok (map_err crypto (decrypt_bytes p encrypted wrapping)) _ h₃ in
    let (tagged, decrypted) =
      (decrypt_bytes_iff p encrypted wrapping plain).0 (map_err-eq-ok crypto _ e₄) in
    let (nonempty, bounds, derived) =
      derive_master_key-InBounds p password unlock.salt unlock.kdf master e₁ in
    record {
      some_password = nonempty;
      in_bounds = bounds;
      master_key = master;
      derived = derived;
      wrapping_key = wrapping;
      stretched = e₂;
      encrypted = encrypted;
      parsed = map_err-eq-ok crypto _ e₃;
      tagged = tagged;
      plain = plain;
      decrypted = decrypted;
      split_key = map_err-eq-ok crypto _ h₄;
    }
