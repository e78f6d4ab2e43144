-- ===== src/Crypto/Decryption.antt =====
-- Encrypt-then-MAC: nothing is decrypted whose tag was not verified; and the split of a key.
use vaultwarden_eso_provider.Prelude.{
  ◌≡◌, ◌≢◌, ◌↔◌, some, ◌++◌, arith, ok, err, length, take, drop, Option-cases, inl, inr, ◌∙◌,
  take-append-drop, length-take, length-drop,
}
use vaultwarden_eso_provider.Text.Laws.{text_eq_iff}
use vaultwarden_eso_provider.Utf8.{Bytes}
use vaultwarden_eso_provider.Primitives.{Primitives}
use vaultwarden_eso_provider.Crypto.{
  EncryptedString, AuthenticatedSymmetricKey, key_from_slice, invalid_key_length, verify_mac,
  decrypt_bytes,
}

module _ (p : Primitives) where
  verify_mac_iff :
      (key iv ciphertext mac : Bytes)
      → (verify_mac p key iv ciphertext mac ≡ ok tt)
        ↔ (p.hmac_sha256 key (iv ++ ciphertext) ≡ some mac)
  unfolding verify_mac
  verify_mac_iff key iv ciphertext mac = (
    λ h. elim (Option-cases (p.hmac_sha256 key (iv ++ ciphertext))) [
      | inl e ↦ absurd (ground arith)
      | inr (tag, e) ↦ ground (arith, text_eq_iff tag mac)
    ],
    λ h. rw h (ground (arith, text_eq_iff mac mac)),
  )

  decrypt_bytes_sound :
      (s : EncryptedString) (key : AuthenticatedSymmetricKey) (plain : Bytes)
      → decrypt_bytes p s key ≡ ok plain
      → (p.hmac_sha256 key.authentication_key (s.iv ++ s.ciphertext) ≡ some s.mac)
        × (p.aes256_cbc_decrypt key.encryption_key s.iv s.ciphertext ≡ some plain)
  unfolding decrypt_bytes
  decrypt_bytes_sound s key plain h =
      ground (arith, verify_mac_iff key.authentication_key s.iv s.ciphertext s.mac)

  decrypt_bytes_complete :
      (s : EncryptedString) (key : AuthenticatedSymmetricKey) (plain : Bytes)
      → p.hmac_sha256 key.authentication_key (s.iv ++ s.ciphertext) ≡ some s.mac
      → p.aes256_cbc_decrypt key.encryption_key s.iv s.ciphertext ≡ some plain
      → decrypt_bytes p s key ≡ ok plain
  unfolding decrypt_bytes
  decrypt_bytes_complete s key plain hm hd =
      ground (arith, verify_mac_iff key.authentication_key s.iv s.ciphertext s.mac)

  -- Decryption gives `plain` exactly when the tag of IV and ciphertext under the authentication half
  -- of the key is the one that was sent, and AES under the encryption half gives `plain`.
  pub decrypt_bytes_iff :
      (s : EncryptedString) (key : AuthenticatedSymmetricKey) (plain : Bytes)
      → (decrypt_bytes p s key ≡ ok plain) ↔ (
          (p.hmac_sha256 key.authentication_key (s.iv ++ s.ciphertext) ≡ some s.mac)
          × (p.aes256_cbc_decrypt key.encryption_key s.iv s.ciphertext ≡ some plain))
  decrypt_bytes_iff s key plain =
      (decrypt_bytes_sound s key plain, λ h. decrypt_bytes_complete s key plain h.0 h.1)

-- A key is split in the middle: both halves have 32 bytes, and joined they are the input; any
-- other length than 64 is refused with that length.
pub key_from_slice_halves :
    (raw : Bytes)
    → (length raw ≡ 64
        → (key : AuthenticatedSymmetricKey) × (key_from_slice raw ≡ ok key)
          × (length key.encryption_key ≡ 32)
          × (length key.authentication_key ≡ 32)
          × (key.encryption_key ++ key.authentication_key ≡ raw))
      × (length raw ≢ 64 → key_from_slice raw ≡ err (invalid_key_length (length raw)))
unfolding key_from_slice
key_from_slice_halves raw = (
  λ h. (
    record { encryption_key = take 32 raw; authentication_key = drop 32 raw },
    ground arith,
    length-take 32 raw ∙ omega arith,
    length-drop 32 raw ∙ omega arith,
    take-append-drop 32 raw,
  ),
  λ h. ground arith,
)
