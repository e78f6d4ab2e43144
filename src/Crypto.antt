-- ===== src/Crypto.antt =====
-- crates/bweso-bitwarden/src/crypto.rs: encrypted strings, authenticated keys, decryption.
pub mod Parsing
pub mod Decryption
pub mod RoundTrip
use vaultwarden_eso_provider.Prelude.{
  ℕ, zero, suc, ◌+◌, ◌-◌, ◌*◌, ◌%◌, String, Bool, true, false, not, ◌&&◌, ◌||◌, Option, none, some,
  List, [], ◌∷◌, ◌++◌, Result, ok, err, ◌>>=◌, ◌>>◌, map_err, ok_or, bail_if, ltb, leb, ◌==◌,
  if◌then◌else◌, length, take, drop, is_empty,
}
use vaultwarden_eso_provider.Text.{Text, text_eq, split, split_once}
use vaultwarden_eso_provider.Utf8.{Bytes, from_utf8}
use vaultwarden_eso_provider.Primitives.{Primitives}

abbrev pub aes_256_key_length : ℕ
aes_256_key_length = 32

abbrev pub authenticated_key_length : ℕ
authenticated_key_length = 64

abbrev pub aes_cbc_iv_length : ℕ
aes_cbc_iv_length = 16

abbrev pub hmac_sha256_length : ℕ
hmac_sha256_length = 32

-- The source error of the base64 decoder is left out.
pub data CryptoError : Type 0 where
  invalid_key_length : ℕ → CryptoError
  invalid_encryption_type_header legacy_no_mac_disabled : CryptoError
  unsupported_encryption_type : ℕ → CryptoError
  invalid_part_count : CryptoError
  invalid_base64 : String → CryptoError
  invalid_iv_length invalid_mac_length invalid_ciphertext_length : ℕ → CryptoError
  mac_verification_failed decrypt_failed invalid_utf8 : CryptoError

pub data EncryptionType : Type 0 where
  aes_cbc256_hmac_sha256_b64 : EncryptionType

-- `encryption_type == EncryptionType::AesCbc256HmacSha256B64`.
abbrev pub is_aes_cbc256_hmac : EncryptionType → Bool
is_aes_cbc256_hmac aes_cbc256_hmac_sha256_b64 = true

unfoldable pub as_u8 : EncryptionType → ℕ
as_u8 aes_cbc256_hmac_sha256_b64 = 2

-- The digits of `str::parse::<u8>`: `none` at another character, or past 255.
parse_digits : ℕ → Text → Option ℕ
parse_digits n [] = some n
parse_digits n (c ∷ s) = elim (leb b'0' c && leb c b'9' && leb (n * 10 + (c - b'0')) 255) [
  | true ↦ parse_digits (n * 10 + (c - b'0')) s
  | false ↦ none
]

-- `str::parse::<u8>`: a sign `+` may stand before the digits.
unfoldable pub parse_u8 : Text → Option ℕ
unfolding parse_digits
parse_u8 [] = none
parse_u8 (c ∷ []) = if c == b'+' then none else parse_digits 0 (c ∷ [])
parse_u8 (c ∷ d ∷ s) = if c == b'+' then parse_digits 0 (d ∷ s) else parse_digits 0 (c ∷ d ∷ s)

-- `EncryptionType::parse`.
unfoldable pub parse_encryption_type : Text → Result CryptoError EncryptionType
unfolding parse_u8
parse_encryption_type raw = do
  encryption_type ← ok_or invalid_encryption_type_header (parse_u8 raw)
  if encryption_type == 0
      then err legacy_no_mac_disabled
      else if encryption_type == 2
      then ok aes_cbc256_hmac_sha256_b64
      else err (unsupported_encryption_type encryption_type)

pub record EncryptedString : Type 0 where
  pub encryption_type : EncryptionType
  pub iv : Bytes
  pub ciphertext : Bytes
  pub mac : Bytes

pub record AuthenticatedSymmetricKey : Type 0 where
  pub encryption_key : Bytes
  pub authentication_key : Bytes

-- `AuthenticatedSymmetricKey::try_from`.
unfoldable pub key_from_slice : Bytes → Result CryptoError AuthenticatedSymmetricKey
key_from_slice raw =
    if not (length raw == authenticated_key_length)
    then err (invalid_key_length (length raw))
    else ok (record {
      encryption_key = take aes_256_key_length raw;
      authentication_key = drop aes_256_key_length raw;
    })

-- The pieces of the payload: exactly an IV, the data and a MAC.
unfoldable pub three_parts : List Text → Result CryptoError (Text × Text × Text)
three_parts (iv ∷ ciphertext ∷ mac ∷ []) = ok (iv, ciphertext, mac)
three_parts _ = err invalid_part_count

abbrev pub bytes_eq : Bytes → Bytes → Bool
bytes_eq = text_eq

module _ (p : Primitives) where
  unfoldable pub decode_base64 : String → Text → Result CryptoError Bytes
  decode_base64 part raw = ok_or (invalid_base64 part) (p.base64_decode raw)

  unfoldable pub key_from_base64 : Text → Result CryptoError AuthenticatedSymmetricKey
  unfolding decode_base64 key_from_slice
  key_from_base64 raw = do decoded ← decode_base64 "key" raw; key_from_slice decoded

  -- The tail of `from_str`, from the three pieces of the payload.
  unfoldable pub decode_parts :
      EncryptionType → Text × Text × Text → Result CryptoError EncryptedString
  unfolding decode_base64
  decode_parts encryption_type (iv_raw, data_raw, mac_raw) = do
    iv ← decode_base64 "iv" iv_raw
    ciphertext ← decode_base64 "data" data_raw
    mac ← decode_base64 "mac" mac_raw
    bail_if (not (length iv == aes_cbc_iv_length)) (invalid_iv_length (length iv))
    bail_if (not (length mac == hmac_sha256_length)) (invalid_mac_length (length mac))
    bail_if (is_empty ciphertext || not (length ciphertext % aes_cbc_iv_length == 0))
        (invalid_ciphertext_length (length ciphertext))
    ok (record { encryption_type = encryption_type; iv = iv; ciphertext = ciphertext; mac = mac })

  -- `EncryptedString::from_str`.
  unfoldable pub parse : Text → Result CryptoError EncryptedString
  parse raw = do
    (header, payload) ← ok_or legacy_no_mac_disabled (split_once b'.' raw)
    encryption_type ← parse_encryption_type header
    bail_if (not (is_aes_cbc256_hmac encryption_type))
        (unsupported_encryption_type (as_u8 encryption_type))
    pieces ← three_parts (split b'|' payload)
    decode_parts encryption_type pieces

  -- The tag is computed over the IV and the ciphertext, and compared with the one that was sent.
  unfoldable pub verify_mac : Bytes → Bytes → Bytes → Bytes → Result CryptoError (Unit {0})
  verify_mac authentication_key iv ciphertext mac = do
    tag ←
        ok_or (invalid_key_length (length authentication_key))
          (p.hmac_sha256 authentication_key (iv ++ ciphertext))
    bail_if (not (bytes_eq tag mac)) mac_verification_failed

  unfoldable pub decrypt_bytes :
      EncryptedString → AuthenticatedSymmetricKey → Result CryptoError Bytes
  decrypt_bytes s key = do
    bail_if (not (is_aes_cbc256_hmac s.encryption_type))
        (unsupported_encryption_type (as_u8 s.encryption_type))
    verify_mac key.authentication_key s.iv s.ciphertext s.mac
    ok_or decrypt_failed (p.aes256_cbc_decrypt key.encryption_key s.iv s.ciphertext)

  unfoldable pub decrypt_utf8 :
      EncryptedString → AuthenticatedSymmetricKey → Result CryptoError Text
  decrypt_utf8 s key = do plain ← decrypt_bytes s key; ok_or invalid_utf8 (from_utf8 plain)
