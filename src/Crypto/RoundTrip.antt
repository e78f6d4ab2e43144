-- ===== src/Crypto/RoundTrip.antt =====
-- A text that was encrypted and written as `2.iv|data|mac` is read back and decrypted to itself.
use vaultwarden_eso_provider.Prelude.{◌≡◌, ◌<◌, refl, some, [], ◌∷◌, ◌++◌, arith, ok, ◌>>=◌, All}
use vaultwarden_eso_provider.Text.{Text, codes}
use vaultwarden_eso_provider.Text.Splitting.{Avoids, join}
use vaultwarden_eso_provider.Utf8.{Bytes, as_bytes, from_utf8-as_bytes, IsScalar}
use vaultwarden_eso_provider.Primitives.{Primitives}
use vaultwarden_eso_provider.Crypto.{
  EncryptedString, AuthenticatedSymmetricKey, parse, parse_u8, decrypt_utf8,
}
use vaultwarden_eso_provider.Crypto.Parsing.{IsWellFormed, parse_iff}
use vaultwarden_eso_provider.Crypto.Decryption.{decrypt_bytes_iff}

abbrev pub AreBytes : Bytes → Type 0
AreBytes = All (λ b. b < 256)

-- What the base64 crate documents of its standard engine: decoding undoes encoding, and the
-- alphabet has no vertical bar.
pub record Base64Laws (p : Primitives) : Type 0 where
  pub decode-encode : (b : Bytes) → AreBytes b → p.base64_decode (p.base64_encode b) ≡ some b
  pub encode-Avoids : (b : Bytes) → Avoids b'|' (p.base64_encode b)

module _ (p : Primitives) where
  -- The text form that the documentation of `EncryptionType` names.
  unfoldable pub serialize : EncryptedString → Text
  serialize s =
      codes "2."
      ++ join b'|'
          (p.base64_encode s.iv ∷ p.base64_encode s.ciphertext ∷ p.base64_encode s.mac ∷ [])

  module _ (laws : Base64Laws p) where
    parse-serialize :
        (s : EncryptedString)
        → IsWellFormed s
        → AreBytes s.iv
        → AreBytes s.ciphertext
        → AreBytes s.mac
        → parse p (serialize s) ≡ ok s
    unfolding serialize parse_u8
    parse-serialize s w hi hd hm = (parse_iff p (serialize s) s).1 (record {
      header = codes "2";
      iv_raw = p.base64_encode s.iv;
      data_raw = p.base64_encode s.ciphertext;
      mac_raw = p.base64_encode s.mac;
      whole = refl;
      no_dot = ground arith;
      type_two = refl;
      no_bars = (
        laws.encode-Avoids s.iv,
        (laws.encode-Avoids s.ciphertext, (laws.encode-Avoids s.mac, tt)),
      );
      iv_decoded = laws.decode-encode s.iv hi;
      data_decoded = laws.decode-encode s.ciphertext hd;
      mac_decoded = laws.decode-encode s.mac hm;
      well_formed = w;
    })

    -- Where the MAC is the tag of IV and ciphertext under the key, and AES turns the ciphertext
    -- back into the bytes of `text`, reading the serialized form and decrypting it gives `text`.
    pub decrypt-serialize :
        (s : EncryptedString) (key : AuthenticatedSymmetricKey) (text : Text)
        → IsWellFormed s
        → AreBytes s.iv
        → AreBytes s.ciphertext
        → AreBytes s.mac
        → All IsScalar text
        → p.hmac_sha256 key.authentication_key (s.iv ++ s.ciphertext) ≡ some s.mac
        → p.aes256_cbc_decrypt key.encryption_key s.iv s.ciphertext ≡ some (as_bytes text)
        → (parse p (serialize s) >>= λ e. decrypt_utf8 p e key) ≡ ok text
    unfolding decrypt_utf8
    decrypt-serialize s key text w hi hd hm scalars tag plain =
        let bytes = (decrypt_bytes_iff p s key (as_bytes text)).1 (tag, plain) in
        rw (parse-serialize s w hi hd hm, bytes, from_utf8-as_bytes text scalars)
