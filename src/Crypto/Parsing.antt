-- ===== src/Crypto/Parsing.antt =====
-- What `EncryptedString::from_str` accepts, stated as the shape of the text.
use vaultwarden_eso_provider.Prelude.{
  Option-cases, inl, inr, sym, bail_if, not, ◌>>◌, ◌%◌, ◌≡◌, ◌<◌, ◌↔◌, refl, ap, ◌∙◌, some, List,
  [], ◌∷◌, ◌++◌, arith, ok, ◌>>=◌, length, All,
}
use vaultwarden_eso_provider.Text.{Text, split, split_once}
use vaultwarden_eso_provider.Text.Splitting.{
  Avoids, join, join-split, split-join, split-Avoids, split_once_sound, split_once_complete,
}
use vaultwarden_eso_provider.Primitives.{Primitives}
use vaultwarden_eso_provider.Crypto.{
  EncryptionType, aes_cbc256_hmac_sha256_b64, EncryptedString, parse_u8, parse_encryption_type,
  three_parts, decode_parts, parse, is_aes_cbc256_hmac, as_u8, unsupported_encryption_type,
}

-- The lengths that decryption relies on.
pub record IsWellFormed (s : EncryptedString) : Type 0 where
  pub iv_length : length s.iv ≡ 16
  pub mac_length : length s.mac ≡ 32
  pub some_data : 0 < length s.ciphertext
  pub whole_blocks : length s.ciphertext % 16 ≡ 0

module _ (p : Primitives) where
  -- The text `2.iv|data|mac`, its three parts in base64.
  pub record IsSerialized (raw : Text) (s : EncryptedString) : Type 0 where
    pub header : Text
    pub iv_raw : Text
    pub data_raw : Text
    pub mac_raw : Text
    pub whole : raw ≡ header ++ b'.' ∷ join b'|' (iv_raw ∷ data_raw ∷ mac_raw ∷ [])
    pub no_dot : Avoids b'.' header
    pub type_two : parse_u8 header ≡ some 2
    pub no_bars : All (Avoids b'|') (iv_raw ∷ data_raw ∷ mac_raw ∷ [])
    pub iv_decoded : p.base64_decode iv_raw ≡ some s.iv
    pub data_decoded : p.base64_decode data_raw ≡ some s.ciphertext
    pub mac_decoded : p.base64_decode mac_raw ≡ some s.mac
    pub well_formed : IsWellFormed s

  decode_parts_sound :
      (t : EncryptionType) (iv_raw data_raw mac_raw : Text) (s : EncryptedString)
      → decode_parts p t (iv_raw, data_raw, mac_raw) ≡ ok s
      → (p.base64_decode iv_raw ≡ some s.iv)
        × (p.base64_decode data_raw ≡ some s.ciphertext)
        × (p.base64_decode mac_raw ≡ some s.mac)
        × IsWellFormed s
  unfolding decode_parts
  decode_parts_sound t iv_raw data_raw mac_raw s h = ground arith

  decode_parts_complete :
      (t : EncryptionType) (iv_raw data_raw mac_raw : Text) (s : EncryptedString)
      → p.base64_decode iv_raw ≡ some s.iv
      → p.base64_decode data_raw ≡ some s.ciphertext
      → p.base64_decode mac_raw ≡ some s.mac
      → IsWellFormed s
      → decode_parts p t (iv_raw, data_raw, mac_raw) ≡ ok s
  unfolding decode_parts
  decode_parts_complete aes_cbc256_hmac_sha256_b64 iv_raw data_raw mac_raw s hi hd hm w =
      ground arith

type_sound :
    (header : Text) {t : EncryptionType}
    → parse_encryption_type header ≡ ok t
    → parse_u8 header ≡ some 2
unfolding parse_encryption_type
type_sound header h = ground arith

module _ (p : Primitives) where
  pieces_sound :
      (t : EncryptionType) (pieces : List Text) {s : EncryptedString}
      → (three_parts pieces >>= decode_parts p t) ≡ ok s
      → (a b c : Text) × (pieces ≡ a ∷ b ∷ c ∷ []) × (decode_parts p t (a, b, c) ≡ ok s)
  unfolding three_parts
  pieces_sound t [] h = cc
  pieces_sound t (a ∷ []) h = cc
  pieces_sound t (a ∷ b ∷ []) h = cc
  pieces_sound t (a ∷ b ∷ c ∷ []) h = (a, b, c, refl, h)
  pieces_sound t (a ∷ b ∷ c ∷ d ∷ l) h = cc

  -- What stands behind the header of an accepted text.
  payload_sound :
      (header payload : Text) {s : EncryptedString}
      → (do
        t ← parse_encryption_type header
        bail_if (not (is_aes_cbc256_hmac t)) (unsupported_encryption_type (as_u8 t))
        pieces ← three_parts (split b'|' payload)
        decode_parts p t pieces)
        ≡ ok s
      → (parse_u8 header ≡ some 2)
        × ((three_parts (split b'|' payload) >>= decode_parts p aes_cbc256_hmac_sha256_b64) ≡ ok s)
  unfolding parse_encryption_type
  payload_sound header payload h = ground arith

  parse_sound : (raw : Text) (s : EncryptedString) → parse p raw ≡ ok s → IsSerialized p raw s
  unfolding parse
  parse_sound raw s h = elim (Option-cases (split_once b'.' raw)) [
    | inl uncut ↦ absurd (ground arith)
    | inr ((header, payload), cut) ↦
        let (whole, no_dot) = split_once_sound b'.' raw header payload cut in
        let (two, rest) = payload_sound header payload (rw cut at h) in
        let (iv, dat, mac, pieces, decoded) =
          pieces_sound aes_cbc256_hmac_sha256_b64 (split b'|' payload) rest in
        let (hi, hd, hm, w) =
          decode_parts_sound p aes_cbc256_hmac_sha256_b64 iv dat mac s decoded in
        record {
          header = header;
          iv_raw = iv;
          data_raw = dat;
          mac_raw = mac;
          whole =
              whole
              ∙ ap (λ t. header ++ b'.' ∷ t)
                  (sym (join-split b'|' payload) ∙ ap (join b'|') pieces);
          no_dot = no_dot;
          type_two = two;
          no_bars = rw pieces at (split-Avoids b'|' payload);
          iv_decoded = hi;
          data_decoded = hd;
          mac_decoded = hm;
          well_formed = w;
        }
  ]

  parse_complete : (raw : Text) (s : EncryptedString) → IsSerialized p raw s → parse p raw ≡ ok s
  unfolding parse parse_encryption_type three_parts
  parse_complete raw s w =
      let cut =
        split_once_complete b'.' w.header (join b'|' (w.iv_raw ∷ w.data_raw ∷ w.mac_raw ∷ []))
          w.no_dot in
      let pieces = split-join b'|' w.iv_raw (w.data_raw ∷ w.mac_raw ∷ []) w.no_bars.0 w.no_bars.1 in
      rw (w.whole, cut, w.type_two, pieces)
        (decode_parts_complete p aes_cbc256_hmac_sha256_b64 w.iv_raw w.data_raw w.mac_raw s
          w.iv_decoded w.data_decoded w.mac_decoded w.well_formed)

  -- A text is accepted, with the value `s`, exactly when it is `header.iv|data|mac` with a header
  -- that reads as the number 2, three base64 parts that decode to the fields of `s`, an IV of 16
  -- bytes, a MAC of 32 bytes, and one or more whole blocks of 16 bytes of data.
  pub parse_iff : (raw : Text) (s : EncryptedString) → (parse p raw ≡ ok s) ↔ IsSerialized p raw s
  parse_iff raw s = (parse_sound raw s, parse_complete raw s)
