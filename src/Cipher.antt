-- ===== src/Cipher.antt =====
-- crates/bweso-bitwarden/src/cipher.rs: encrypted and decrypted vault items.
pub mod Extraction
pub mod Pairs
pub mod Insertion
pub mod Document
pub mod Property
use vaultwarden_eso_provider.Prelude.{
  ℕ, String, Bool, true, false, not, ◌&&◌, ◌||◌, Option, none, some, List, [], ◌∷◌, Result, ok, err,
  ◌>>=◌, ◌>>◌, map_err, ok_or, bail_if, if◌then◌else◌, is_empty, and_then, or_else, unwrap_or,
}
use vaultwarden_eso_provider.Text.{Text, codes, text_eq, trim, starts_with, strip_prefix}
use vaultwarden_eso_provider.TreeMap.{text_ord, insert, contains_key}
use vaultwarden_eso_provider.Core.{SecretDocument, empty_document, is_blank}
use vaultwarden_eso_provider.Utf8.{Bytes}
use vaultwarden_eso_provider.Primitives.{Primitives}
use vaultwarden_eso_provider.Crypto.{
  CryptoError, AuthenticatedSymmetricKey, parse, decrypt_bytes, decrypt_utf8, key_from_slice,
}

pub record EncryptedField : Type 0 where
  pub name : Option Text
  pub value : Option Text
  pub field_type : Option ℕ

pub record EncryptedLogin : Type 0 where
  pub username : Option Text
  pub password : Option Text
  pub totp : Option Text

pub record EncryptedSshKey : Type 0 where
  pub private_key : Option Text
  pub public_key : Option Text
  pub key_fingerprint : Option Text

pub record EncryptedCipher : Type 0 where
  pub id : Text
  pub cipher_type : ℕ
  pub organization_id : Option Text
  pub deleted_date : Option Text
  pub key : Option Text
  pub name : Option Text
  pub notes : Option Text
  pub fields : List EncryptedField
  pub login : Option EncryptedLogin
  pub ssh_key : Option EncryptedSshKey

pub record DecryptedField : Type 0 where
  pub name : Option Text
  pub value : Option Text
  pub field_type : Option ℕ

pub record DecryptedLogin : Type 0 where
  pub username : Option Text
  pub password : Option Text
  pub totp : Option Text

pub record DecryptedSshKey : Type 0 where
  pub private_key : Option Text
  pub public_key : Option Text
  pub key_fingerprint : Option Text

pub record DecryptedCipher : Type 0 where
  pub id : Text
  pub cipher_type : ℕ
  pub organization_id : Option Text
  pub name : Option Text
  pub notes : Option Text
  pub fields : List DecryptedField
  pub login : Option DecryptedLogin
  pub ssh_key : Option DecryptedSshKey

pub data CipherError : Type 0 where
  crypto : CryptoError → CipherError
  blank_property : CipherError
  missing_property no_extractable_fields duplicate_document_field : Text → CipherError
  unsupported_attachment : CipherError

-- `Option::map` with a fallible function, then `transpose`.
abbrev pub traverse_option {ℓ κ μ} :
    {E : Type κ} {A : Type ℓ} {B : Type μ} → (A → Result E B) → Option A → Result E (Option B)
traverse_option f none = ok none
traverse_option f (some a) = f a >>= λ b. ok (some b)

-- `map` with a fallible function, then `collect::<Result<Vec<_>, _>>`: up to the first error.
unfoldable pub traverse {ℓ κ μ} :
    {E : Type κ} {A : Type ℓ} {B : Type μ} → (A → Result E B) → List A → Result E (List B)
traverse f [] = ok []
traverse f (a ∷ as') = do b ← f a; bs ← traverse f as'; ok (b ∷ bs)

module _ (p : Primitives) where
  unfoldable pub decrypt_optional :
      Option Text → AuthenticatedSymmetricKey → Result CipherError (Option Text)
  decrypt_optional value key =
      map_err crypto
        (traverse_option (λ encrypted. parse p encrypted >>= λ s. decrypt_utf8 p s key) value)

  unfoldable pub decrypt_field :
      AuthenticatedSymmetricKey → EncryptedField → Result CipherError DecryptedField
  decrypt_field key field = do
    name ← decrypt_optional field.name key
    value ← decrypt_optional field.value key
    ok (record { name = name; value = value; field_type = field.field_type })

  unfoldable pub decrypt_login :
      AuthenticatedSymmetricKey → EncryptedLogin → Result CipherError DecryptedLogin
  decrypt_login key login = do
    username ← decrypt_optional login.username key
    password ← decrypt_optional login.password key
    totp ← decrypt_optional login.totp key
    ok (record { username = username; password = password; totp = totp })

  unfoldable pub decrypt_ssh_key :
      AuthenticatedSymmetricKey → EncryptedSshKey → Result CipherError DecryptedSshKey
  decrypt_ssh_key key ssh_key = do
    private_key ← decrypt_optional ssh_key.private_key key
    public_key ← decrypt_optional ssh_key.public_key key
    key_fingerprint ← decrypt_optional ssh_key.key_fingerprint key
    ok (record {
      private_key = private_key;
      public_key = public_key;
      key_fingerprint = key_fingerprint;
    })

  -- The key of the item itself, where it has one: it is wrapped by the user key.
  unfoldable pub decryption_key :
      Option Text → AuthenticatedSymmetricKey → Result CipherError AuthenticatedSymmetricKey
  decryption_key none key = ok key
  decryption_key (some wrapped_key) key = do
    encrypted ← map_err crypto (parse p wrapped_key)
    plain ← map_err crypto (decrypt_bytes p encrypted key)
    map_err crypto (key_from_slice plain)

  -- `EncryptedCipher::decrypt`.
  unfoldable pub decrypt :
      EncryptedCipher → AuthenticatedSymmetricKey → Result CipherError DecryptedCipher
  decrypt c user_key = do
    key ← decryption_key c.key user_key
    name ← decrypt_optional c.name key
    notes ← decrypt_optional c.notes key
    fields ← traverse (decrypt_field key) c.fields
    login ← traverse_option (decrypt_login key) c.login
    ssh_key ← traverse_option (decrypt_ssh_key key) c.ssh_key
    ok (record {
      id = c.id;
      cipher_type = c.cipher_type;
      organization_id = c.organization_id;
      name = name;
      notes = notes;
      fields = fields;
      login = login;
      ssh_key = ssh_key;
    })
