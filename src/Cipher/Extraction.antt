-- ===== src/Cipher/Extraction.antt =====
-- crates/bweso-bitwarden/src/cipher.rs: what is extracted from a decrypted item.
use vaultwarden_eso_provider.Prelude.{
  String, Bool, false, not, ◌||◌, Option, none, some, List, [], ◌∷◌, Result, ok, err, ◌>>=◌, ◌>>◌,
  ok_or, bail_if, if◌then◌else◌, is_empty, and_then, or_else, unwrap_or,
}
use vaultwarden_eso_provider.Text.{Text, codes, text_eq, trim, starts_with, strip_prefix}
use vaultwarden_eso_provider.TreeMap.{text_ord, insert, contains_key}
use vaultwarden_eso_provider.Core.{SecretDocument, empty_document, is_blank}
use vaultwarden_eso_provider.Cipher.{
  DecryptedField, DecryptedLogin, DecryptedSshKey, DecryptedCipher, CipherError, blank_property,
  missing_property, no_extractable_fields, duplicate_document_field, unsupported_attachment,
}

unfoldable pub existing : Text → Option Text → Result CipherError Text
existing property value = ok_or (missing_property property) value

abbrev is_text : Text → String → Bool
is_text property literal = text_eq property (codes literal)

-- `name.as_deref() == Some(custom_name)`.
unfoldable pub name_is : Text → Option Text → Bool
name_is custom_name none = false
name_is custom_name (some name) = text_eq name custom_name

unfoldable pub is_named : Text → DecryptedField → Bool
is_named custom_name field = name_is custom_name field.name

-- `Iterator::filter`.
unfoldable pub filter {ℓ} : {A : Type ℓ} → (A → Bool) → List A → List A
filter p [] = []
filter p (a ∷ as') = let rest = filter p as' in if p a then a ∷ rest else rest

-- The first match, unless there is a second.
unfoldable pub single_match : Text → Text → List DecryptedField → Result CipherError Text
single_match property custom_name [] = err (missing_property property)
single_match property custom_name (field ∷ []) = ok_or (missing_property property) field.value
single_match property custom_name (field ∷ other ∷ rest) =
    err (duplicate_document_field custom_name)

unfoldable pub custom_name_of : Text → Text
custom_name_of property =
    unwrap_or property
      (or_else (strip_prefix property (codes "field.")) (strip_prefix property (codes "custom.")))

-- The match of `extract_property`, and the custom fields behind it, on a trimmed property.
unfoldable pub extract_trimmed : DecryptedCipher → Text → Result CipherError Text
extract_trimmed c property =
    if is_text property "name"
    then existing property c.name
    else if is_text property "notes"
    then existing property c.notes
    else if is_text property "username" || is_text property "login.username"
    then existing property (and_then c.login (λ login. login.username))
    else if is_text property "password" || is_text property "login.password"
    then existing property (and_then c.login (λ login. login.password))
    else if is_text property "totp" || is_text property "login.totp"
    then existing property (and_then c.login (λ login. login.totp))
    else if is_text property "privateKey"
        || is_text property "sshPrivateKey"
        || is_text property "sshKey.privateKey"
    then existing property (and_then c.ssh_key (λ ssh_key. ssh_key.private_key))
    else if is_text property "publicKey"
        || is_text property "sshPublicKey"
        || is_text property "sshKey.publicKey"
    then existing property (and_then c.ssh_key (λ ssh_key. ssh_key.public_key))
    else if is_text property "keyFingerprint" || is_text property "sshKey.keyFingerprint"
    then existing property (and_then c.ssh_key (λ ssh_key. ssh_key.key_fingerprint))
    else single_match property (custom_name_of property)
        (filter (is_named (custom_name_of property)) c.fields)

-- `DecryptedCipher::extract_property`.
unfoldable pub extract_property : DecryptedCipher → Text → Result CipherError Text
extract_property c raw =
    let property = trim raw in
    do
      bail_if (is_empty property) blank_property
      bail_if
          (starts_with property (codes "attachment.")
            || starts_with property (codes "attachments."))
          unsupported_attachment
      extract_trimmed c property

unfoldable pub insert_optional : SecretDocument → String → Option Text → SecretDocument
insert_optional document key none = document
insert_optional document key (some value) = record document {
  entries = insert (codes key) value document.entries;
}

unfoldable pub insert_login : SecretDocument → Option DecryptedLogin → SecretDocument
insert_login document none = document
insert_login document (some login) =
    let with_username = insert_optional document "username" login.username in
    let with_password = insert_optional with_username "password" login.password in
    insert_optional with_password "totp" login.totp

unfoldable pub insert_ssh_key : SecretDocument → Option DecryptedSshKey → SecretDocument
insert_ssh_key document none = document
insert_ssh_key document (some ssh_key) =
    let with_private = insert_optional document "privateKey" ssh_key.private_key in
    let with_public = insert_optional with_private "publicKey" ssh_key.public_key in
    insert_optional with_public "keyFingerprint" ssh_key.key_fingerprint

-- One round of the loop over the custom fields: a name or value that is absent, or a blank name,
-- passes the field over.
unfoldable pub insert_field :
    SecretDocument → Option Text → Option Text → Result CipherError SecretDocument
insert_field document none value = ok document
insert_field document (some name) none = ok document
insert_field document (some name) (some value) =
    if not (is_blank name)
    then (do
      bail_if (contains_key document.entries name) (duplicate_document_field name)
      ok (record document { entries = insert name value document.entries }))
    else ok document

unfoldable pub insert_fields :
    SecretDocument → List DecryptedField → Result CipherError SecretDocument
insert_fields document [] = ok document
insert_fields document (field ∷ fields) = do
  next ← insert_field document field.name field.value
  insert_fields next fields

-- The document before the custom fields.
unfoldable pub conventional : DecryptedCipher → SecretDocument
conventional c =
    insert_ssh_key (insert_login (insert_optional empty_document "notes" c.notes) c.login) c.ssh_key

-- `DecryptedCipher::to_secret_document`.
unfoldable pub to_secret_document : DecryptedCipher → Result CipherError SecretDocument
to_secret_document c = do
  document ← insert_fields (conventional c) c.fields
  bail_if (is_empty document.entries) (no_extractable_fields c.id)
  ok document
