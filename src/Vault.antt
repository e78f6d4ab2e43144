-- ===== src/Vault.antt =====
-- crates/bweso-bitwarden/src/api.rs: an item of a synced vault, found by identifier or by name, and
-- the document of its selected property.
pub mod ById
pub mod ByName
pub mod Disclosure
pub mod Resolution
use vaultwarden_eso_provider.Prelude.{
  Bool, true, false, not, ◌&&◌, Option, none, some, List, [], ◌∷◌, Result, ok, err, ◌>>=◌, ◌>>◌,
  map_err, ok_or, bail_if, if◌then◌else◌, is_some,
}
use vaultwarden_eso_provider.Text.{Text, codes, text_eq}
use vaultwarden_eso_provider.TreeMap.{text_ord, insert}
use vaultwarden_eso_provider.Core.{SecretDocument, single}
use vaultwarden_eso_provider.Primitives.{Primitives}
use vaultwarden_eso_provider.Crypto.{AuthenticatedSymmetricKey}
use vaultwarden_eso_provider.Cipher.{EncryptedCipher, DecryptedCipher, decrypt}
use vaultwarden_eso_provider.Cipher.Extraction.{name_is, extract_property, to_secret_document}
use vaultwarden_eso_provider.Errors.{
  ClientError, ApiError, cipher_not_found, ambiguous_cipher_name, unsupported_shared_item, cipher,
  api,
}
use vaultwarden_eso_provider.Selector.{Selector, CipherLookup, by_id, by_name, lookup_from_key}

pub record SyncResponse : Type 0 where
  pub ciphers : List EncryptedCipher

-- Not in the trash.
abbrev pub is_live : EncryptedCipher → Bool
is_live c = not (is_some c.deleted_date)

-- `find_cipher_by_id`: the first live item with the identifier.
unfoldable pub find_cipher_by_id : List EncryptedCipher → Text → Result ApiError EncryptedCipher
find_cipher_by_id [] id = err cipher_not_found
find_cipher_by_id (c ∷ ciphers) id =
    let rest = find_cipher_by_id ciphers id in if text_eq c.id id && is_live c then ok c else rest

-- The end of the scan by name.
unfoldable pub name_result : Option DecryptedCipher → Bool → Result ClientError DecryptedCipher
name_result (some found) has_shared_items = ok found
name_result none has_shared_items =
    err (api (if has_shared_items then unsupported_shared_item else cipher_not_found))

-- A further match after `found` makes the name ambiguous.
unfoldable pub match_name :
    Text → Option DecryptedCipher → DecryptedCipher → Result ClientError (Option DecryptedCipher)
match_name name found decrypted =
    if name_is name decrypted.name
    then (if is_some found then err (api ambiguous_cipher_name) else ok (some decrypted))
    else ok found

-- The document of one property holds its value under `value` and under its own name.
unfoldable pub property_document : Text → Text → SecretDocument
property_document property value =
    let document = single (codes "value") value in
    if not (text_eq property (codes "value"))
    then record document { entries = insert property value document.entries }
    else document

unfoldable pub selected_document : DecryptedCipher → Option Text → Result ClientError SecretDocument
selected_document item (some property) = do
  value ← map_err cipher (extract_property item property)
  ok (property_document property value)
selected_document item none = map_err cipher (to_secret_document item)

module _ (p : Primitives) (user_key : AuthenticatedSymmetricKey) where
  unfoldable pub resolve_synced_cipher_by_id :
      SyncResponse → Text → Result ClientError DecryptedCipher
  resolve_synced_cipher_by_id sync id = do
    c ← map_err api (find_cipher_by_id sync.ciphers id)
    bail_if (is_some c.organization_id) (api unsupported_shared_item)
    map_err cipher (decrypt p c user_key)

  -- The loop of `resolve_synced_cipher_by_name`, from its two variables.
  unfoldable pub scan_names :
      Text
      → Option DecryptedCipher
      → Bool
      → List EncryptedCipher
      → Result ClientError DecryptedCipher
  scan_names name name_match has_shared_items [] = name_result name_match has_shared_items
  scan_names name name_match has_shared_items (c ∷ ciphers) = elim (is_some c.deleted_date) [
    | true ↦ scan_names name name_match has_shared_items ciphers
    | false ↦ elim (is_some c.organization_id) [
      | true ↦ scan_names name name_match true ciphers
      | false ↦ map_err cipher (decrypt p c user_key) >>= λ decrypted.
          match_name name name_match decrypted >>= λ found.
          scan_names name found has_shared_items ciphers
    ]
  ]

  unfoldable pub resolve_synced_cipher_by_name :
      SyncResponse → Text → Result ClientError DecryptedCipher
  resolve_synced_cipher_by_name sync name = scan_names name none false sync.ciphers

  unfoldable pub resolve_lookup : SyncResponse → CipherLookup → Result ClientError DecryptedCipher
  resolve_lookup sync (by_id id) = resolve_synced_cipher_by_id sync id
  resolve_lookup sync (by_name name) = resolve_synced_cipher_by_name sync name

  unfoldable pub resolve_synced_cipher : SyncResponse → Text → Result ClientError DecryptedCipher
  resolve_synced_cipher sync key = do lookup ← lookup_from_key key; resolve_lookup sync lookup

  -- `resolve_with_cached_sync` behind the refresh of the cache.
  unfoldable pub resolve_from_sync : SyncResponse → Selector → Result ClientError SecretDocument
  resolve_from_sync sync selector = do
    item ← resolve_synced_cipher sync selector.key
    bail_if (is_some item.organization_id) (api unsupported_shared_item)
    selected_document item selector.property
