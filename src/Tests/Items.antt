-- ===== src/Tests/Items.antt =====
-- Witnesses on items and the vault.
use vaultwarden_eso_provider.Text.{
  split_once, split, strip_prefix, text_eq, text_cmp, trim, starts_with, is_whitespace, Text, codes,
}
use vaultwarden_eso_provider.Text.Splitting.{join}
use vaultwarden_eso_provider.Crypto.RoundTrip.{serialize}
use vaultwarden_eso_provider.TreeMap.{insert, get, contains_key, text_ord}
use vaultwarden_eso_provider.Utf8.{from_utf8, as_bytes}
use vaultwarden_eso_provider.Core.{single, is_blank, require_non_empty, SecretDocument, RemoteRef}
use vaultwarden_eso_provider.Crypto.{
  parse, parse_encryption_type, three_parts, as_u8, decode_base64, decode_parts, decrypt_bytes,
  decrypt_utf8, key_from_slice, parse_u8, verify_mac,
}
use vaultwarden_eso_provider.Cipher.{
  decrypt, decryption_key, decrypt_optional, decrypt_login, decrypt_field, traverse,
  decrypt_ssh_key, DecryptedCipher, CipherError, no_extractable_fields, duplicate_document_field,
}
use vaultwarden_eso_provider.Cipher.Extraction.{
  name_is, extract_property, extract_trimmed, existing, filter, to_secret_document, insert_field,
  insert_fields, insert_optional, insert_login, insert_ssh_key, conventional,
}
use vaultwarden_eso_provider.Selector.{
  lookup_from_key, lookup_prefixed, Selector, selector_from, CipherLookup,
}
use vaultwarden_eso_provider.Vault.{
  resolve_from_sync, resolve_synced_cipher, resolve_lookup, resolve_synced_cipher_by_name,
  scan_names, name_result, match_name, selected_document, property_document, is_live,
}
use vaultwarden_eso_provider.Tests.Samples.{
  shift_up, shift_down, repeat, toy, user_key, vault, password_of_database,
}
use vaultwarden_eso_provider.Prelude.{◌≡◌, ◌≢◌, ◌↔◌, refl, some, none, List, [], ◌∷◌, ok, err, any}
use vaultwarden_eso_provider.Cipher.Pairs.{lookup}
use vaultwarden_eso_provider.Cipher.Document.{
  get-to_secret_document, to_secret_document_cases, IsUnambiguous, pairs,
}
use vaultwarden_eso_provider.Vault.Disclosure.{Discloses}
use vaultwarden_eso_provider.Vault.Resolution.{
  resolve_from_sync-Discloses, resolve_from_sync-filter_live,
}
use vaultwarden_eso_provider.Vault.ByName.{
  resolve_synced_cipher_by_name_cases, decrypt_personal, named, decide, is_shared, Fails,
}
use vaultwarden_eso_provider.Selector.Validation.{NoVersion, PropertyOf, Names, selector_from_iff}

abbrev pub document : SecretDocument
document = property_document (codes "password") (codes "pw")

pub resolved : resolve_from_sync toy user_key vault password_of_database ≡ ok document
unfolding split_once split strip_prefix text_eq text_cmp trim starts_with is_whitespace join
    serialize insert get contains_key from_utf8 as_bytes single is_blank require_non_empty parse
    parse_encryption_type three_parts as_u8 decode_base64 decode_parts decrypt_bytes decrypt_utf8
    key_from_slice parse_u8 verify_mac decrypt decryption_key decrypt_optional decrypt_login
    decrypt_field traverse name_is extract_property extract_trimmed existing decrypt_ssh_key
    lookup_from_key lookup_prefixed resolve_from_sync resolve_synced_cipher resolve_lookup
    resolve_synced_cipher_by_name scan_names name_result match_name selected_document
    property_document shift_up shift_down repeat
resolved = refl

resolve_from_sync-Discloses_example :
    (l : CipherLookup) × (item : DecryptedCipher) × (lookup_from_key password_of_database.key
      ≡ ok l)
    × Discloses toy user_key vault.ciphers l item
    × (selected_document item password_of_database.property ≡ ok document)
resolve_from_sync-Discloses_example =
    resolve_from_sync-Discloses toy user_key vault password_of_database document resolved

resolve_from_sync-filter_live_example :
    resolve_from_sync toy user_key
      (record { ciphers = filter is_live vault.ciphers })
      password_of_database
    ≡ resolve_from_sync toy user_key vault password_of_database
resolve_from_sync-filter_live_example =
    resolve_from_sync-filter_live toy user_key vault password_of_database

resolve_synced_cipher_by_name_cases_example :
    ((items : List DecryptedCipher)
      → decrypt_personal toy user_key (codes "db") vault.ciphers ≡ ok items
      → resolve_synced_cipher_by_name toy user_key vault (codes "db")
        ≡ decide (named toy user_key (codes "db") items) (any is_shared vault.ciphers))
    × ((e : CipherError)
        → decrypt_personal toy user_key (codes "db") vault.ciphers ≡ err e
        → Fails toy user_key
            (codes "db")
            (resolve_synced_cipher_by_name toy user_key vault (codes "db"))
            e)
resolve_synced_cipher_by_name_cases_example =
    resolve_synced_cipher_by_name_cases toy user_key (codes "db") vault

abbrev reference : RemoteRef
reference = record { key = codes " id:7 "; property = none; version = none }

abbrev item_seven : Selector
item_seven = record { key = codes "id:7"; property = none }

selector_from_iff_example : (selector_from reference ≡ ok item_seven) ↔ (
    NoVersion reference.version
    × PropertyOf reference.property item_seven.property
    × (item_seven.key ≡ trim reference.key)
    × (l : CipherLookup) × Names item_seven.key l)
selector_from_iff_example = selector_from_iff reference item_seven

-- An item with a password and one custom field.
abbrev item : DecryptedCipher
item = record {
  id = codes "7";
  cipher_type = 1;
  organization_id = none;
  name = some (codes "db");
  notes = none;
  fields = record { name = some (codes "host"); value = some (codes "h"); field_type = none } ∷ [];
  login = some (record { username = none; password = some (codes "pw"); totp = none });
  ssh_key = none;
}

abbrev whole_item : SecretDocument
whole_item = record {
  entries = (codes "host", codes "h") ∷ (codes "password", codes "pw") ∷ [];
  metadata = [];
}

whole : to_secret_document item ≡ ok whole_item
unfolding to_secret_document conventional insert_optional insert_login insert_ssh_key insert_fields
    insert_field insert contains_key get text_cmp is_blank trim is_whitespace
whole = refl

get-to_secret_document_example :
    IsUnambiguous item
    × (whole_item.metadata ≡ [])
    × (whole_item.entries ≢ [])
    × ((k : Text) → get whole_item.entries k ≡ lookup (pairs item) k)
get-to_secret_document_example = get-to_secret_document item whole_item whole

to_secret_document_cases_example :
    (IsUnambiguous item → pairs item ≢ [] → (d : SecretDocument) × (to_secret_document item ≡ ok d))
    × (IsUnambiguous item
        → pairs item ≡ []
        → to_secret_document item ≡ err (no_extractable_fields item.id))
    × (¬ IsUnambiguous item
        → (name : Text) × (to_secret_document item ≡ err (duplicate_document_field name)))
to_secret_document_cases_example = to_secret_document_cases item
