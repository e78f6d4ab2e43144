-- ===== src/Vault/Resolution.antt =====
-- What a resolved document discloses: one live personal item, the one that the selector names.
use vaultwarden_eso_provider.Prelude.{
  ◌≡◌, refl, sym, ◌∙◌, Bool, true, false, ◌||◌, Option, none, some, List, [], ◌∷◌, arith, ok, ◌>>=◌,
  ◌>>◌, >>=-eq-ok, map_err, bail_if, is_some, Bool-cases, inl, inr, if◌then◌else◌,
}
use vaultwarden_eso_provider.Text.{Text, codes, text_eq}
use vaultwarden_eso_provider.Text.Laws.{text_eq_iff, text_cmp_iff}
use vaultwarden_eso_provider.TreeMap.{text_ord, get, insert, get-insert}
use vaultwarden_eso_provider.Core.{SecretDocument, single}
use vaultwarden_eso_provider.Primitives.{Primitives}
use vaultwarden_eso_provider.Crypto.{AuthenticatedSymmetricKey}
use vaultwarden_eso_provider.Cipher.{EncryptedCipher, DecryptedCipher, decrypt}
use vaultwarden_eso_provider.Cipher.Extraction.{filter}
use vaultwarden_eso_provider.Errors.{cipher, api, unsupported_shared_item}
use vaultwarden_eso_provider.Selector.{Selector, CipherLookup, by_id, by_name, lookup_from_key}
use vaultwarden_eso_provider.Vault.{
  SyncResponse, is_live, match_name, scan_names, resolve_synced_cipher_by_id,
  resolve_synced_cipher_by_name, resolve_lookup, resolve_synced_cipher, property_document,
  selected_document, resolve_from_sync,
}
use vaultwarden_eso_provider.Vault.ById.{find_cipher_by_id-filter}
use vaultwarden_eso_provider.Vault.ByName.{scan-deleted, scan-shared, scan-personal}
use vaultwarden_eso_provider.Vault.Disclosure.{Discloses, lookup-Discloses}

module _ (p : Primitives) (key : AuthenticatedSymmetricKey) where
  -- A document that is resolved is the selected document of one item of the vault: it is not in the
  -- trash, belongs to no organization, decrypts under the user key, and has the identifier, or the
  -- decrypted name, that the selector's key names.
  pub resolve_from_sync-Discloses :
      (sync : SyncResponse) (selector : Selector) (document : SecretDocument)
      → resolve_from_sync p key sync selector ≡ ok document
      → (l : CipherLookup) × (item : DecryptedCipher) × (lookup_from_key selector.key ≡ ok l)
        × Discloses p key sync.ciphers l item
        × (selected_document item selector.property ≡ ok document)
  unfolding resolve_from_sync resolve_synced_cipher
  resolve_from_sync-Discloses sync selector document h =
      let (item, e, h₁) = >>=-eq-ok (resolve_synced_cipher p key sync selector.key) _ h in
      let (_, _, h₂) =
        >>=-eq-ok (bail_if (is_some item.organization_id) (api unsupported_shared_item)) _ h₁ in
      let (l, e₁, h₃) = >>=-eq-ok (lookup_from_key selector.key) _ e in
      (l, item, e₁, lookup-Discloses p key sync l item h₃, h₂)

  scan-filter_live :
      (name : Text) (found : Option DecryptedCipher) (shared : Bool)
      (ciphers : List EncryptedCipher)
      → scan_names p key name found shared (filter is_live ciphers)
        ≡ scan_names p key name found shared ciphers
  unfolding filter
  scan-filter_live name found shared [] = refl
  scan-filter_live name found shared (c ∷ ciphers) = elim (Bool-cases (is_some c.deleted_date)) [
    | inl deleted ↦
        rw (scan-deleted p key name found shared c ciphers deleted, deleted)
          (scan-filter_live name found shared ciphers)
    | inr live ↦ rw live (elim (Bool-cases (is_some c.organization_id)) [
      | inl other ↦
          scan-shared p key name found shared c (filter is_live ciphers) live other
          ∙ scan-filter_live name found true ciphers
          ∙ sym (scan-shared p key name found shared c ciphers live other)
      | inr personal ↦
          scan-personal p key name found shared c (filter is_live ciphers) live personal
          ∙ (λ i. map_err cipher (decrypt p c key) >>= λ d.
              match_name name found d >>= λ f. scan-filter_live name f shared ciphers i)
          ∙ sym (scan-personal p key name found shared c ciphers live personal)
    ])
  ]

  lookup-filter_live :
      (sync : SyncResponse) (l : CipherLookup)
      → resolve_lookup p key (record { ciphers = filter is_live sync.ciphers }) l
        ≡ resolve_lookup p key sync l
  unfolding resolve_lookup resolve_synced_cipher_by_name resolve_synced_cipher_by_id
  lookup-filter_live sync (by_id id) = rw (find_cipher_by_id-filter sync.ciphers id)
  lookup-filter_live sync (by_name name) = scan-filter_live name none false sync.ciphers

  -- What is in the trash plays no part: resolving from the vault without the deleted items gives
  -- the same result, errors included, for every selector.
  pub resolve_from_sync-filter_live :
      (sync : SyncResponse) (selector : Selector)
      → resolve_from_sync p key (record { ciphers = filter is_live sync.ciphers }) selector
        ≡ resolve_from_sync p key sync selector
  unfolding resolve_from_sync resolve_synced_cipher
  resolve_from_sync-filter_live sync selector = λ i.
      (lookup_from_key selector.key >>= λ l. lookup-filter_live sync l i) >>= λ item.
      bail_if (is_some item.organization_id) (api unsupported_shared_item)
      >> selected_document item selector.property

-- The document of a property holds its value under `value` and under the property, and nothing else.
pub get-property_document :
    (property v k : Text)
    → get (property_document property v).entries k
      ≡ (if text_eq k (codes "value") || text_eq k property then some v else none)
unfolding property_document single get
get-property_document property v k = ground (
  arith,
  get-insert property k v (insert (codes "value") v []),
  get-insert (codes "value") k v [],
  text_cmp_iff k property,
  text_cmp_iff k (codes "value"),
  text_eq_iff k property,
  text_eq_iff k (codes "value"),
  text_eq_iff property (codes "value"),
)
