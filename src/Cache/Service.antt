-- ===== src/Cache/Service.antt =====
-- A resolve through the cache, end to end.
use vaultwarden_eso_provider.Prelude.{◌≡◌, some, ok}
use vaultwarden_eso_provider.Core.{SecretDocument}
use vaultwarden_eso_provider.Primitives.{Primitives}
use vaultwarden_eso_provider.Cipher.{DecryptedCipher}
use vaultwarden_eso_provider.Selector.{Selector, CipherLookup, lookup_from_key}
use vaultwarden_eso_provider.Vault.{selected_document}
use vaultwarden_eso_provider.Vault.Disclosure.{Discloses}
use vaultwarden_eso_provider.Cache.{
  CacheConfig, CachedVault, ClientState, Readings, Fetched, resolve_with_cached_sync,
}
use vaultwarden_eso_provider.Cache.Refresh.{IsServable}

-- The vault that a call leaves in the cache, which it may serve, and the item of that vault that the
-- document discloses.
pub record IsServed (config : CacheConfig) (p : Primitives) (t : Readings) (fetched : Fetched)
    (selector : Selector) (s : ClientState) (document : SecretDocument) : Type 0 where
  pub vault : CachedVault
  pub left : (resolve_with_cached_sync config p t fetched selector s).1.cache ≡ some vault
  pub servable : IsServable config t fetched s.cache vault
  pub lookup : CipherLookup
  pub item : DecryptedCipher
  pub named : lookup_from_key selector.key ≡ ok lookup
  pub disclosed : Discloses p vault.session.user_key vault.sync.ciphers lookup item
  pub selected : selected_document item selector.property ≡ ok document
