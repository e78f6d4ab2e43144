-- ===== src/Cache/Freshness.antt =====
-- How long a fetched vault is fresh.
use vaultwarden_eso_provider.Prelude.{
  ℕ, ◌+◌, ◌-◌, ◌≡◌, ◌≤◌, ◌<◌, ◌↔◌, true, Option, none, some, arith,
}
use vaultwarden_eso_provider.Api.{BitwardenSession}
use vaultwarden_eso_provider.Vault.{SyncResponse}
use vaultwarden_eso_provider.Cache.{
  CachedVault, new_cached_vault, from_secs, max_instant, is_fresh_at, token_is_current,
}

token_is_current-antitone :
    (expires_at : Option ℕ) (earlier now : ℕ)
    → earlier ≤ now
    → token_is_current expires_at now ≡ true
    → token_is_current expires_at earlier ≡ true
unfolding token_is_current
token_is_current-antitone none earlier now h k = k
token_is_current-antitone (some e) earlier now h k = ground arith

-- A vault that is fresh at some instant was fresh at every earlier one.
pub is_fresh_at-antitone :
    (v : CachedVault) (ttl earlier now : ℕ)
    → earlier ≤ now
    → is_fresh_at v ttl now ≡ true
    → is_fresh_at v ttl earlier ≡ true
unfolding is_fresh_at
is_fresh_at-antitone v ttl earlier now h k =
    ground (arith, token_is_current-antitone v.expires_at earlier now h)

-- A vault fetched with a token that lives for `seconds`, within the range of the clock, is fresh
-- exactly while the TTL, which must not be zero, has not passed since the fetch, and more than 30
-- seconds of the token's life are left.
pub is_fresh_at-new_iff :
    (session : BitwardenSession) (sync : SyncResponse) (fetched_at ttl now seconds : ℕ)
    → session.expires_in ≡ some seconds
    → fetched_at + from_secs seconds < max_instant
    → (is_fresh_at (new_cached_vault session sync fetched_at) ttl now ≡ true)
      ↔ ((now - fetched_at < ttl) × (now + from_secs 30 < fetched_at + from_secs seconds))
unfolding is_fresh_at new_cached_vault token_is_current
is_fresh_at-new_iff session sync fetched_at ttl now seconds h range = rw h (ground arith)
