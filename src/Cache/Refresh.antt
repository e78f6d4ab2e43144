-- ===== src/Cache/Refresh.antt =====
-- Which vault a call of the refresh leaves to be served.
use vaultwarden_eso_provider.Prelude.{
  ℕ, ◌-◌, ◌≡◌, ◌≤◌, ◌<◌, ◌⊎◌, refl, ◌∙◌, true, Option, some, subst, arith, ok, err, inl, inr,
  Bool-cases, Option-cases, is_some_and, unwrap_or, ltb,
}
use vaultwarden_eso_provider.Errors.{ClientError, permits_stale_cache}
use vaultwarden_eso_provider.Api.{BitwardenSession}
use vaultwarden_eso_provider.Vault.{SyncResponse}
use vaultwarden_eso_provider.Cache.{
  CacheConfig, CachedVault, ClientState, Readings, Fetched, is_fresh_at,
  is_within_stale_if_error_at, can_defer_refresh_at, defer_refresh_until, new_cached_vault,
  saturating_add, max_duration, reuse_cached_sync_if_available, serve_stale_after_error,
  record_failure, store_refresh, refresh_locked, ensure_fresh_cached_sync, checked_add,
}
use vaultwarden_eso_provider.Cache.Failure.{contents, reuse-keeps}

module _ (config : CacheConfig) where
  -- The age of the vault is below TTL and stale window together.
  abbrev pub Within : CachedVault → ℕ → Type 0
  Within v now = now - v.fetched_at < saturating_add config.ttl config.stale_if_error

  fresh-Within :
      (v : CachedVault) (now : ℕ)
      → config.ttl ≤ max_duration
      → is_fresh_at v config.ttl now ≡ true
      → Within v now
  unfolding is_fresh_at
  fresh-Within v now small h = ground arith

  stale-Within :
      (v : CachedVault) (now : ℕ) → is_within_stale_if_error_at v config now ≡ true → Within v now
  unfolding is_within_stale_if_error_at
  stale-Within v now h = ground arith

  reuse-Within :
      (now : ℕ) (s : ClientState)
      → config.ttl ≤ max_duration
      → (reuse_cached_sync_if_available config now s).0 ≡ true
      → (v : CachedVault) × (s.cache ≡ some v) × Within v now
  unfolding reuse_cached_sync_if_available can_defer_refresh_at
  reuse-Within now s small h = elim (Option-cases s.cache) [
    | inl empty ↦ absurd (ground arith)
    | inr (v, e) ↦ (v, e, ground (arith, fresh-Within v now small, stale-Within v now))
  ]

  -- How a vault can be served, by a call whose fetch gives `fetched` and that finds `cache`: it is
  -- the vault of the session and the items that were fetched; or it has the session, the items, the
  -- instant of the fetch and the expiry of the vault in the cache, and its age is within the bound
  -- at one of the instants at which the call read the clock, the last of them only where the fetch
  -- failed with an error that permits stale data.
  abbrev pub IsServable : Readings → Fetched → Option CachedVault → CachedVault → Type 0
  IsServable t fetched cache v =
      ((session : BitwardenSession) × (sync : SyncResponse) × (fetched ≡ ok (session, sync))
        × (v ≡ new_cached_vault session sync t.fetched_at))
      ⊎ ((found : CachedVault) × (cache ≡ some found)
          × (contents v ≡ contents found)
          × (Within v t.reuse
              ⊎ (Within v t.recheck
                  ⊎ (Within v t.stale_at
                      × (error : ClientError) × (fetched ≡ err error)
                      × (permits_stale_cache error ≡ true)))))

  serve-Within :
      (error : ClientError) (now : ℕ) (s : ClientState)
      → (serve_stale_after_error config error now s).0 ≡ true
      → (v : CachedVault) × (found : CachedVault) × ((serve_stale_after_error config error now
            s).1.cache
          ≡ some v)
        × (s.cache ≡ some found)
        × (contents v ≡ contents found)
        × Within v now
        × (permits_stale_cache error ≡ true)
  unfolding serve_stale_after_error defer_refresh_until
  serve-Within error now s h = elim (Option-cases s.cache) [
    | inl empty ↦ absurd (ground arith)
    | inr (v, e) ↦ (
      record v {
        refresh_retry_after = some (unwrap_or now (checked_add now config.refresh_retry_interval));
      },
      v,
      ground arith,
      e,
      refl,
      ground (arith, stale-Within v now),
      ground arith,
    )
  ]

  store-IsServable :
      (t : Readings) (fetched : Fetched) (s : ClientState)
      → (store_refresh config t fetched s).0 ≡ ok tt
      → (v : CachedVault) × ((store_refresh config t fetched s).1.cache ≡ some v)
        × IsServable t fetched s.cache v
  unfolding store_refresh record_failure
  store-IsServable t (ok (session, sync)) s h =
      (new_cached_vault session sync t.fetched_at, refl, inl (session, sync, refl, refl))
  store-IsServable t (err error) s h =
      elim (Bool-cases
        (serve_stale_after_error config error t.stale_at (record_failure config t.failed_at s)).0) [
          | inr refused ↦ absurd (ground arith)
          | inl served ↦
              let (v, found, e, kept, same, within, permitted) =
                serve-Within error t.stale_at (record_failure config t.failed_at s) served in
              (v, rw served e, inr (found, kept, same, inr (inr (within, error, refl, permitted))))
        ]

  locked-IsServable :
      (t : Readings) (fetched : Fetched) (s : ClientState)
      → config.ttl ≤ max_duration
      → (refresh_locked config t fetched s).0 ≡ ok tt
      → (v : CachedVault) × ((refresh_locked config t fetched s).1.cache ≡ some v)
        × IsServable t fetched s.cache v
  unfolding refresh_locked
  locked-IsServable t fetched s small h =
      let r = reuse_cached_sync_if_available config t.recheck s in
      let kept = reuse-keeps config t.recheck s in
      elim (Bool-cases r.0) [
        | inl reused ↦
            let (v, e, within) = reuse-Within t.recheck s small reused in
            (v, rw reused (kept ∙ e), inr (v, e, refl, inr (inl within)))
        | inr stale ↦
            elim (Bool-cases (is_some_and r.1.retry_after (λ deadline. ltb t.throttle deadline))) [
              | inl early ↦ absurd (ground arith)
              | inr late ↦
                  let (v, e, servable) = store-IsServable t fetched r.1 (ground arith) in
                  (v, rw (stale, late) e, subst (λ o. IsServable t fetched o v) kept servable)
            ]
      ]

  -- With a TTL that a `Duration` holds, a call that succeeds leaves a vault in the cache: the one of
  -- the session and the items that its fetch gave, or the one that it found there, with its session,
  -- items, instant of the fetch and expiry, whose age was below TTL and stale window together at an
  -- instant at which the call read the clock; behind a fetch, only where that failed with an error
  -- that permits stale data.
  pub ensure_fresh_cached_sync-IsServable :
      (t : Readings) (fetched : Fetched) (s : ClientState)
      → config.ttl ≤ max_duration
      → (ensure_fresh_cached_sync config t fetched s).0 ≡ ok tt
      → (v : CachedVault) × ((ensure_fresh_cached_sync config t fetched s).1.cache ≡ some v)
        × IsServable t fetched s.cache v
  unfolding ensure_fresh_cached_sync
  ensure_fresh_cached_sync-IsServable t fetched s small h =
      let r = reuse_cached_sync_if_available config t.reuse s in
      let kept = reuse-keeps config t.reuse s in
      elim (Bool-cases r.0) [
        | inl reused ↦
            let (v, e, within) = reuse-Within t.reuse s small reused in
            (v, rw reused (kept ∙ e), inr (v, e, refl, inl within))
        | inr stale ↦
            let (v, e, servable) = locked-IsServable t fetched r.1 small (ground arith) in
            (v, rw stale e, subst (λ o. IsServable t fetched o v) kept servable)
      ]
