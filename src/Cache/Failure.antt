-- ===== src/Cache/Failure.antt =====
-- What a failed refresh leaves behind.
use vaultwarden_eso_provider.Prelude.{
  ℕ, ◌≡◌, ◌⊎◌, true, Option, some, arith, ok, err, option_map, inl, inr, Bool-cases, Option-cases,
}
use vaultwarden_eso_provider.Errors.{ClientError}
use vaultwarden_eso_provider.Api.{BitwardenSession}
use vaultwarden_eso_provider.Vault.{SyncResponse}
use vaultwarden_eso_provider.Cache.{
  CacheConfig, CachedVault, ClientState, Readings, is_fresh_at, is_within_stale_if_error_at,
  can_defer_refresh_at, defer_refresh_until, reuse_cached_sync_if_available,
  serve_stale_after_error, record_failure, store_refresh, refresh_locked, ensure_fresh_cached_sync,
}

-- The vault without the time of its next refresh.
abbrev pub contents : CachedVault → BitwardenSession × SyncResponse × ℕ × Option ℕ
contents v = (v.session, v.sync, v.fetched_at, v.expires_at)

abbrev pub cached_contents : ClientState → Option (BitwardenSession × SyncResponse × ℕ × Option ℕ)
cached_contents s = option_map contents s.cache

module _ (config : CacheConfig) where
  pub reuse-keeps :
      (now : ℕ) (s : ClientState) → (reuse_cached_sync_if_available config now s).1.cache ≡ s.cache
  unfolding reuse_cached_sync_if_available
  reuse-keeps now s = elim (Option-cases s.cache) [
    | inl empty ↦ ground arith
    | inr (v, e) ↦ ground arith
  ]

  serve-keeps :
      (error : ClientError) (now : ℕ) (s : ClientState)
      → cached_contents (serve_stale_after_error config error now s).1 ≡ cached_contents s
  unfolding serve_stale_after_error defer_refresh_until
  serve-keeps error now s = elim (Option-cases s.cache) [
    | inl empty ↦ ground arith
    | inr (v, e) ↦ ground arith
  ]

  store-keeps :
      (t : Readings) (error : ClientError) (s : ClientState)
      → cached_contents (store_refresh config t (err error) s).1 ≡ cached_contents s
  unfolding store_refresh record_failure
  store-keeps t error s =
      ground (arith, serve-keeps error t.stale_at (record_failure config t.failed_at s))

  locked-keeps :
      (t : Readings) (error : ClientError) (s : ClientState)
      → cached_contents (refresh_locked config t (err error) s).1 ≡ cached_contents s
  unfolding refresh_locked
  locked-keeps t error s = ground (
    arith,
    reuse-keeps t.recheck s,
    store-keeps t error (reuse_cached_sync_if_available config t.recheck s).1,
  )

  -- A call whose fetch fails never replaces nor drops what was fetched before: the session, the
  -- items, the instant of the fetch and the expiry of the token stay.
  pub ensure_fresh_cached_sync-keeps :
      (t : Readings) (error : ClientError) (s : ClientState)
      → cached_contents (ensure_fresh_cached_sync config t (err error) s).1 ≡ cached_contents s
  unfolding ensure_fresh_cached_sync
  ensure_fresh_cached_sync-keeps t error s = ground (
    arith,
    reuse-keeps t.reuse s,
    locked-keeps t error (reuse_cached_sync_if_available config t.reuse s).1,
  )

  reuse-fresh :
      (now : ℕ) (s : ClientState)
      → config.stale_if_error ≡ 0
      → (reuse_cached_sync_if_available config now s).0 ≡ true
      → (v : CachedVault) × ((reuse_cached_sync_if_available config now s).1.cache ≡ some v)
        × (is_fresh_at v config.ttl now ≡ true)
  unfolding reuse_cached_sync_if_available can_defer_refresh_at is_within_stale_if_error_at
  reuse-fresh now s closed h = elim (Option-cases s.cache) [
    | inl empty ↦ absurd (ground arith)
    | inr (v, e) ↦ (v, ground arith, ground arith)
  ]

  store-closed :
      (t : Readings) (error : ClientError) (s : ClientState)
      → config.stale_if_error ≡ 0
      → (store_refresh config t (err error) s).0 ≡ err error
  unfolding store_refresh serve_stale_after_error is_within_stale_if_error_at record_failure
  store-closed t error s closed = elim (Option-cases s.cache) [
    | inl empty ↦ ground arith
    | inr (v, e) ↦ ground arith
  ]

  locked-fresh :
      (t : Readings) (error : ClientError) (s : ClientState)
      → config.stale_if_error ≡ 0
      → (refresh_locked config t (err error) s).0 ≡ ok tt
      → (v : CachedVault) × ((refresh_locked config t (err error) s).1.cache ≡ some v)
        × (is_fresh_at v config.ttl t.recheck ≡ true)
  unfolding refresh_locked
  locked-fresh t error s closed h =
      let r = reuse_cached_sync_if_available config t.recheck s in
      elim (Bool-cases r.0) [
        | inl reused ↦
            let (v, e, fresh) = reuse-fresh t.recheck s closed reused in (v, rw reused e, fresh)
        | inr stale ↦ absurd (ground (arith, store-closed t error r.1 closed))
      ]

  -- Without a stale window the cache fails closed: a call that succeeds although its fetch failed
  -- leaves a vault that is fresh at an instant at which the call read the clock.
  pub ensure_fresh_cached_sync-closed :
      (t : Readings) (error : ClientError) (s : ClientState)
      → config.stale_if_error ≡ 0
      → (ensure_fresh_cached_sync config t (err error) s).0 ≡ ok tt
      → (v : CachedVault) × ((ensure_fresh_cached_sync config t (err error) s).1.cache ≡ some v)
        × ((is_fresh_at v config.ttl t.reuse ≡ true) ⊎ (is_fresh_at v config.ttl t.recheck ≡ true))
  unfolding ensure_fresh_cached_sync
  ensure_fresh_cached_sync-closed t error s closed h =
      let r = reuse_cached_sync_if_available config t.reuse s in
      elim (Bool-cases r.0) [
        | inl reused ↦
            let (v, e, fresh) = reuse-fresh t.reuse s closed reused in (v, rw reused e, inl fresh)
        | inr stale ↦
            let (v, e, fresh) = locked-fresh t error r.1 closed (ground arith) in
            (v, rw stale e, inr fresh)
      ]
