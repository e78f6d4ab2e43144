-- ===== src/Tests/Cache.antt =====
-- Witnesses on the cache.
use vaultwarden_eso_provider.Prelude.{
  ◌≡◌, ◌⊎◌, ◌↔◌, ◌||◌, refl, true, false, some, none, [], err, arith,
}
use vaultwarden_eso_provider.Errors.{
  api, http, http_status, refresh_throttled, permits_stale_cache, api_permits_stale_cache,
}
use vaultwarden_eso_provider.Api.{BitwardenSession}
use vaultwarden_eso_provider.Cache.{
  CacheConfig, CachedVault, ClientState, Readings, Fetched, from_secs, is_fresh_at,
  token_is_current, is_within_stale_if_error_at, can_defer_refresh_at, ensure_fresh_cached_sync,
  refresh_locked, store_refresh, reuse_vault, reuse_cached_sync_if_available, serve_stale,
  serve_stale_after_error, record_failure,
}
use vaultwarden_eso_provider.Cache.Counters.{CacheMetricState}
use vaultwarden_eso_provider.Cache.Refresh.{IsServable, ensure_fresh_cached_sync-IsServable}
use vaultwarden_eso_provider.Cache.Failure.{
  cached_contents, ensure_fresh_cached_sync-keeps, ensure_fresh_cached_sync-closed,
}
use vaultwarden_eso_provider.Cache.Refusal.{
  IsThrottled, IsOpen, IsFinal, may_reuse, failed_state, ensure_fresh_cached_sync_iff,
  ensure_fresh_cached_sync-refused,
}
use vaultwarden_eso_provider.Tests.Samples.{user_key, vault}

abbrev pub config : CacheConfig
config = record {
  ttl = from_secs 60;
  stale_if_error = from_secs 300;
  refresh_retry_interval = from_secs 10;
}

abbrev no_stale : CacheConfig
no_stale = record config { stale_if_error = 0 }

abbrev pub session : BitwardenSession
session = record { access_token = []; expires_in = some 3600; token_type = []; user_key = user_key }

abbrev cached : CachedVault
cached = record {
  session = session;
  sync = vault;
  fetched_at = from_secs 100;
  expires_at = some (from_secs 3700);
  refresh_retry_after = none;
}

abbrev pub counters : CacheMetricState
counters = record {
  cache_hits = 0;
  refresh_successes = 1;
  refresh_failures = 0;
  stale_serves = 0;
  last_success_unix_seconds = 1;
}

abbrev state : ClientState
state = record { cache = some cached; retry_after = none; metrics = counters }

-- A call within the TTL, and one past it.
abbrev pub early : Readings
early = record {
  reuse = from_secs 120;
  recheck = from_secs 120;
  throttle = from_secs 120;
  fetched_at = from_secs 121;
  unix_now = 2;
  failed_at = from_secs 121;
  stale_at = from_secs 121;
}

abbrev late : Readings
late = record early {
  reuse = from_secs 200;
  recheck = from_secs 200;
  throttle = from_secs 200;
  failed_at = from_secs 201;
  stale_at = from_secs 201;
}

-- A login that the server refuses.
abbrev refused_login : Fetched
refused_login = err (api (http_status "token" 401))

ensure_fresh_cached_sync-IsServable_example :
    (v : CachedVault) × ((ensure_fresh_cached_sync config late (err (api http)) state).1.cache
      ≡ some v)
    × IsServable config late (err (api http)) state.cache v
unfolding ensure_fresh_cached_sync refresh_locked store_refresh reuse_vault
    reuse_cached_sync_if_available serve_stale serve_stale_after_error is_fresh_at token_is_current
    is_within_stale_if_error_at can_defer_refresh_at permits_stale_cache api_permits_stale_cache
    record_failure
ensure_fresh_cached_sync-IsServable_example =
    ensure_fresh_cached_sync-IsServable config late (err (api http)) state (omega arith) refl

ensure_fresh_cached_sync_iff_example :
    ((ensure_fresh_cached_sync config late refused_login state).0
      ≡ err (api (http_status "token" 401)))
    ↔ (((may_reuse config state.cache late.reuse || may_reuse config state.cache late.recheck)
          ≡ false)
        × ((IsThrottled late state × (api (http_status "token" 401) ≡ api refresh_throttled))
            ⊎ (IsOpen late state
                × (refused_login ≡ err (api (http_status "token" 401)))
                × IsFinal config late state (api (http_status "token" 401)))))
ensure_fresh_cached_sync_iff_example =
    ensure_fresh_cached_sync_iff config late refused_login state (api (http_status "token" 401))

ensure_fresh_cached_sync-keeps_example :
    cached_contents (ensure_fresh_cached_sync config late (err (api http)) state).1
    ≡ cached_contents state
ensure_fresh_cached_sync-keeps_example = ensure_fresh_cached_sync-keeps config late (api http) state

ensure_fresh_cached_sync-refused_example :
    (IsThrottled late state
      × ((ensure_fresh_cached_sync config late refused_login state).1 ≡ state))
    ⊎ (IsOpen late state
        × ((ensure_fresh_cached_sync config late refused_login state).1
            ≡ failed_state config late state))
unfolding ensure_fresh_cached_sync refresh_locked store_refresh reuse_vault
    reuse_cached_sync_if_available serve_stale serve_stale_after_error is_fresh_at token_is_current
    is_within_stale_if_error_at can_defer_refresh_at permits_stale_cache api_permits_stale_cache
    record_failure
ensure_fresh_cached_sync-refused_example =
    ensure_fresh_cached_sync-refused config late refused_login state (api (http_status "token" 401))
      refl

ensure_fresh_cached_sync-closed_example :
    (v : CachedVault) × ((ensure_fresh_cached_sync no_stale early (err (api http)) state).1.cache
      ≡ some v)
    × ((is_fresh_at v no_stale.ttl early.reuse ≡ true)
        ⊎ (is_fresh_at v no_stale.ttl early.recheck ≡ true))
unfolding ensure_fresh_cached_sync reuse_vault reuse_cached_sync_if_available is_fresh_at
    token_is_current
ensure_fresh_cached_sync-closed_example =
    ensure_fresh_cached_sync-closed no_stale early (api http) state refl refl
