-- ===== src/Cache.antt =====
-- The sync cache of crates/bweso-bitwarden/src/api.rs: `CachedVault`, its freshness, and the refresh.
-- Instants and durations are counted in nanoseconds; an instant counts from the clock's origin.
pub mod Counters
pub mod Failure
pub mod Freshness
pub mod Refresh
pub mod Refusal
pub mod Service
pub mod Tasks
use vaultwarden_eso_provider.Cache.Counters.{CacheMetricState, increment, CacheMetrics, snapshot}
use vaultwarden_eso_provider.Prelude.{
  ℕ, ◌+◌, ◌-◌, ◌*◌, ◌%◌, ◌^◌, min, Bool, true, false, not, ◌&&◌, ◌||◌, Option, none, some, Result,
  ok, err, ◌>>=◌, ok_or, ◌>>◌, and_then, is_some_and, unwrap_or, ltb, leb, ◌==◌, if◌then◌else◌,
  option_map,
}
use vaultwarden_eso_provider.Core.{SecretDocument}
use vaultwarden_eso_provider.Primitives.{Primitives}
use vaultwarden_eso_provider.Errors.{
  ClientError, api, refresh_throttled, missing_cached_sync, permits_stale_cache,
}
use vaultwarden_eso_provider.Selector.{Selector}
use vaultwarden_eso_provider.Api.{BitwardenSession}
use vaultwarden_eso_provider.Vault.{SyncResponse, resolve_from_sync}

abbrev pub from_secs : ℕ → ℕ
from_secs seconds = seconds * 1_000_000_000

abbrev pub max_duration : ℕ
max_duration = from_secs (2 ^ 64) - 1

abbrev pub max_instant : ℕ
max_instant = from_secs (2 ^ 63)

-- `Instant::checked_add`, `Instant::checked_sub` (before the origin no instant is read, so that a
-- comparison with one there fails as with none), `Duration::saturating_add`.
abbrev pub checked_add : ℕ → ℕ → Option ℕ
checked_add at' duration = if ltb (at' + duration) max_instant then some (at' + duration) else none

abbrev pub checked_sub : ℕ → ℕ → Option ℕ
checked_sub at' duration = if leb duration at' then some (at' - duration) else none

abbrev pub saturating_add : ℕ → ℕ → ℕ
saturating_add a b = min (a + b) max_duration

abbrev pub token_expiry_refresh_skew : ℕ
token_expiry_refresh_skew = from_secs 30

pub record CacheConfig : Type 0 where
  pub ttl : ℕ
  pub stale_if_error : ℕ
  pub refresh_retry_interval : ℕ

pub record CachedVault : Type 0 where
  pub session : BitwardenSession
  pub sync : SyncResponse
  pub fetched_at : ℕ
  pub expires_at : Option ℕ
  pub refresh_retry_after : Option ℕ

-- `CachedVault::new`.
unfoldable pub new_cached_vault : BitwardenSession → SyncResponse → ℕ → CachedVault
new_cached_vault session sync fetched_at = record {
  session = session;
  sync = sync;
  fetched_at = fetched_at;
  expires_at = and_then session.expires_in (λ seconds. checked_add fetched_at (from_secs seconds));
  refresh_retry_after = none;
}

-- Whether the token is outside the margin before its expiry.
unfoldable pub token_is_current : Option ℕ → ℕ → Bool
token_is_current none now = true
token_is_current (some expires_at) now =
    is_some_and (checked_sub expires_at token_expiry_refresh_skew) (λ deadline. ltb now deadline)

unfoldable pub is_fresh_at : CachedVault → ℕ → ℕ → Bool
is_fresh_at v ttl now =
    if ttl == 0 || leb ttl (now - v.fetched_at) then false else token_is_current v.expires_at now

unfoldable pub is_within_stale_if_error_at : CachedVault → CacheConfig → ℕ → Bool
is_within_stale_if_error_at v config now =
    not (config.stale_if_error == 0)
    && ltb (now - v.fetched_at) (saturating_add config.ttl config.stale_if_error)

unfoldable pub can_defer_refresh_at : CachedVault → CacheConfig → ℕ → Bool
can_defer_refresh_at v config now =
    is_within_stale_if_error_at v config now
    && is_some_and v.refresh_retry_after (λ retry_after. ltb now retry_after)

unfoldable pub defer_refresh_until : CachedVault → ℕ → CachedVault
defer_refresh_until v retry_after = record v { refresh_retry_after = some retry_after }

-- The state that the client's tasks share: the cache, what the refresh lock guards, the counters.
pub record ClientState : Type 0 where
  pub cache : Option CachedVault
  pub retry_after : Option ℕ
  pub metrics : CacheMetricState

-- The clock as the steps of one call read it, in the order of the calls.
pub record Readings : Type 0 where
  pub reuse : ℕ
  pub recheck : ℕ
  pub throttle : ℕ
  pub fetched_at : ℕ
  pub unix_now : ℕ
  pub failed_at : ℕ
  pub stale_at : ℕ

abbrev pub Fetched : Type 0
Fetched = Result ClientError (BitwardenSession × SyncResponse)

module _ (config : CacheConfig) where
  unfoldable pub reuse_vault : Option CachedVault → ℕ → ClientState → Bool × ClientState
  reuse_vault none now s = (false, s)
  reuse_vault (some v) now s =
      if is_fresh_at v config.ttl now
      then (
        true,
        record s { metrics = record s.metrics { cache_hits = increment s.metrics.cache_hits } },
      )
      else if can_defer_refresh_at v config now
      then (
        true,
        record s { metrics = record s.metrics { stale_serves = increment s.metrics.stale_serves } },
      )
      else (false, s)

  unfoldable pub reuse_cached_sync_if_available : ℕ → ClientState → Bool × ClientState
  unfolding reuse_vault
  reuse_cached_sync_if_available now s = reuse_vault s.cache now s

  unfoldable pub serve_stale : Option CachedVault → ℕ → ClientState → Bool × ClientState
  serve_stale none now s = (false, s)
  serve_stale (some v) now s =
      if not (is_within_stale_if_error_at v config now) then (false, s) else (
        true,
        record s {
          cache = some (
              defer_refresh_until v
                (unwrap_or now (checked_add now config.refresh_retry_interval)));
          metrics = record s.metrics { stale_serves = increment s.metrics.stale_serves };
        },
      )

  unfoldable pub serve_stale_after_error : ClientError → ℕ → ClientState → Bool × ClientState
  unfolding serve_stale
  serve_stale_after_error error now s =
      if not (permits_stale_cache error) then (false, s) else serve_stale s.cache now s

  -- The counters and the cooldown of a failed attempt.
  unfoldable pub record_failure : ℕ → ClientState → ClientState
  record_failure now s = record s {
    retry_after = checked_add now config.refresh_retry_interval;
    metrics = record s.metrics { refresh_failures = increment s.metrics.refresh_failures };
  }

  -- The match on the fetched vault, and the write of the cache behind it.
  unfoldable pub store_refresh :
      Readings → Fetched → ClientState → Result ClientError (Unit {0}) × ClientState
  unfolding record_failure
  store_refresh t (ok (session, sync)) s = (
    ok tt,
    record {
      cache = some (new_cached_vault session sync t.fetched_at);
      retry_after = none;
      metrics = record s.metrics {
        refresh_successes = increment s.metrics.refresh_successes;
        last_success_unix_seconds = t.unix_now;
      };
    },
  )
  store_refresh t (err error) s =
      let (served, s') = serve_stale_after_error error t.stale_at (record_failure t.failed_at s) in
      if served then (ok tt, s') else (err error, s')

  -- What `ensure_fresh_cached_sync` does under the refresh lock.
  unfoldable pub refresh_locked :
      Readings → Fetched → ClientState → Result ClientError (Unit {0}) × ClientState
  refresh_locked t fetched s =
      let (reused, s') = reuse_cached_sync_if_available t.recheck s in
      if reused
      then (ok tt, s')
      else if is_some_and s'.retry_after (λ deadline. ltb t.throttle deadline)
      then (err (api refresh_throttled), s')
      else store_refresh t fetched s'

  -- One call, with nothing between its two steps; `fetched` is what `fetch_vault` would return.
  unfoldable pub ensure_fresh_cached_sync :
      Readings → Fetched → ClientState → Result ClientError (Unit {0}) × ClientState
  ensure_fresh_cached_sync t fetched s =
      let (reused, s') = reuse_cached_sync_if_available t.reuse s in
      if reused then (ok tt, s') else refresh_locked t fetched s'

  unfoldable pub resolve_with_cached_sync :
      Primitives
      → Readings
      → Fetched
      → Selector
      → ClientState
      → Result ClientError SecretDocument × ClientState
  resolve_with_cached_sync p t fetched selector s =
      let (ready, s') = ensure_fresh_cached_sync t fetched s in
      (
        (do
          ready
          cached ← ok_or (api missing_cached_sync) s'.cache
          resolve_from_sync p cached.session.user_key cached.sync selector),
        s',
      )
