-- ===== src/Cache/Counters.antt =====
-- The counters of the sync cache of crates/bweso-bitwarden/src/api.rs, and their snapshot.
use vaultwarden_eso_provider.Prelude.{
  ℕ, ◌+◌, ◌-◌, ◌%◌, ◌^◌, Option, none, some, ltb, option_map, if◌then◌else◌,
}

-- `CacheMetricState`: atomic counters of 64 bits, which wrap around.
pub record CacheMetricState : Type 0 where
  pub cache_hits : ℕ
  pub refresh_successes : ℕ
  pub refresh_failures : ℕ
  pub stale_serves : ℕ
  pub last_success_unix_seconds : ℕ

-- `fetch_add(1)`.
abbrev pub increment : ℕ → ℕ
increment n = (n + 1) % 2 ^ 64

pub record CacheMetrics : Type 0 where
  pub cache_hits : ℕ
  pub refresh_successes : ℕ
  pub refresh_failures : ℕ
  pub stale_serves : ℕ
  pub last_success_unix_seconds : Option ℕ
  pub last_success_age_seconds : Option ℕ

-- `CacheMetricState::snapshot` at a Unix time.
unfoldable pub snapshot : CacheMetricState → ℕ → CacheMetrics
snapshot m unix_now =
    let last_success = m.last_success_unix_seconds in
    let timestamp = if ltb 0 last_success then some last_success else none in
    record {
      cache_hits = m.cache_hits;
      refresh_successes = m.refresh_successes;
      refresh_failures = m.refresh_failures;
      stale_serves = m.stale_serves;
      last_success_unix_seconds = timestamp;
      last_success_age_seconds = option_map (λ t. unix_now - t) timestamp;
    }
