-- ===== src/Cache/Tasks/Section.antt =====
-- One turn under the refresh lock, and what `refresh_locked` does with the state that it found.
use vaultwarden_eso_provider.Prelude.{
  ℕ, ◌≡◌, refl, ap, sym, ◌∙◌, Bool, true, false, Option, none, some, ok, err, is_some_and, ltb,
  Bool-cases, inl, inr, unwrap_or,
}
use vaultwarden_eso_provider.Errors.{ClientError, api, refresh_throttled, permits_stale_cache}
use vaultwarden_eso_provider.Cache.{
  CacheConfig, CachedVault, ClientState, checked_add, defer_refresh_until, is_fresh_at,
  can_defer_refresh_at, is_within_stale_if_error_at, reuse_vault, reuse_cached_sync_if_available,
  serve_stale, serve_stale_after_error, record_failure, store_refresh, refresh_locked,
}
use vaultwarden_eso_provider.Cache.Tasks.{Turn}

-- What the lock protects: the cache and the cooldown. The counters are left out.
abbrev pub core : ClientState → Option CachedVault × Option ℕ
core s = (s.cache, s.retry_after)

module _ (config : CacheConfig) where
  reuse_vault-core :
      (v : Option CachedVault) (now : ℕ) (s : ClientState)
      → core (reuse_vault config v now s).1 ≡ core s
  unfolding reuse_vault
  reuse_vault-core none now s = refl
  reuse_vault-core (some v) now s = elim (Bool-cases (is_fresh_at v config.ttl now)) [
    | inl fresh ↦ rw fresh
    | inr stale ↦ elim (Bool-cases (can_defer_refresh_at v config now)) [
      | inl deferred ↦ rw (stale, deferred)
      | inr due ↦ rw (stale, due)
    ]
  ]

  reuse_vault-same :
      (v : Option CachedVault) (now : ℕ) (s t : ClientState)
      → (reuse_vault config v now s).0 ≡ (reuse_vault config v now t).0
  unfolding reuse_vault
  reuse_vault-same none now s t = refl
  reuse_vault-same (some v) now s t = elim (Bool-cases (is_fresh_at v config.ttl now)) [
    | inl fresh ↦ rw fresh
    | inr stale ↦ elim (Bool-cases (can_defer_refresh_at v config now)) [
      | inl deferred ↦ rw (stale, deferred)
      | inr due ↦ rw (stale, due)
    ]
  ]

  pub reuse-core :
      (now : ℕ) (s : ClientState) → core (reuse_cached_sync_if_available config now s).1 ≡ core s
  unfolding reuse_cached_sync_if_available
  reuse-core now s = reuse_vault-core s.cache now s

  -- Whether the cache is reused depends on the cache alone.
  pub reuse-same :
      (now : ℕ) (s t : ClientState)
      → core s ≡ core t
      → (reuse_cached_sync_if_available config now s).0
        ≡ (reuse_cached_sync_if_available config now t).0
  unfolding reuse_cached_sync_if_available
  reuse-same now s t h =
      ap (λ k. (reuse_vault config k.0 now s).0) h ∙ reuse_vault-same t.cache now s t

  serve_stale-same :
      (v : Option CachedVault) (now : ℕ) (s t : ClientState)
      → core s ≡ core t
      → ((serve_stale config v now s).0 ≡ (serve_stale config v now t).0)
        × (core (serve_stale config v now s).1 ≡ core (serve_stale config v now t).1)
  unfolding serve_stale
  serve_stale-same none now s t h = (refl, h)
  serve_stale-same (some v) now s t h =
      elim (Bool-cases (is_within_stale_if_error_at v config now)) [
        | inl within ↦ rw within (
          refl,
          ap
              (λ (k : Option CachedVault × Option ℕ). (
                some (
                    defer_refresh_until v
                      (unwrap_or now (checked_add now config.refresh_retry_interval))),
                k.1,
              ))
              h,
        )
        | inr out ↦ rw out (refl, h)
      ]

  pub serve_stale_after_error-same :
      (error : ClientError) (now : ℕ) (s t : ClientState)
      → core s ≡ core t
      → ((serve_stale_after_error config error now s).0
          ≡ (serve_stale_after_error config error now t).0)
        × (core (serve_stale_after_error config error now s).1
            ≡ core (serve_stale_after_error config error now t).1)
  unfolding serve_stale_after_error
  serve_stale_after_error-same error now s t h = elim (Bool-cases (permits_stale_cache error)) [
    | inl permitted ↦
        let (same, same_core) = serve_stale-same s.cache now s t h in
        let v = ap (λ (k : Option CachedVault × Option ℕ). serve_stale config k.0 now t) h in
        rw permitted (same ∙ ap (λ r. r.0) v, same_core ∙ ap (λ r. core r.1) v)
    | inr refused ↦ rw refused (refl, h)
  ]

  pub record_failure-same :
      (now : ℕ) (s t : ClientState)
      → core s ≡ core t
      → core (record_failure config now s) ≡ core (record_failure config now t)
  unfolding record_failure
  record_failure-same now s t h =
      ap
        (λ (k : Option CachedVault × Option ℕ).
          (k.0, checked_add now config.refresh_retry_interval))
        h

  abbrev pub is_throttled : Option ℕ → ℕ → Bool
  is_throttled retry_after now = is_some_and retry_after (λ deadline. ltb now deadline)

  -- A turn is one of `refresh_locked`, from the state that it found: with the same answer, the same
  -- cache and the same cooldown.
  pub record IsTurn (t : Turn) : Type 0 where
    pub same_answer : (refresh_locked config t.times t.fetched t.before).0 ≡ t.answer
    pub same_core : core (refresh_locked config t.times t.fetched t.before).1 ≡ core t.behind

  -- How a turn ends: the cache is reused, the call is throttled, or the fetch is over.
  pub IsTurn-reused :
      (t : Turn)
      → (reuse_cached_sync_if_available config t.times.recheck t.before).0 ≡ true
      → t.answer ≡ ok tt
      → core t.behind ≡ core t.before
      → IsTurn t
  unfolding refresh_locked
  IsTurn-reused t reused answer kept = record {
    same_answer = rw (reused, answer);
    same_core = rw reused (reuse-core t.times.recheck t.before ∙ sym kept);
  }

  module _ (t : Turn)
      (due : (reuse_cached_sync_if_available config t.times.recheck t.before).0 ≡ false) where
    throttle-same :
        (b : Bool)
        → is_throttled t.before.retry_after t.times.throttle ≡ b
        → is_throttled
            (reuse_cached_sync_if_available config t.times.recheck t.before).1.retry_after
            t.times.throttle
          ≡ b
    throttle-same b h =
        ap (λ (k : Option CachedVault × Option ℕ). is_throttled k.1 t.times.throttle)
          (reuse-core t.times.recheck t.before)
        ∙ h

    pub IsTurn-throttled :
        is_throttled t.before.retry_after t.times.throttle ≡ true
        → t.answer ≡ err (api refresh_throttled)
        → core t.behind ≡ core t.before
        → IsTurn t
    unfolding refresh_locked
    IsTurn-throttled throttled answer kept = record {
      same_answer = rw (due, throttle-same true throttled, answer);
      same_core =
          rw (due, throttle-same true throttled) (reuse-core t.times.recheck t.before ∙ sym kept);
    }

    pub IsTurn-fetched :
        is_throttled t.before.retry_after t.times.throttle ≡ false
        → ((s : ClientState)
            → core s ≡ core t.before
            → ((store_refresh config t.times t.fetched s).0 ≡ t.answer)
              × (core (store_refresh config t.times t.fetched s).1 ≡ core t.behind))
        → IsTurn t
    unfolding refresh_locked
    IsTurn-fetched open' stored =
        let (same_answer, same_core) =
          stored (reuse_cached_sync_if_available config t.times.recheck t.before).1
            (reuse-core t.times.recheck t.before) in
        record {
          same_answer = rw (due, throttle-same false open') same_answer;
          same_core = rw (due, throttle-same false open') same_core;
        }
