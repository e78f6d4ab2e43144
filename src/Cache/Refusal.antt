-- ===== src/Cache/Refusal.antt =====
-- When a call of the refresh fails, and the state that it leaves then.
use vaultwarden_eso_provider.Prelude.{
  ℕ, ◌+◌, ◌%◌, ◌^◌, ◌≡◌, ◌<◌, ◌≤◌, ◌⊎◌, ◌↔◌, refl, ap, sym, subst, ◌∙◌, Bool, true, false, Option,
  none, some, arith, ok, err, inl, inr, Bool-cases, Option-cases, is_some_and, ltb, ◌||◌,
}
use vaultwarden_eso_provider.Errors.{ClientError, api, refresh_throttled, permits_stale_cache}
use vaultwarden_eso_provider.Cache.{
  CacheConfig, CachedVault, ClientState, Readings, Fetched, is_fresh_at,
  is_within_stale_if_error_at, can_defer_refresh_at, reuse_vault, reuse_cached_sync_if_available,
  serve_stale_after_error, record_failure, store_refresh, refresh_locked, ensure_fresh_cached_sync,
  checked_add,
}

-- A cooldown that has not passed when the call asks, and none that has not.
abbrev pub IsThrottled : Readings → ClientState → Type 0
IsThrottled t s = (deadline : ℕ) × (s.retry_after ≡ some deadline) × (t.throttle < deadline)

abbrev pub IsOpen : Readings → ClientState → Type 0
IsOpen t s = (deadline : ℕ) → s.retry_after ≡ some deadline → deadline ≤ t.throttle

throttle_cases :
    (t : Readings) (s : ClientState)
    → (IsThrottled t s × (is_some_and s.retry_after (λ deadline. ltb t.throttle deadline) ≡ true))
      ⊎ (IsOpen t s × (is_some_and s.retry_after (λ deadline. ltb t.throttle deadline) ≡ false))
throttle_cases t s = elim (Option-cases s.retry_after) [
  | inl no_cooldown ↦ inr (λ deadline e. cc, rw no_cooldown refl)
  | inr (d, set) ↦ elim (Bool-cases (ltb t.throttle d)) [
    | inl early ↦ inl ((d, set, ground arith), rw set early)
    | inr late ↦ inr (λ deadline e. ground arith, rw set late)
  ]
]

module _ (config : CacheConfig) where
  -- The vaults that may be served without a successful fetch, at an instant.
  abbrev pub may_reuse : Option CachedVault → ℕ → Bool
  may_reuse none now = false
  may_reuse (some v) now = is_fresh_at v config.ttl now || can_defer_refresh_at v config now

  -- An error that rules stale data out, or no vault within the stale window.
  abbrev pub IsFinal : Readings → ClientState → ClientError → Type 0
  IsFinal t s error =
      (permits_stale_cache error ≡ false)
      ⊎ ((v : CachedVault)
          → s.cache ≡ some v
          → is_within_stale_if_error_at v config t.stale_at ≡ false)

  -- The state behind a fetch that failed, where the call returns its error.
  abbrev pub failed_state : Readings → ClientState → ClientState
  failed_state t s = record {
    cache = s.cache;
    retry_after = checked_add t.failed_at config.refresh_retry_interval;
    metrics = record {
      cache_hits = s.metrics.cache_hits;
      refresh_successes = s.metrics.refresh_successes;
      refresh_failures = (s.metrics.refresh_failures + 1) % 2 ^ 64;
      stale_serves = s.metrics.stale_serves;
      last_success_unix_seconds = s.metrics.last_success_unix_seconds;
    };
  }

  reuse_cases :
      (o : Option CachedVault) (now : ℕ) (s : ClientState)
      → ((may_reuse o now ≡ true) × ((reuse_vault config o now s).0 ≡ true))
        ⊎ ((may_reuse o now ≡ false) × (reuse_vault config o now s ≡ (false, s)))
  unfolding reuse_vault
  reuse_cases none now s = inr (refl, refl)
  reuse_cases (some v) now s = elim (Bool-cases (may_reuse (some v) now)) [
    | inl reused ↦ inl (reused, ground arith)
    | inr declined ↦ inr (declined, ground arith)
  ]

  serve_cases :
      (t : Readings) (error : ClientError) (s : ClientState)
      → ((permits_stale_cache error ≡ true)
          × (v : CachedVault) × (s.cache ≡ some v)
          × (is_within_stale_if_error_at v config t.stale_at ≡ true)
          × ((serve_stale_after_error config error t.stale_at s).0 ≡ true))
        ⊎ (IsFinal t s error × (serve_stale_after_error config error t.stale_at s ≡ (false, s)))
  unfolding serve_stale_after_error
  serve_cases t error s = elim (Bool-cases (permits_stale_cache error)) [
    | inr final ↦ inr (inl final, rw final refl)
    | inl permitted ↦ elim (Option-cases s.cache) [
      | inl empty ↦ inr (inr (λ v e. cc), ground arith)
      | inr (v, e) ↦ elim (Bool-cases (is_within_stale_if_error_at v config t.stale_at)) [
        | inl within ↦ inl (permitted, v, e, within, ground arith)
        | inr old ↦ inr (inr (λ w e'. ground arith), ground arith)
      ]
    ]
  ]

  store_iff :
      (t : Readings) (fetched : Fetched) (s : ClientState) (error : ClientError)
      → ((store_refresh config t fetched s).0 ≡ err error)
        ↔ ((fetched ≡ err error) × IsFinal t s error)
  unfolding store_refresh record_failure
  store_iff t (ok pair) s error = (λ h. cc, λ (h, _). cc)
  store_iff t (err e) s error = elim (serve_cases t e (record_failure config t.failed_at s)) [
    | inl (permitted, v, cached, within, served) ↦ (
      λ h. absurd (ground arith),
      λ (h, final). elim final [
        | inl refused ↦ absurd (ground arith)
        | inr old ↦ let old' = old v cached in absurd (ground arith)
      ],
    )
    | inr (final, refused) ↦ (
      λ h. let same : e ≡ error = ground arith in (ap err same, subst (IsFinal t s) same final),
      λ (h, _). let same : e ≡ error = ground arith in rw refused (ap err same),
    )
  ]

  store-refused :
      (t : Readings) (fetched : Fetched) (s : ClientState) (error : ClientError)
      → (store_refresh config t fetched s).0 ≡ err error
      → (store_refresh config t fetched s).1 ≡ failed_state t s
  unfolding store_refresh record_failure
  store-refused t (ok pair) s error h = cc
  store-refused t (err e) s error h = elim (serve_cases t e (record_failure config t.failed_at s)) [
    | inl (permitted, v, cached, within, served) ↦ absurd (ground arith)
    | inr (final, refused) ↦ rw refused refl
  ]

  -- How a call goes: it reuses the vault, is throttled, or asks the server.
  call_cases :
      (t : Readings) (fetched : Fetched) (s : ClientState)
      → (((may_reuse s.cache t.reuse || may_reuse s.cache t.recheck) ≡ true)
          × ((ensure_fresh_cached_sync config t fetched s).0 ≡ ok tt))
        ⊎ (((may_reuse s.cache t.reuse || may_reuse s.cache t.recheck) ≡ false)
            × ((IsThrottled t s
                  × (ensure_fresh_cached_sync config t fetched s
                      ≡ (err (api refresh_throttled), s)))
                ⊎ (IsOpen t s
                    × (ensure_fresh_cached_sync config t fetched s
                        ≡ store_refresh config t fetched s))))
  unfolding ensure_fresh_cached_sync refresh_locked reuse_cached_sync_if_available
  call_cases t fetched s = elim (reuse_cases s.cache t.reuse s) [
    | inl (may, reused) ↦ inl (rw may refl, rw reused refl)
    | inr (may_not, declined) ↦ elim (reuse_cases s.cache t.recheck s) [
      | inl (may, reused) ↦ inl (rw (may_not, may) refl, rw (declined, reused) refl)
      | inr (may_not', declined') ↦ inr (
        rw (may_not, may_not') refl,
        elim (throttle_cases t s) [
          | inl (throttled, early) ↦ inl (throttled, rw (declined, declined', early) refl)
          | inr (asks, late) ↦ inr (asks, rw (declined, declined', late) refl)
        ],
      )
    ]
  ]

  -- A call fails, with a given error, exactly when the vault in the cache may be reused at neither
  -- reading, and either a cooldown has not passed and the error is that of a throttled refresh, or
  -- none is left, the fetch fails with that error, and stale data is ruled out by the error or there
  -- is no vault within the stale window.
  pub ensure_fresh_cached_sync_iff :
      (t : Readings) (fetched : Fetched) (s : ClientState) (error : ClientError)
      → ((ensure_fresh_cached_sync config t fetched s).0 ≡ err error) ↔ (
          ((may_reuse s.cache t.reuse || may_reuse s.cache t.recheck) ≡ false)
          × ((IsThrottled t s × (error ≡ api refresh_throttled))
              ⊎ (IsOpen t s × (fetched ≡ err error) × IsFinal t s error)))
  ensure_fresh_cached_sync_iff t fetched s error = elim (call_cases t fetched s) [
    | inl (may, reused) ↦ (λ h. cc, λ (may_not, _). cc)
    | inr (may_not, inl ((deadline, set, early), throttled)) ↦ (
      λ h. (may_not, inl ((deadline, set, early), ground (arith, throttled))),
      λ (_, why). elim why [
        | inl (_, same) ↦ ap (λ r. r.0) throttled ∙ ap err (sym same)
        | inr (asks, _, _) ↦ let late = asks deadline set in absurd (omega arith)
      ],
    )
    | inr (may_not, inr (asks, asked)) ↦ (
      λ h.
          let (failed, final) = (store_iff t fetched s error).0 (sym (ap (λ r. r.0) asked) ∙ h) in
          (may_not, inr (asks, failed, final)),
      λ (_, why). elim why [
        | inl ((deadline, set, early), _) ↦ let late = asks deadline set in absurd (omega arith)
        | inr (_, failed, final) ↦
            ap (λ r. r.0) asked ∙ (store_iff t fetched s error).1 (failed, final)
      ],
    )
  ]

  -- A call that fails leaves the vault in the cache as it was, with the time of its next refresh.
  -- Where a cooldown has not passed it changes nothing. Otherwise the cooldown starts at the failure,
  -- for the interval of the settings, or none where no instant is so late, and of the counters only
  -- that of the failures changes: it counts one more, in 64 bits.
  pub ensure_fresh_cached_sync-refused :
      (t : Readings) (fetched : Fetched) (s : ClientState) (error : ClientError)
      → (ensure_fresh_cached_sync config t fetched s).0 ≡ err error
      → (IsThrottled t s × ((ensure_fresh_cached_sync config t fetched s).1 ≡ s))
        ⊎ (IsOpen t s × ((ensure_fresh_cached_sync config t fetched s).1 ≡ failed_state t s))
  ensure_fresh_cached_sync-refused t fetched s error h = elim (call_cases t fetched s) [
    | inl (may, reused) ↦ cc
    | inr (may_not, inl (throttled, unchanged)) ↦ inl (throttled, ap (λ r. r.1) unchanged)
    | inr (may_not, inr (asks, asked)) ↦ inr (
      asks,
      ap (λ r. r.1) asked ∙ store-refused t fetched s error (sym (ap (λ r. r.0) asked) ∙ h),
    )
  ]
