-- ===== src/Cache/Tasks/Steps.antt =====
-- Each step of a task keeps what holds of the tasks.
use vaultwarden_eso_provider.Prelude.{
  ℕ, ◌≡◌, refl, ap, sym, subst, ◌∙◌, true, Option, some, ok, err, Bool-cases, inl, inr,
  if◌then◌else◌,
}
use vaultwarden_eso_provider.Errors.{ClientError, api, refresh_throttled}
use vaultwarden_eso_provider.Cache.{
  CacheConfig, CachedVault, ClientState, Readings, Fetched, reuse_cached_sync_if_available,
  serve_stale_after_error, record_failure, store_refresh,
}
use vaultwarden_eso_provider.Cache.Tasks.{
  Task, outside, queued, holding, deciding, fetching, storing, refusing, returned, Tasks,
  check_outside, recheck_under_lock, decide_to_fetch, receive, store_vault, serve_or_refuse, Step,
  calls, checks, acquires, rechecks, decides, receives, stores, refuses,
}
use vaultwarden_eso_provider.Cache.Tasks.Section.{
  core, is_throttled, reuse-core, reuse-same, serve_stale_after_error-same, record_failure-same,
  IsTurn-reused, IsTurn-throttled, IsTurn-fetched,
}
use vaultwarden_eso_provider.Cache.Tasks.Invariant.{
  holds_lock, Progress, IsOrderly, IsOrderly-outside, IsOrderly-inside, IsOrderly-acquire,
  IsOrderly-leave,
}

module _ (config : CacheConfig) where
  store_refresh-stored :
      (s : Tasks) (vault : CachedVault)
      → Progress config (storing vault) s.shared s.entered s.times s.fetched
      → (t : ClientState)
      → ((store_refresh config s.times s.fetched t).0 ≡ ok tt)
        × (core (store_refresh config s.times s.fetched t).1
            ≡ core (record s.shared { cache = some vault }))
  unfolding store_refresh
  store_refresh-stored s vault (reset, due, open', session, sync, fetched, made) t =
      rw fetched (refl, cc)

  store_refresh-refused :
      (times : Readings) (error : ClientError) (t s : ClientState)
      → core (record_failure config times.failed_at t) ≡ core s
      → ((store_refresh config times (err error) t).0 ≡ (
          if (serve_stale_after_error config error times.stale_at s).0 then ok tt else err error))
        × (core (store_refresh config times (err error) t).1
            ≡ core (serve_stale_after_error config error times.stale_at s).1)
  unfolding store_refresh
  store_refresh-refused times error t s e =
      let failed : ClientState = record_failure config times.failed_at t in
      let (same, same_core) = serve_stale_after_error-same config error times.stale_at failed s e in
      elim (Bool-cases (serve_stale_after_error config error times.stale_at s).0) [
        | inl served ↦ rw (same ∙ served, served) (refl, same_core)
        | inr refused ↦ rw (same ∙ refused, refused) (refl, same_core)
      ]

  module _ (start : ClientState) (s : Tasks) (i : ℕ) (orderly : IsOrderly config start s) where
    -- The lock and the progress of a task at a step under the lock.
    under_lock :
        (t : Task)
        → s.task i ≡ t
        → holds_lock t ≡ true
        → (s.lock ≡ some i) × Progress config t s.shared s.entered s.times s.fetched
    under_lock t at holds =
        let held : s.lock ≡ some i = orderly.owner i (ap holds_lock at ∙ holds) in
        (
          held,
          subst (λ u. Progress config u s.shared s.entered s.times s.fetched) at
              (orderly.progress i held),
        )

    check_outside-IsOrderly :
        (now : ℕ) → s.task i ≡ outside → IsOrderly config start (check_outside config i now s)
    unfolding check_outside holds_lock
    check_outside-IsOrderly now at =
        let (reused, shared) = reuse_cached_sync_if_available config now s.shared in
        IsOrderly-outside config start s i (if reused then returned (ok tt) else queued) shared
          orderly (ap holds_lock at)
          (elim (Bool-cases reused) [ inl e ↦ rw e refl | inr e ↦ rw e refl ])
          (reuse-core config now s.shared)

    recheck-IsOrderly :
        (now : ℕ) → s.task i ≡ holding → IsOrderly config start (recheck_under_lock config i now s)
    unfolding recheck_under_lock holds_lock
    recheck-IsOrderly now at =
        let (held, same) = under_lock holding at refl in
        let shared = (reuse_cached_sync_if_available config now s.shared).1 in
        let times : Readings = record s.times { recheck = now } in
        let kept : core shared ≡ core s.entered = reuse-core config now s.shared ∙ same in
        elim (Bool-cases (reuse_cached_sync_if_available config now s.shared).0) [
          | inl reused ↦ rw reused (
              IsOrderly-leave config start s i (ok tt) shared times s.fetched orderly held (
                IsTurn-reused config _
                  (sym (reuse-same config now s.shared s.entered same) ∙ reused) refl kept))
          | inr due ↦ rw due (
              IsOrderly-inside config start s i deciding shared times s.fetched orderly held
                (kept, sym (reuse-same config now s.shared s.entered same) ∙ due))
        ]

    decide-IsOrderly :
        (now : ℕ) → s.task i ≡ deciding → IsOrderly config start (decide_to_fetch config i now s)
    unfolding decide_to_fetch holds_lock
    decide-IsOrderly now at =
        let (held, (same, due)) = under_lock deciding at refl in
        let times : Readings = record s.times { throttle = now } in
        let as_entered : is_throttled config s.shared.retry_after now
            ≡ is_throttled config s.entered.retry_after now =
          ap (λ (k : Option CachedVault × Option ℕ). is_throttled config k.1 now) same in
        elim (Bool-cases (is_throttled config s.shared.retry_after now)) [
          | inl throttled ↦ rw throttled (
              IsOrderly-leave config start s i (err (api refresh_throttled)) s.shared times
                s.fetched orderly held
                (IsTurn-throttled config _ due (sym as_entered ∙ throttled) refl same))
          | inr open' ↦ rw open' (
              IsOrderly-inside config start s i fetching s.shared times s.fetched orderly held
                (same, due, sym as_entered ∙ open'))
        ]

    receive-IsOrderly :
        (fetched : Fetched) (now unix_now : ℕ)
        → s.task i ≡ fetching
        → IsOrderly config start (receive config i fetched now unix_now s)
    unfolding receive holds_lock
    receive-IsOrderly (ok (session, sync)) now unix_now at =
        let (held, (same, due, open')) = under_lock fetching at refl in
        IsOrderly-inside config start s i _ _ _ _ orderly held
          (refl, due, open', session, sync, refl, refl)
    receive-IsOrderly (err error) now unix_now at =
        let (held, (same, due, open')) = under_lock fetching at refl in
        IsOrderly-inside config start s i _ _ _ _ orderly held
          (record_failure-same config now s.shared s.entered same, due, open', refl)

    store_vault-IsOrderly :
        (vault : CachedVault)
        → s.task i ≡ storing vault
        → IsOrderly config start (store_vault config i vault s)
    unfolding store_vault holds_lock
    store_vault-IsOrderly vault at =
        let (held, progress) = under_lock (storing vault) at refl in
        IsOrderly-leave config start s i (ok tt) _ s.times s.fetched orderly held (
          IsTurn-fetched config _ progress.1 progress.2
            (λ t e. store_refresh-stored s vault progress t))

    serve_or_refuse-IsOrderly :
        (error : ClientError) (now : ℕ)
        → s.task i ≡ refusing error
        → IsOrderly config start (serve_or_refuse config i error now s)
    unfolding serve_or_refuse holds_lock
    serve_or_refuse-IsOrderly error now at =
        let (held, (same, due, open', failed)) = under_lock (refusing error) at refl in
        IsOrderly-leave config start s i _ _ (record s.times { stale_at = now }) s.fetched orderly
          held
          (IsTurn-fetched config _ due open' (λ t e. rw failed (
            store_refresh-refused (record s.times { stale_at = now }) error t s.shared
              (record_failure-same config s.times.failed_at t s.entered e ∙ sym same))))

  pub Step-IsOrderly :
      (start : ClientState) (s t : Tasks)
      → IsOrderly config start s
      → Step config s t
      → IsOrderly config start t
  unfolding holds_lock
  Step-IsOrderly start s _ orderly (calls _ i at) =
      IsOrderly-outside config start s i outside s.shared orderly (ap holds_lock at) refl refl
  Step-IsOrderly start s _ orderly (checks _ i now at) =
      check_outside-IsOrderly start s i orderly now at
  Step-IsOrderly start s _ orderly (acquires _ i at open') =
      IsOrderly-acquire config start s i orderly open'
  Step-IsOrderly start s _ orderly (rechecks _ i now at) =
      recheck-IsOrderly start s i orderly now at
  Step-IsOrderly start s _ orderly (decides _ i now at) = decide-IsOrderly start s i orderly now at
  Step-IsOrderly start s _ orderly (receives _ i fetched now unix_now at) =
      receive-IsOrderly start s i orderly fetched now unix_now at
  Step-IsOrderly start s _ orderly (stores _ i vault at) =
      store_vault-IsOrderly start s i orderly vault at
  Step-IsOrderly start s _ orderly (refuses _ i error now at) =
      serve_or_refuse-IsOrderly start s i orderly error now at
