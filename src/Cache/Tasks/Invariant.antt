-- ===== src/Cache/Tasks/Invariant.antt =====
-- What holds of the tasks in every order of their steps.
use vaultwarden_eso_provider.Prelude.{
  ℕ, ◌≡◌, ◌≢◌, refl, ap, sym, ◌∙◌, Bool, true, false, Option, none, some, List, [], ◌∷◌, Result, ok,
  err, ◌==◌, arith, Bool-cases, inl, inr,
}
use vaultwarden_eso_provider.Errors.{ClientError}
use vaultwarden_eso_provider.Api.{BitwardenSession}
use vaultwarden_eso_provider.Vault.{SyncResponse}
use vaultwarden_eso_provider.Cache.{
  CacheConfig, CachedVault, ClientState, Readings, Fetched, new_cached_vault,
  reuse_cached_sync_if_available, record_failure,
}
use vaultwarden_eso_provider.Cache.Tasks.{
  Task, idle, outside, queued, holding, deciding, fetching, storing, refusing, returned, Turn,
  Tasks, update, go, leave, acquire,
}
use vaultwarden_eso_provider.Cache.Tasks.Section.{core, is_throttled, IsTurn}

-- The steps of a call that holds the lock.
unfoldable pub holds_lock : Task → Bool
holds_lock holding = true
holds_lock deciding = true
holds_lock fetching = true
holds_lock (storing vault) = true
holds_lock (refusing error) = true
holds_lock _ = false

module _ (config : CacheConfig) where
  -- How far the turn is: what its checks found in the state at its start, and what it changed.
  abbrev pub Progress : Task → ClientState → ClientState → Readings → Fetched → Type 0
  Progress holding shared entered times fetched = core shared ≡ core entered
  Progress deciding shared entered times fetched =
      (core shared ≡ core entered)
      × ((reuse_cached_sync_if_available config times.recheck entered).0 ≡ false)
  Progress fetching shared entered times fetched =
      (core shared ≡ core entered)
      × ((reuse_cached_sync_if_available config times.recheck entered).0 ≡ false)
      × (is_throttled config entered.retry_after times.throttle ≡ false)
  Progress (storing vault) shared entered times fetched =
      (shared.retry_after ≡ none)
      × ((reuse_cached_sync_if_available config times.recheck entered).0 ≡ false)
      × (is_throttled config entered.retry_after times.throttle ≡ false)
      × (session : BitwardenSession) × (sync : SyncResponse) × (fetched ≡ ok (session, sync))
      × (vault ≡ new_cached_vault session sync times.fetched_at)
  Progress (refusing error) shared entered times fetched =
      (core shared ≡ core (record_failure config times.failed_at entered))
      × ((reuse_cached_sync_if_available config times.recheck entered).0 ≡ false)
      × (is_throttled config entered.retry_after times.throttle ≡ false)
      × (fetched ≡ err error)
  Progress _ shared entered times fetched = ⊥

  Progress-core :
      (t : Task) (shared shared' entered : ClientState) (times : Readings) (fetched : Fetched)
      → core shared' ≡ core shared
      → Progress t shared entered times fetched
      → Progress t shared' entered times fetched
  Progress-core holding shared shared' entered times fetched e h = e ∙ h
  Progress-core deciding shared shared' entered times fetched e (h, k) = (e ∙ h, k)
  Progress-core fetching shared shared' entered times fetched e (h, k, l) = (e ∙ h, k, l)
  Progress-core (storing vault) shared shared' entered times fetched e
        (h, k, l, session, sync, m, n) =
      (ap (λ (c : Option CachedVault × Option ℕ). c.1) e ∙ h, k, l, session, sync, m, n)
  Progress-core (refusing error) shared shared' entered times fetched e (h, k, l, m) =
      (e ∙ h, k, l, m)
  Progress-core idle shared shared' entered times fetched e h = h
  Progress-core outside shared shared' entered times fetched e h = h
  Progress-core queued shared shared' entered times fetched e h = h
  Progress-core (returned answer) shared shared' entered times fetched e h = h

  Progress-holds :
      (t : Task) (shared entered : ClientState) (times : Readings) (fetched : Fetched)
      → holds_lock t ≡ false
      → Progress t shared entered times fetched
      → ⊥
  unfolding holds_lock
  Progress-holds idle shared entered times fetched e h = h
  Progress-holds outside shared entered times fetched e h = h
  Progress-holds queued shared entered times fetched e h = h
  Progress-holds (returned answer) shared entered times fetched e h = h
  Progress-holds holding shared entered times fetched e h = cc
  Progress-holds deciding shared entered times fetched e h = cc
  Progress-holds fetching shared entered times fetched e h = cc
  Progress-holds (storing vault) shared entered times fetched e h = cc
  Progress-holds (refusing error) shared entered times fetched e h = cc

  -- What the lock protects behind the last turn.
  abbrev pub core_behind : ClientState → List Turn → Option CachedVault × Option ℕ
  core_behind start [] = core start
  core_behind start (t ∷ turns) = core t.behind

  -- The turns, one after the other: each one is a turn of `refresh_locked`, from the cache and the
  -- cooldown that the one before it left.
  abbrev pub IsSerial : ClientState → List Turn → Type 0
  IsSerial start [] = Unit
  IsSerial start (t ∷ turns) =
      IsTurn config t × (core t.before ≡ core_behind start turns) × IsSerial start turns

  pub record IsOrderly (start : ClientState) (s : Tasks) : Type 0 where
    pub owner : (i : ℕ) → holds_lock (s.task i) ≡ true → s.lock ≡ some i
    pub progress :
        (i : ℕ) → s.lock ≡ some i → Progress (s.task i) s.shared s.entered s.times s.fetched
    pub entry : (i : ℕ) → s.lock ≡ some i → core s.entered ≡ core_behind start s.turns
    pub free : s.lock ≡ none → core s.shared ≡ core_behind start s.turns
    pub serial : IsSerial start s.turns

  update-cases :
      (P : Task → Type 0) (task : ℕ → Task) (i : ℕ) (t : Task) (j : ℕ)
      → (i ≡ j → P t)
      → (i ≢ j → P (task j))
      → P (update task i t j)
  update-cases P task i t j same other = elim (Bool-cases (i == j)) [
    | inl e ↦ rw e (same (ground arith))
    | inr e ↦ rw e (other (ground arith))
  ]

  -- A step of a task that does not hold the lock, to a point where it does not.
  pub IsOrderly-outside :
      (start : ClientState) (s : Tasks) (i : ℕ) (t : Task) (shared : ClientState)
      → IsOrderly start s
      → holds_lock (s.task i) ≡ false
      → holds_lock t ≡ false
      → core shared ≡ core s.shared
      → IsOrderly start (go i t (record s { shared = shared }))
  unfolding go
  IsOrderly-outside start s i t shared orderly was is same = record {
    owner = λ j.
        update-cases (λ u. holds_lock u ≡ true → s.lock ≡ some j) s.task i t j (λ e h. cc)
          (λ e. orderly.owner j);
    progress = λ j h.
        update-cases (λ u. Progress u shared s.entered s.times s.fetched) s.task i t j
          (λ e. absurd (
            Progress-holds (s.task i) s.shared s.entered s.times s.fetched was
              (orderly.progress i (h ∙ ap some (sym e)))))
          (λ e.
            Progress-core (s.task j) s.shared shared s.entered s.times s.fetched same
              (orderly.progress j h));
    entry = orderly.entry;
    free = λ h. same ∙ orderly.free h;
    serial = orderly.serial;
  }

  -- A step of the task that holds the lock, to a point where it does.
  pub IsOrderly-inside :
      (start : ClientState) (s : Tasks) (i : ℕ) (t : Task) (shared : ClientState) (times : Readings)
      (fetched : Fetched)
      → IsOrderly start s
      → s.lock ≡ some i
      → Progress t shared s.entered times fetched
      → IsOrderly start (go i t (record s { shared = shared; times = times; fetched = fetched }))
  unfolding go
  IsOrderly-inside start s i t shared times fetched orderly held progress = record {
    owner = λ j.
        update-cases (λ u. holds_lock u ≡ true → s.lock ≡ some j) s.task i t j
          (λ e h. held ∙ ap some e) (λ e. orderly.owner j);
    progress = λ j h.
        update-cases (λ u. Progress u shared s.entered times fetched) s.task i t j (λ e. progress)
          (λ e. absurd (e cc));
    entry = orderly.entry;
    free = λ h. cc;
    serial = orderly.serial;
  }

  pub IsOrderly-acquire :
      (start : ClientState) (s : Tasks) (i : ℕ)
      → IsOrderly start s
      → s.lock ≡ none
      → IsOrderly start (acquire config i s)
  unfolding acquire
  IsOrderly-acquire start s i orderly open' = record {
    owner = λ j.
        update-cases (λ u. holds_lock u ≡ true → some i ≡ some j) s.task i holding j
          (λ e h. ap some e) (λ e h. let held = orderly.owner j h in cc);
    progress = λ j h.
        update-cases (λ u. Progress u s.shared s.shared s.times s.fetched) s.task i holding j
          (λ e. refl) (λ e. absurd (e cc));
    entry = λ j h. orderly.free open';
    free = λ h. cc;
    serial = orderly.serial;
  }

  -- The end of the turn of the task that holds the lock.
  pub IsOrderly-leave :
      (start : ClientState) (s : Tasks) (i : ℕ) (answer : Result ClientError (Unit {0}))
      (shared : ClientState) (times : Readings) (fetched : Fetched)
      → IsOrderly start s
      → s.lock ≡ some i
      → IsTurn config (record {
        before = s.entered;
        times = times;
        fetched = fetched;
        answer = answer;
        behind = shared;
      })
      → IsOrderly start
          (leave i answer (record s { shared = shared; times = times; fetched = fetched }))
  unfolding leave holds_lock
  IsOrderly-leave start s i answer shared times fetched orderly held turn = record {
    owner = λ j.
        update-cases (λ u. holds_lock u ≡ true → none ≡ some j) s.task i (returned answer) j
          (λ e h. cc) (λ e h. let held' = orderly.owner j h in absurd (e cc));
    progress = λ j h. cc;
    entry = λ j h. cc;
    free = λ h. refl;
    serial = (turn, orderly.entry i held, orderly.serial);
  }
