-- ===== src/Cache/Tasks.antt =====
-- Calls of `ensure_fresh_cached_sync` by several tasks at once, one step between two awaits: the check
-- before the lock, and what a task does under the refresh lock.
pub mod Section
pub mod Invariant
pub mod Steps
pub mod Serial
pub mod Waiting
pub mod Returning
use vaultwarden_eso_provider.Prelude.{
  ℕ, ◌≡◌, Bool, true, false, Option, none, some, List, [], ◌∷◌, Result, ok, err, is_some_and, ltb,
  ◌==◌, if◌then◌else◌,
}
use vaultwarden_eso_provider.Errors.{ClientError, api, refresh_throttled}
use vaultwarden_eso_provider.Cache.{
  CacheConfig, CachedVault, ClientState, Readings, Fetched, new_cached_vault,
  reuse_cached_sync_if_available, serve_stale_after_error, record_failure,
}
use vaultwarden_eso_provider.Cache.Counters.{increment}

-- How far a call is. From `holding` to `refusing` it holds the lock.
pub data Task : Type 0 where
  idle outside queued holding deciding fetching : Task
  storing : CachedVault → Task
  refusing : ClientError → Task
  returned : Result ClientError (Unit {0}) → Task

-- A finished turn under the lock: the state that it found, what it read and fetched, its answer, and
-- the state that it left.
pub record Turn : Type 0 where
  pub before : ClientState
  pub times : Readings
  pub fetched : Fetched
  pub answer : Result ClientError (Unit {0})
  pub behind : ClientState

-- The tasks and what they share. The last four fields record the turn under the lock, and the turns
-- that are over, the last one first; no step depends on them.
pub record Tasks : Type 0 where
  pub shared : ClientState
  pub lock : Option ℕ
  pub task : ℕ → Task
  pub entered : ClientState
  pub times : Readings
  pub fetched : Fetched
  pub turns : List Turn

abbrev pub update : (ℕ → Task) → ℕ → Task → ℕ → Task
update task i t j = if i == j then t else task j

unfoldable pub go : ℕ → Task → Tasks → Tasks
go i t s = record s { task = update s.task i t }

-- The return of a call that holds the lock.
unfoldable pub leave : ℕ → Result ClientError (Unit {0}) → Tasks → Tasks
leave i answer s = record s {
  lock = none;
  task = update s.task i (returned answer);
  turns =
      record {
        before = s.entered;
        times = s.times;
        fetched = s.fetched;
        answer = answer;
        behind = s.shared;
      }
      ∷ s.turns;
}

module _ (config : CacheConfig) where
  unfoldable pub check_outside : ℕ → ℕ → Tasks → Tasks
  unfolding go
  check_outside i now s =
      let (reused, shared) = reuse_cached_sync_if_available config now s.shared in
      go i (if reused then returned (ok tt) else queued) (record s { shared = shared })

  unfoldable pub acquire : ℕ → Tasks → Tasks
  acquire i s = record s { lock = some i; task = update s.task i holding; entered = s.shared }

  unfoldable pub recheck_under_lock : ℕ → ℕ → Tasks → Tasks
  unfolding go leave
  recheck_under_lock i now s =
      let (reused, shared) = reuse_cached_sync_if_available config now s.shared in
      let s' : Tasks = record s { shared = shared; times = record s.times { recheck = now } } in
      if reused then leave i (ok tt) s' else go i deciding s'

  unfoldable pub decide_to_fetch : ℕ → ℕ → Tasks → Tasks
  unfolding go leave
  decide_to_fetch i now s =
      let s' : Tasks = record s { times = record s.times { throttle = now } } in
      if is_some_and s.shared.retry_after (λ deadline. ltb now deadline)
      then leave i (err (api refresh_throttled)) s'
      else go i fetching s'

  -- What `fetch_vault` returns, at an instant and a Unix time.
  unfoldable pub receive : ℕ → Fetched → ℕ → ℕ → Tasks → Tasks
  unfolding go
  receive i (ok (session, sync)) now unix_now s =
      go i (storing (new_cached_vault session sync now)) (record s {
        shared = record s.shared {
          retry_after = none;
          metrics = record s.shared.metrics {
            refresh_successes = increment s.shared.metrics.refresh_successes;
            last_success_unix_seconds = unix_now;
          };
        };
        times = record s.times { fetched_at = now; unix_now = unix_now };
        fetched = ok (session, sync);
      })
  receive i (err error) now unix_now s = go i (refusing error) (record s {
    shared = record_failure config now s.shared;
    times = record s.times { failed_at = now };
    fetched = err error;
  })

  -- The write of the cache.
  unfoldable pub store_vault : ℕ → CachedVault → Tasks → Tasks
  unfolding leave
  store_vault i vault s =
      leave i (ok tt) (record s { shared = record s.shared { cache = some vault } })

  unfoldable pub serve_or_refuse : ℕ → ClientError → ℕ → Tasks → Tasks
  unfolding leave
  serve_or_refuse i error now s =
      let (served, shared) = serve_stale_after_error config error now s.shared in
      leave i (if served then ok tt else err error)
        (record s { shared = shared; times = record s.times { stale_at = now } })

  -- One step of one task.
  pub data Step : Tasks → Tasks → Type 0 where
    calls : (s : Tasks) (i : ℕ) → s.task i ≡ idle → Step s (go i outside s)
    checks : (s : Tasks) (i now : ℕ) → s.task i ≡ outside → Step s (check_outside i now s)
    acquires : (s : Tasks) (i : ℕ) → s.task i ≡ queued → s.lock ≡ none → Step s (acquire i s)
    rechecks : (s : Tasks) (i now : ℕ) → s.task i ≡ holding → Step s (recheck_under_lock i now s)
    decides : (s : Tasks) (i now : ℕ) → s.task i ≡ deciding → Step s (decide_to_fetch i now s)
    receives :
        (s : Tasks) (i : ℕ) (fetched : Fetched) (now unix_now : ℕ)
        → s.task i ≡ fetching
        → Step s (receive i fetched now unix_now s)
    stores :
        (s : Tasks) (i : ℕ) (vault : CachedVault)
        → s.task i ≡ storing vault
        → Step s (store_vault i vault s)
    refuses :
        (s : Tasks) (i : ℕ) (error : ClientError) (now : ℕ)
        → s.task i ≡ refusing error
        → Step s (serve_or_refuse i error now s)

  -- Any order of the steps of any tasks.
  pub data Reach (s : Tasks) : Tasks → Type 0 where
    here : Reach s s
    next : {t u : Tasks} → Reach s t → Step t u → Reach s u

-- No task has called, and the lock is free.
abbrev pub idle_tasks : ClientState → Readings → Fetched → Tasks
idle_tasks shared times fetched = record {
  shared = shared;
  lock = none;
  task = λ i. idle;
  entered = shared;
  times = times;
  fetched = fetched;
  turns = [];
}
