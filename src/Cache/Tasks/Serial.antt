-- ===== src/Cache/Tasks/Serial.antt =====
-- Every order of the steps of several calls of `ensure_fresh_cached_sync`, against one call after the
-- other.
use vaultwarden_eso_provider.Prelude.{ℕ, ◌≡◌, ◌≢◌, refl, true, false, none, Bool-cases, inl, inr}
use vaultwarden_eso_provider.Cache.{CacheConfig, ClientState, Readings, Fetched}
use vaultwarden_eso_provider.Cache.Tasks.{Tasks, Reach, here, next, idle_tasks}
use vaultwarden_eso_provider.Cache.Tasks.Section.{core}
use vaultwarden_eso_provider.Cache.Tasks.Invariant.{holds_lock, core_behind, IsSerial, IsOrderly}
use vaultwarden_eso_provider.Cache.Tasks.Steps.{Step-IsOrderly}

module _ (config : CacheConfig) where
  idle_tasks-IsOrderly :
      (start : ClientState) (times : Readings) (fetched : Fetched)
      → IsOrderly config start (idle_tasks start times fetched)
  unfolding holds_lock
  idle_tasks-IsOrderly start times fetched = record {
    owner = λ i h. cc;
    progress = λ i h. cc;
    entry = λ i h. refl;
    free = λ h. refl;
    serial = tt;
  }

  pub Reach-IsOrderly :
      (start : ClientState) (times : Readings) (fetched : Fetched) (s : Tasks)
      → Reach config (idle_tasks start times fetched) s
      → IsOrderly config start s
  Reach-IsOrderly start times fetched _ here = idle_tasks-IsOrderly start times fetched
  Reach-IsOrderly start times fetched t (next {t = s} reached step) =
      Step-IsOrderly config start s t (Reach-IsOrderly start times fetched s reached) step

  module _ (start : ClientState) (times : Readings) (fetched : Fetched) (s : Tasks)
      (reached : Reach config (idle_tasks start times fetched) s) where
    -- However the steps of any tasks are ordered, the turns under the refresh lock are calls of
    -- `refresh_locked` one after the other: each gives its answer, the cache and the cooldown that
    -- the call gives at the state the turn found, with the readings and the fetch of that turn, and
    -- it found the cache and the cooldown that the turn before it left, the first one those at the
    -- start. While no task holds the lock, the cache and the cooldown are those that the last turn left.
    pub Reach-IsSerial :
        IsSerial config start s.turns
        × (s.lock ≡ none → core s.shared ≡ core_behind config start s.turns)
    Reach-IsSerial =
        let orderly = Reach-IsOrderly start times fetched s reached in
        (orderly.serial, orderly.free)

    -- However the steps of any tasks are ordered, while a task is between taking the refresh lock and
    -- its return, no other task is: the vault is fetched by one task at a time.
    pub holds_lock_alone :
        (i j : ℕ) → i ≢ j → holds_lock (s.task i) ≡ true → holds_lock (s.task j) ≡ false
    holds_lock_alone i j different at_i =
        let orderly = Reach-IsOrderly start times fetched s reached in
        let held_i = orderly.owner i at_i in
        elim (Bool-cases (holds_lock (s.task j))) [
          | inl at_j ↦ let held_j = orderly.owner j at_j in absurd (different cc)
          | inr free ↦ free
        ]
