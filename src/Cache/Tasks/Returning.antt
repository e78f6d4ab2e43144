-- ===== src/Cache/Tasks/Returning.antt =====
-- Every call of `ensure_fresh_cached_sync` can return, whatever the other calls are doing.
use vaultwarden_eso_provider.Prelude.{
  ℕ, ◌≡◌, ◌≢◌, refl, ap, subst, ◌∙◌, true, Option, none, some, ok, Bool-cases, inl, inr,
}
use vaultwarden_eso_provider.Cache.{
  CacheConfig, ClientState, Readings, Fetched, reuse_cached_sync_if_available,
}
use vaultwarden_eso_provider.Cache.Tasks.{
  Task, idle, outside, queued, holding, deciding, fetching, storing, refusing, returned, Tasks, go,
  check_outside, checks, Reach, here, next, idle_tasks,
}
use vaultwarden_eso_provider.Cache.Tasks.Invariant.{Progress, holds_lock, IsOrderly}
use vaultwarden_eso_provider.Cache.Tasks.Steps.{Step-IsOrderly}
use vaultwarden_eso_provider.Cache.Tasks.Serial.{Reach-IsOrderly}
use vaultwarden_eso_provider.Cache.Tasks.Waiting.{
  Returns, Frees, owner-Frees, queued-Returns, update-same,
}

module _ (config : CacheConfig) (from : ClientState) (start : Tasks) (i : ℕ) where
  queued_by_lock :
      (s : Tasks) (lock : Option ℕ)
      → IsOrderly config from s
      → Reach config start s
      → s.lock ≡ lock
      → s.task i ≡ queued
      → Returns config start i
  queued_by_lock s none orderly reached open' at = queued-Returns config start i s reached open' at
  queued_by_lock s (some k) orderly reached held at =
      let progress = orderly.progress k held in
      let frees : Frees config start k s =
        owner-Frees config start k s (s.task k) reached refl progress in
      let different : k ≢ i = λ e.
        subst (λ t. Progress config t s.shared s.entered s.times s.fetched) (ap s.task e ∙ at)
          progress in
      queued-Returns config start i frees.returns.later frees.returns.reached frees.free
        (frees.others i different ∙ at)

  outside-Returns :
      (s : Tasks)
      → IsOrderly config from s
      → Reach config start s
      → s.task i ≡ outside
      → Returns config start i
  unfolding check_outside go
  outside-Returns s orderly reached at =
      let t : Tasks = check_outside config i 0 s in
      let step = checks s i 0 at in
      let stepped : Reach config start t = next reached step in
      elim (Bool-cases (reuse_cached_sync_if_available config 0 s.shared).0) [
        | inl reused ↦ record {
          later = t;
          reached = stepped;
          answer = ok tt;
          answered = rw reused (update-same s.task i (returned (ok tt)));
        }
        | inr missed ↦
            queued_by_lock t s.lock (Step-IsOrderly config from s t orderly step) stepped refl
              (rw missed (update-same s.task i queued))
      ]

  owner-Returns :
      (s : Tasks)
      → IsOrderly config from s
      → Reach config start s
      → holds_lock (s.task i) ≡ true
      → Returns config start i
  owner-Returns s orderly reached holds =
      (owner-Frees config start i s (s.task i) reached refl
        (orderly.progress i (orderly.owner i holds))).returns

  called-Returns :
      (s : Tasks) (t : Task)
      → IsOrderly config from s
      → Reach config start s
      → s.task i ≡ t
      → t ≢ idle
      → Returns config start i
  unfolding holds_lock
  called-Returns s idle orderly reached at called = absurd (called refl)
  called-Returns s outside orderly reached at called = outside-Returns s orderly reached at
  called-Returns s queued orderly reached at called =
      queued_by_lock s s.lock orderly reached refl at
  called-Returns s (returned answer) orderly reached at called = record {
    later = s;
    reached = reached;
    answer = answer;
    answered = at;
  }
  called-Returns s holding orderly reached at called =
      owner-Returns s orderly reached (ap holds_lock at)
  called-Returns s deciding orderly reached at called =
      owner-Returns s orderly reached (ap holds_lock at)
  called-Returns s fetching orderly reached at called =
      owner-Returns s orderly reached (ap holds_lock at)
  called-Returns s (storing vault) orderly reached at called =
      owner-Returns s orderly reached (ap holds_lock at)
  called-Returns s (refusing error) orderly reached at called =
      owner-Returns s orderly reached (ap holds_lock at)

module _ (config : CacheConfig) (start : ClientState) (times : Readings) (fetched : Fetched) where
  -- In every state that tasks reach by any order of their steps, every task that has called can
  -- return, by further steps: no task waits for a lock that nobody can release.
  pub Reach-Returns :
      (s : Tasks)
      → Reach config (idle_tasks start times fetched) s
      → (i : ℕ) → s.task i ≢ idle
      → Returns config s i
  Reach-Returns s reached i called =
      called-Returns config start s i s (s.task i)
        (Reach-IsOrderly config start times fetched s reached) here refl called
