-- ===== src/Cache/Tasks/Waiting.antt =====
-- The calls of `ensure_fresh_cached_sync` that wait for the refresh lock, and how they return.
use vaultwarden_eso_provider.Prelude.{
  ℕ, ◌≡◌, ◌≢◌, refl, ap, subst, ◌∙◌, none, Result, ok, err, arith, Bool-cases, inl, inr,
}
use vaultwarden_eso_provider.Errors.{ClientError, api, http, refresh_throttled}
use vaultwarden_eso_provider.Cache.{
  CachedVault, CacheConfig, ClientState, Readings, reuse_cached_sync_if_available,
}
use vaultwarden_eso_provider.Cache.Tasks.{
  Task, idle, outside, queued, holding, deciding, fetching, storing, refusing, returned, Tasks,
  update, go, leave, acquire, recheck_under_lock, decide_to_fetch, receive, store_vault,
  serve_or_refuse, acquires, rechecks, decides, receives, stores, refuses, Reach, next,
}
use vaultwarden_eso_provider.Cache.Tasks.Section.{is_throttled}
use vaultwarden_eso_provider.Cache.Tasks.Invariant.{Progress}

pub update-same : (task : ℕ → Task) (i : ℕ) (t : Task) → update task i t i ≡ t
update-same task i t = ground arith

update-other : (task : ℕ → Task) (i : ℕ) (t : Task) (j : ℕ) → i ≢ j → update task i t j ≡ task j
update-other task i t j h = ground arith

module _ (config : CacheConfig) (start : Tasks) where
  -- A later state in which a task has returned.
  pub record Returns (i : ℕ) : Type 0 where
    pub later : Tasks
    pub reached : Reach config start later
    pub answer : Result ClientError (Unit {0})
    pub answered : later.task i ≡ returned answer

  -- One in which the lock is free too, and no other task has moved.
  pub record Frees (k : ℕ) (s : Tasks) : Type 0 where
    pub returns : Returns k
    pub free : returns.later.lock ≡ none
    pub others : (j : ℕ) → k ≢ j → returns.later.task j ≡ s.task j

  module _ (k : ℕ) where
    leave-Frees :
        (s : Tasks) (answer : Result ClientError (Unit {0})) (shared : ClientState)
        (times : Readings)
        → Reach config start (leave k answer (record s { shared = shared; times = times }))
        → Frees k s
    unfolding leave
    leave-Frees s answer shared times reached = record {
      returns = record {
        later = _;
        reached = reached;
        answer = answer;
        answered = update-same s.task k (returned answer);
      };
      free = refl;
      others = update-other s.task k (returned answer);
    }

    go-Frees :
        (s : Tasks) (t : Task) (s' : Tasks) → s'.task ≡ s.task → Frees k (go k t s') → Frees k s
    unfolding go
    go-Frees s t s' same frees = record {
      returns = frees.returns;
      free = frees.free;
      others = λ j h. frees.others j h ∙ update-other s'.task k t j h ∙ ap (λ f. f j) same;
    }

    refusing-Frees :
        (s : Tasks) (error : ClientError)
        → Reach config start s
        → s.task k ≡ refusing error
        → Frees k s
    unfolding serve_or_refuse
    refusing-Frees s error reached at = leave-Frees s _ _ _ (next reached (refuses s k error 0 at))

    storing-Frees :
        (s : Tasks) (vault : CachedVault)
        → Reach config start s
        → s.task k ≡ storing vault
        → Frees k s
    unfolding store_vault
    storing-Frees s vault reached at =
        leave-Frees s _ _ s.times (next reached (stores s k vault at))

    fetching-Frees : (s : Tasks) → Reach config start s → s.task k ≡ fetching → Frees k s
    unfolding receive go
    fetching-Frees s reached at = go-Frees s (refusing (api http)) _ refl (
        refusing-Frees (receive config k (err (api http)) 0 0 s) (api http)
          (next reached (receives s k (err (api http)) 0 0 at))
          (update-same s.task k (refusing (api http))))

    deciding-Frees : (s : Tasks) → Reach config start s → s.task k ≡ deciding → Frees k s
    unfolding decide_to_fetch go
    deciding-Frees s reached at =
        let s' : Tasks = record s { times = record s.times { throttle = 0 } } in
        let stepped : Reach config start (decide_to_fetch config k 0 s) =
          next reached (decides s k 0 at) in
        elim (Bool-cases (is_throttled config s.shared.retry_after 0)) [
          | inl throttled ↦
              leave-Frees s (err (api refresh_throttled)) s.shared s'.times
                (subst (Reach config start) (rw throttled refl) stepped)
          | inr open' ↦ go-Frees s fetching s' refl (
              fetching-Frees (go k fetching s') (subst (Reach config start) (rw open' refl) stepped)
                (update-same s.task k fetching))
        ]

    holding-Frees : (s : Tasks) → Reach config start s → s.task k ≡ holding → Frees k s
    unfolding recheck_under_lock go
    holding-Frees s reached at =
        let shared = (reuse_cached_sync_if_available config 0 s.shared).1 in
        let times : Readings = record s.times { recheck = 0 } in
        let s' : Tasks = record s { shared = shared; times = times } in
        let stepped : Reach config start (recheck_under_lock config k 0 s) =
          next reached (rechecks s k 0 at) in
        elim (Bool-cases (reuse_cached_sync_if_available config 0 s.shared).0) [
          | inl reused ↦
              leave-Frees s (ok tt) shared times
                (subst (Reach config start) (rw reused refl) stepped)
          | inr due ↦ go-Frees s deciding s' refl (
              deciding-Frees (go k deciding s') (subst (Reach config start) (rw due refl) stepped)
                (update-same s.task k deciding))
        ]

    -- The task that holds the lock.
    pub owner-Frees :
        (s : Tasks) (t : Task)
        → Reach config start s
        → s.task k ≡ t
        → Progress config t s.shared s.entered s.times s.fetched
        → Frees k s
    owner-Frees s holding reached at h = holding-Frees s reached at
    owner-Frees s deciding reached at h = deciding-Frees s reached at
    owner-Frees s fetching reached at h = fetching-Frees s reached at
    owner-Frees s (storing vault) reached at h = storing-Frees s vault reached at
    owner-Frees s (refusing error) reached at h = refusing-Frees s error reached at
    owner-Frees s idle reached at h = absurd h
    owner-Frees s outside reached at h = absurd h
    owner-Frees s queued reached at h = absurd h
    owner-Frees s (returned answer) reached at h = absurd h

    pub queued-Returns :
        (s : Tasks) → Reach config start s → s.lock ≡ none → s.task k ≡ queued → Returns k
    unfolding acquire
    queued-Returns s reached open' at =
        (holding-Frees (acquire config k s) (next reached (acquires s k at open'))
          (update-same s.task k holding)).returns
