-- ===== src/Tests/Tasks.antt =====
-- Witnesses on several calls of `ensure_fresh_cached_sync` at once.
use vaultwarden_eso_provider.Prelude.{◌≡◌, ◌≢◌, refl, false, none, ok, arith}
use vaultwarden_eso_provider.Cache.{
  ClientState, Fetched, from_secs, new_cached_vault, is_fresh_at, token_is_current, reuse_vault,
  reuse_cached_sync_if_available,
}
use vaultwarden_eso_provider.Cache.Tasks.{
  idle, outside, queued, Tasks, go, leave, check_outside, acquire, recheck_under_lock,
  decide_to_fetch, receive, store_vault, calls, checks, acquires, rechecks, decides, receives,
  stores, Reach, here, next, idle_tasks,
}
use vaultwarden_eso_provider.Cache.Tasks.Section.{core}
use vaultwarden_eso_provider.Cache.Tasks.Invariant.{holds_lock, core_behind, IsSerial}
use vaultwarden_eso_provider.Cache.Tasks.Serial.{Reach-IsSerial, holds_lock_alone}
use vaultwarden_eso_provider.Cache.Tasks.Waiting.{Returns}
use vaultwarden_eso_provider.Cache.Tasks.Returning.{Reach-Returns}
use vaultwarden_eso_provider.Tests.Samples.{vault}
use vaultwarden_eso_provider.Tests.Cache.{config, session, counters, early}

abbrev cold : ClientState
cold = record { cache = none; retry_after = none; metrics = counters }

abbrev at_first : Fetched
at_first = ok (session, vault)

abbrev start : Tasks
start = idle_tasks cold early at_first

-- Two tasks miss the cold cache, and the first one takes the lock.
abbrev locked : Tasks
locked = acquire config 0 (
    check_outside config 1 (from_secs 101)
      (check_outside config 0 (from_secs 100) (go 1 outside (go 0 outside start))))

-- It fetches the vault, and the second one, under the lock, finds it.
abbrev fetched : Tasks
fetched = store_vault config 0 (new_cached_vault session vault (from_secs 110)) (
    receive config 0 at_first (from_secs 110) 5 (
      decide_to_fetch config 0 (from_secs 103)
        (recheck_under_lock config 0 (from_secs 102) locked)))

abbrev reused : Tasks
reused = recheck_under_lock config 1 (from_secs 111) (acquire config 1 fetched)

locked-Reach : Reach config start locked
unfolding go check_outside acquire reuse_cached_sync_if_available reuse_vault
locked-Reach =
    next
      (next
        (next (next (next here (calls _ 0 refl)) (calls _ 1 refl))
          (checks _ 0 (from_secs 100) refl))
        (checks _ 1 (from_secs 101) refl))
      (acquires _ 0 refl refl)

reused-Reach : Reach config start reused
unfolding go leave check_outside acquire recheck_under_lock decide_to_fetch receive store_vault
    reuse_cached_sync_if_available reuse_vault is_fresh_at token_is_current
reused-Reach =
    let fetching =
      next
        (next
          (next (next locked-Reach (rechecks _ 0 (from_secs 102) refl))
            (decides _ 0 (from_secs 103) refl))
          (receives _ 0 at_first (from_secs 110) 5 refl))
        (stores _ 0 (new_cached_vault session vault (from_secs 110)) refl) in
    next (next fetching (acquires _ 1 refl refl)) (rechecks _ 1 (from_secs 111) refl)

Reach-IsSerial_example :
    IsSerial config cold reused.turns
    × (reused.lock ≡ none → core reused.shared ≡ core_behind config cold reused.turns)
Reach-IsSerial_example = Reach-IsSerial config cold early at_first reused reused-Reach

holds_lock_alone_example : holds_lock (locked.task 1) ≡ false
unfolding holds_lock acquire
holds_lock_alone_example =
    holds_lock_alone config cold early at_first locked locked-Reach 0 1 (omega arith) refl

queued_called : queued ≢ idle
queued_called = λ e. cc

Reach-Returns_example : Returns config locked 1
unfolding go check_outside acquire reuse_cached_sync_if_available reuse_vault
Reach-Returns_example = Reach-Returns config cold early at_first locked locked-Reach 1 queued_called
