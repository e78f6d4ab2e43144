-- ===== src/Reloading.antt =====
-- The reload tasks of crates/vaultwarden-eso-provider/src/main.rs: `spawn_policy_reload` and
-- `spawn_auth_policy_reload`, and the gauges that `main` seeds before them.
pub mod Gauges
pub mod Shutdown
pub mod Policies
use vaultwarden_eso_provider.Prelude.{
  ℕ, ◌+◌, Bool, true, false, not, ◌||◌, Option, none, some, List, [], ◌∷◌, Result, ok, err, ◌==◌,
  if◌then◌else◌, length,
}
use vaultwarden_eso_provider.Text.{Text, codes}
use vaultwarden_eso_provider.Primitives.{Primitives}
use vaultwarden_eso_provider.Policy.{
  Files, SelectorPolicy, PolicyError, PolicyRules, reload, counts, has_file,
}
use vaultwarden_eso_provider.Auth.{ScopedAuthRules}
use vaultwarden_eso_provider.Auth.Config.{RawAuthPolicy, AuthError, reload_scoped}
use vaultwarden_eso_provider.Metrics.{
  Floats, AppMetrics, record_policy_reload, record_auth_policy_reload, record_policy_baseline,
  record_auth_policy_baseline,
}

-- What the `select!` of the loop returns: a tick, with what the sources hold, whether the process
-- is still ready, and the clock behind the reload; or the shutdown.
pub data Wake (W : Type 0) : Type 0 where
  ticked : (sources : W) → (is_ready : Bool) → (now : ℕ) → Wake W
  shutdown : Wake W

unfoldable pub outcome_of {ℓ} : {E : Type ℓ} → Result E Bool → Text
outcome_of (ok true) = codes "success"
outcome_of (ok false) = codes "unchanged"
outcome_of (err error) = codes "failure"

-- The policy that is served, and the registry.
pub record Served (f : Floats) (P : Type 0) : Type 0 where
  pub policy : P
  pub metrics : AppMetrics f

-- The loop of both tasks, which differ in the reload, the counts and the metric.
module _ (f : Floats) {W P E : Type 0} (reload_from : W → P → Result E Bool × P)
    (counts_of : P → ℕ × ℕ) (record_reload : Text → ℕ × ℕ → ℕ → AppMetrics f → AppMetrics f) where
  -- One cycle, behind the checks.
  unfoldable pub reload_cycle : W → ℕ → Served f P → Served f P
  unfolding outcome_of
  reload_cycle sources now s =
      let (outcome, policy) = reload_from sources s.policy in
      record {
        policy = policy;
        metrics = record_reload (outcome_of outcome) (counts_of policy) now s.metrics;
      }

  -- The loop, along what it is woken by, and whether it has ended.
  unfoldable pub reload_loop : List (Wake W) → Served f P → Bool × Served f P
  unfolding reload_cycle
  reload_loop [] s = (false, s)
  reload_loop (shutdown ∷ wakes) s = (true, s)
  reload_loop (ticked sources is_ready now ∷ wakes) s =
      let rest = reload_loop wakes (reload_cycle sources now s) in
      if not is_ready then (true, s) else rest

-- `ScopedAuthRules::counts`.
unfoldable pub token_count : ScopedAuthRules → ℕ
token_count [] = 0
token_count (capability ∷ capabilities) = length capability.tokens + token_count capabilities

unfoldable pub scoped_counts : ScopedAuthRules → ℕ × ℕ
unfolding token_count
scoped_counts capabilities = (length capabilities, token_count capabilities)

module _ (f : Floats) where
  -- The counts that `main` seeds where the policy has a file.
  unfoldable pub seed_policy_gauges : ℕ → Served f SelectorPolicy → Served f SelectorPolicy
  seed_policy_gauges now s =
      if has_file s.policy.sources
      then record s { metrics = record_policy_baseline f (counts s.policy.rules) now s.metrics }
      else s

  unfoldable pub policy_loop :
      List (Wake Files) → Served f SelectorPolicy → Bool × Served f SelectorPolicy
  unfolding reload_loop
  policy_loop =
      reload_loop f (λ files policy. reload files policy) (λ policy. counts policy.rules)
        (record_policy_reload f)

  -- `spawn_policy_reload`: no task, or its loop.
  unfoldable pub spawn_policy_reload :
      ℕ → List (Wake Files) → Served f SelectorPolicy → Option Bool × Served f SelectorPolicy
  unfolding policy_loop
  spawn_policy_reload interval_seconds wakes s =
      let (ended, s') = policy_loop wakes s in
      if not (has_file s.policy.sources) || interval_seconds == 0
      then (none, s)
      else (some ended, s')

  -- The selector policy from its seeding on, as `main` runs it.
  unfoldable pub serve_policy :
      ℕ → ℕ → List (Wake Files) → Served f SelectorPolicy → Option Bool × Served f SelectorPolicy
  unfolding spawn_policy_reload seed_policy_gauges
  serve_policy interval_seconds now wakes s =
      spawn_policy_reload interval_seconds wakes (seed_policy_gauges now s)

  module _ (p : Primitives) (from_str : Text → Option RawAuthPolicy) (path : Text) where
    unfoldable pub auth_loop :
        List (Wake Files) → Served f ScopedAuthRules → Bool × Served f ScopedAuthRules
    unfolding reload_loop
    auth_loop =
        reload_loop f (λ files rules. reload_scoped p from_str files path rules) scoped_counts
          (record_auth_policy_reload f)

    -- `spawn_auth_policy_reload`.
    unfoldable pub spawn_auth_policy_reload :
        ℕ → List (Wake Files) → Served f ScopedAuthRules → Option Bool × Served f ScopedAuthRules
    unfolding auth_loop
    spawn_auth_policy_reload interval_seconds wakes s =
        let (ended, s') = auth_loop wakes s in
        if interval_seconds == 0 then (none, s) else (some ended, s')

    -- The scoped policy from its seeding on, as `main` runs it.
    unfoldable pub serve_auth_policy :
        ℕ
        → ℕ
        → List (Wake Files)
        → Served f ScopedAuthRules
        → Option Bool × Served f ScopedAuthRules
    unfolding spawn_auth_policy_reload
    serve_auth_policy interval_seconds now wakes s =
        spawn_auth_policy_reload interval_seconds wakes (record s {
          metrics = record_auth_policy_baseline f (scoped_counts s.policy) now s.metrics;
        })
