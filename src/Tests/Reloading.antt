-- ===== src/Tests/Reloading.antt =====
-- Witnesses on the reload tasks.
use vaultwarden_eso_provider.Prelude.{
  ◌+◌, ◌%◌, ◌^◌, ◌≡◌, refl, true, false, some, none, List, [], ◌∷◌, ◌++◌, ◌==◌, if◌then◌else◌,
}
use vaultwarden_eso_provider.Text.{codes}
use vaultwarden_eso_provider.Policy.{Files, SelectorPolicy, counts, reload, has_file}
use vaultwarden_eso_provider.Policy.Reload.{IsRestricted}
use vaultwarden_eso_provider.Auth.{ScopedAuthRules}
use vaultwarden_eso_provider.Metrics.{AppMetrics, new_metrics, record_policy_reload}
use vaultwarden_eso_provider.Reloading.{
  Wake, ticked, Served, reload_loop, serve_policy, serve_auth_policy,
}
use vaultwarden_eso_provider.Reloading.Gauges.{counted_cycles, reload_count}
use vaultwarden_eso_provider.Reloading.Shutdown.{cycles, reload_loop-ends}
use vaultwarden_eso_provider.Reloading.Policies.{
  IsAccepted, PolicyIsShown, AuthPolicyIsShown, policy_view, auth_policy_view, serve_policy-IsShown,
  serve_auth_policy-IsShown,
}
use vaultwarden_eso_provider.Tests.Samples.{toy}
use vaultwarden_eso_provider.Tests.Metrics.{nanoseconds}
use vaultwarden_eso_provider.Tests.Provider.{
  files, policy, policy-IsRestricted, raw_policy, scoped_rules, accepted,
}

-- The files are there at the first tick, and gone at the second one.
abbrev wakes : List (Wake Files)
wakes = ticked files true 5 ∷ ticked (λ path. none) true 6 ∷ []

abbrev metrics : AppMetrics nanoseconds
metrics = new_metrics nanoseconds 0 0

abbrev served : Served nanoseconds SelectorPolicy
served = record { policy = policy; metrics = metrics }

serve_policy-IsShown_example :
    let s' = (serve_policy nanoseconds 30 4 wakes served).1 in
    PolicyIsShown nanoseconds s'
    × IsRestricted s'.policy
    × (counted_cycles (policy_view nanoseconds s'.metrics) % 2 ^ 64
        ≡ (counted_cycles (policy_view nanoseconds metrics)
            + (if 30 == 0 then 0 else reload_count wakes))
          % 2 ^ 64)
unfolding new_metrics has_file
serve_policy-IsShown_example =
    serve_policy-IsShown nanoseconds 30 4 wakes served refl refl policy-IsRestricted

abbrev auth_served : Served nanoseconds ScopedAuthRules
auth_served = record { policy = scoped_rules; metrics = metrics }

serve_auth_policy-IsShown_example :
    let s' =
      (serve_auth_policy nanoseconds toy
        (λ s. some raw_policy)
        (codes "auth")
        30
        4
        wakes
        auth_served).1 in
    AuthPolicyIsShown nanoseconds s'
    × IsAccepted toy s'.policy
    × (counted_cycles (auth_policy_view nanoseconds s'.metrics) % 2 ^ 64
        ≡ (counted_cycles (auth_policy_view nanoseconds metrics)
            + (if 30 == 0 then 0 else reload_count wakes))
          % 2 ^ 64)
unfolding new_metrics
serve_auth_policy-IsShown_example =
    serve_auth_policy-IsShown nanoseconds toy (λ s. some raw_policy) (codes "auth") 30 4 wakes
      auth_served refl (raw_policy, accepted)

reload_loop-ends_example :
    reload_loop nanoseconds
      (λ (files' : Files) (policy' : SelectorPolicy). reload files' policy')
      (λ policy'. counts policy'.rules)
      (record_policy_reload nanoseconds)
      (wakes ++ ticked files false 7 ∷ ticked files true 8 ∷ [])
      served
    ≡ (
      true,
      cycles nanoseconds
          (λ (files' : Files) (policy' : SelectorPolicy). reload files' policy')
          (λ policy'. counts policy'.rules)
          (record_policy_reload nanoseconds)
          wakes
          served,
    )
reload_loop-ends_example =
    reload_loop-ends nanoseconds (λ files' policy'. reload files' policy')
      (λ policy'. counts policy'.rules) (record_policy_reload nanoseconds) wakes
      (ticked files false 7) (ticked files true 8 ∷ []) served (refl, (refl, tt)) refl
