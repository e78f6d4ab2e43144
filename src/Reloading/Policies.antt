-- ===== src/Reloading/Policies.antt =====
-- The policies as `main` serves them: seeded, then reloaded by their tasks.
use vaultwarden_eso_provider.Prelude.{
  ℕ, ◌+◌, ◌%◌, ◌^◌, ◌≡◌, Option, take, refl, sym, subst, true, false, List, Result, ok, err, arith,
  is_some, Bool-cases, inl, inr, if◌then◌else◌, ◌==◌, >>=-eq-ok, ok_or, bail_if, ltb, length,
}
use vaultwarden_eso_provider.Text.{Text}
use vaultwarden_eso_provider.Primitives.{Primitives}
use vaultwarden_eso_provider.Utf8.{from_utf8}
use vaultwarden_eso_provider.Policy.{Files, SelectorPolicy, reload, counts, has_file}
use vaultwarden_eso_provider.Policy.Reload.{IsRestricted, reload-IsRestricted}
use vaultwarden_eso_provider.Auth.{ScopedAuthRules}
use vaultwarden_eso_provider.Auth.Config.{
  RawAuthPolicy, AuthError, open_failed, read_failed, file_too_large, invalid_json,
  max_auth_policy_file_bytes, rules_from, read_scoped_rules, reload_scoped, swap_capabilities,
  capabilities_eq,
}
use vaultwarden_eso_provider.Metrics.{
  Floats, AppMetrics, PolicyMetrics, count_reload, seed_baseline, record_update,
  record_policy_reload, record_policy_baseline, record_auth_policy_reload,
  record_auth_policy_baseline,
}
use vaultwarden_eso_provider.Reloading.{
  Wake, Served, policy_loop, seed_policy_gauges, spawn_policy_reload, serve_policy, scoped_counts,
  auth_loop, spawn_auth_policy_reload, serve_auth_policy,
}
use vaultwarden_eso_provider.Reloading.Gauges.{
  IsShown, reload_loop-IsShown, counted_cycles, reload_count,
}

-- The rules are those of a file that was accepted.
abbrev pub IsAccepted : Primitives → ScopedAuthRules → Type 0
IsAccepted p rules = (raw : RawAuthPolicy) × (rules_from p raw ≡ ok rules)

module _ (f : Floats) where
  abbrev pub policy_view : AppMetrics f → PolicyMetrics
  policy_view m = m.inner.policy

  abbrev pub auth_policy_view : AppMetrics f → PolicyMetrics
  auth_policy_view m = m.inner.auth_policy

  policy_records :
      (outcome : Text) (active : ℕ × ℕ) (now : ℕ) (m : AppMetrics f)
      → m.is_poisoned ≡ false
      → ((record_policy_reload f outcome active now m).is_poisoned ≡ false)
        × (policy_view (record_policy_reload f outcome active now m)
            ≡ count_reload outcome active now (policy_view m))
  unfolding record_policy_reload record_update
  policy_records outcome active now m h = rw h (refl, refl)

  auth_policy_records :
      (outcome : Text) (active : ℕ × ℕ) (now : ℕ) (m : AppMetrics f)
      → m.is_poisoned ≡ false
      → ((record_auth_policy_reload f outcome active now m).is_poisoned ≡ false)
        × (auth_policy_view (record_auth_policy_reload f outcome active now m)
            ≡ count_reload outcome active now (auth_policy_view m))
  unfolding record_auth_policy_reload record_update
  auth_policy_records outcome active now m h = rw h (refl, refl)

  seeded-dated :
      (active : ℕ × ℕ) (now : ℕ) (m : PolicyMetrics)
      → is_some (seed_baseline active now m).last_success ≡ true
  unfolding seed_baseline
  seeded-dated active now m = elim (Bool-cases (is_some m.last_success)) [
    | inl old ↦ rw old old
    | inr new ↦ rw new
  ]

  abbrev pub PolicyIsShown : Served f SelectorPolicy → Type 0
  PolicyIsShown = IsShown f (λ policy. counts policy.rules) policy_view

  abbrev pub AuthPolicyIsShown : Served f ScopedAuthRules → Type 0
  AuthPolicyIsShown = IsShown f scoped_counts auth_policy_view

  seed_policy_gauges-IsShown :
      (now : ℕ) (s : Served f SelectorPolicy)
      → s.metrics.is_poisoned ≡ false
      → has_file s.policy.sources ≡ true
      → PolicyIsShown (seed_policy_gauges f now s)
        × ((seed_policy_gauges f now s).policy ≡ s.policy)
        × (counted_cycles (policy_view (seed_policy_gauges f now s).metrics)
            ≡ counted_cycles (policy_view s.metrics))
  unfolding seed_policy_gauges record_policy_baseline record_update seed_baseline
  seed_policy_gauges-IsShown now s unpoisoned file =
      rw (file, unpoisoned)
        (
          record {
            unpoisoned = refl;
            active = refl;
            dated = seeded-dated (counts s.policy.rules) now (policy_view s.metrics);
          },
          refl,
          refl,
        )

  -- Where the selector policy has a file, its gauges show the policy that is served, after any
  -- wakes of its task and also where there is no task; the policy stays restricted, and the
  -- counters of the reloads grow by the number of reloads.
  pub serve_policy-IsShown :
      (interval_seconds now : ℕ) (wakes : List (Wake Files)) (s : Served f SelectorPolicy)
      → s.metrics.is_poisoned ≡ false
      → has_file s.policy.sources ≡ true
      → IsRestricted s.policy
      → let s' = (serve_policy f interval_seconds now wakes s).1 in
        PolicyIsShown s'
        × IsRestricted s'.policy
        × (counted_cycles (policy_view s'.metrics) % 2 ^ 64
            ≡ (counted_cycles (policy_view s.metrics)
                + (if interval_seconds == 0 then 0 else reload_count wakes))
              % 2 ^ 64)
  unfolding serve_policy spawn_policy_reload policy_loop
  serve_policy-IsShown interval_seconds now wakes s unpoisoned file restricted =
      let seeded = seed_policy_gauges f now s in
      let (shown, kept, counted) = seed_policy_gauges-IsShown now s unpoisoned file in
      let restricted' : IsRestricted seeded.policy = subst IsRestricted (sym kept) restricted in
      let file' : has_file seeded.policy.sources ≡ true = rw kept file in
      elim (Bool-cases (interval_seconds == 0)) [
        | inl fixed ↦ rw (file', fixed) (shown, restricted', omega arith)
        | inr reloads ↦
            let (shown', restricted'', grown) =
              reload_loop-IsShown f (λ policy. counts policy.rules) policy_view
                (λ files policy. reload files policy) (record_policy_reload f) policy_records
                IsRestricted (λ files policy. reload-IsRestricted files policy) wakes seeded shown
                restricted' in
            rw (file', reloads) (shown', restricted'', omega arith)
      ]

  module _ (p : Primitives) (from_str : Text → Option RawAuthPolicy) (path : Text) where
    read_scoped_rules-IsAccepted :
        (files : Files) (rules : ScopedAuthRules)
        → read_scoped_rules p from_str files path ≡ ok rules
        → IsAccepted p rules
    unfolding read_scoped_rules
    read_scoped_rules-IsAccepted files rules h =
        let (bytes, _, h₁) = >>=-eq-ok (ok_or open_failed (files path)) _ h in
        let head = take (max_auth_policy_file_bytes + 1) bytes in
        let (contents, _, h₂) = >>=-eq-ok (ok_or read_failed (from_utf8 head)) _ h₁ in
        let (_, _, h₃) =
          >>=-eq-ok (bail_if (ltb max_auth_policy_file_bytes (length head)) file_too_large) _ h₂ in
        let (raw, _, h₄) = >>=-eq-ok (ok_or invalid_json (from_str contents)) _ h₃ in (raw, h₄)

    swap_capabilities-IsAccepted :
        (current : ScopedAuthRules) (next : Result AuthError ScopedAuthRules)
        → IsAccepted p current
        → ((rules : ScopedAuthRules) → next ≡ ok rules → IsAccepted p rules)
        → IsAccepted p (swap_capabilities current next).1
    unfolding swap_capabilities
    swap_capabilities-IsAccepted current (err e) accepted h = accepted
    swap_capabilities-IsAccepted current (ok next) accepted h =
        elim (Bool-cases (capabilities_eq current next)) [
          | inl same ↦ rw same accepted
          | inr changed ↦ rw changed (h next refl)
        ]

    reload_scoped-IsAccepted :
        (files : Files) (rules : ScopedAuthRules)
        → IsAccepted p rules
        → IsAccepted p (reload_scoped p from_str files path rules).1
    unfolding reload_scoped
    reload_scoped-IsAccepted files rules accepted =
        swap_capabilities-IsAccepted rules (read_scoped_rules p from_str files path) accepted
          (read_scoped_rules-IsAccepted files)

    seed_auth-IsShown :
        (now : ℕ) (s : Served f ScopedAuthRules)
        → s.metrics.is_poisoned ≡ false
        → let m = record_auth_policy_baseline f (scoped_counts s.policy) now s.metrics in
          AuthPolicyIsShown (record s { metrics = m })
          × (counted_cycles (auth_policy_view m) ≡ counted_cycles (auth_policy_view s.metrics))
    unfolding record_auth_policy_baseline record_update seed_baseline
    seed_auth-IsShown now s unpoisoned = rw unpoisoned (
      record {
        unpoisoned = refl;
        active = refl;
        dated = seeded-dated (scoped_counts s.policy) now (auth_policy_view s.metrics);
      },
      refl,
    )

    -- The gauges of the scoped policy show the capabilities and tokens that are served, after any
    -- wakes of its task and also where there is no task; those come from a file that was accepted,
    -- and the counters of the reloads grow by the number of reloads.
    pub serve_auth_policy-IsShown :
        (interval_seconds now : ℕ) (wakes : List (Wake Files)) (s : Served f ScopedAuthRules)
        → s.metrics.is_poisoned ≡ false
        → IsAccepted p s.policy
        → let s' = (serve_auth_policy f p from_str path interval_seconds now wakes s).1 in
          AuthPolicyIsShown s'
          × IsAccepted p s'.policy
          × (counted_cycles (auth_policy_view s'.metrics) % 2 ^ 64
              ≡ (counted_cycles (auth_policy_view s.metrics)
                  + (if interval_seconds == 0 then 0 else reload_count wakes))
                % 2 ^ 64)
    unfolding serve_auth_policy spawn_auth_policy_reload auth_loop
    serve_auth_policy-IsShown interval_seconds now wakes s unpoisoned accepted =
        let seeded : Served f ScopedAuthRules = record s {
          metrics = record_auth_policy_baseline f (scoped_counts s.policy) now s.metrics;
        } in
        let (shown, counted) = seed_auth-IsShown now s unpoisoned in
        elim (Bool-cases (interval_seconds == 0)) [
          | inl fixed ↦ rw fixed (shown, accepted, omega arith)
          | inr reloads ↦
              let (shown', accepted', grown) =
                reload_loop-IsShown f scoped_counts auth_policy_view
                  (λ files rules. reload_scoped p from_str files path rules)
                  (record_auth_policy_reload f) auth_policy_records (IsAccepted p)
                  reload_scoped-IsAccepted wakes seeded shown accepted in
              rw reloads (shown', accepted', omega arith)
        ]
