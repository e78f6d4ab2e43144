-- ===== src/Metrics/Sections.antt =====
-- The sections of the exposition that follow the requests: `render_policy_metrics`,
-- `render_auth_policy_metrics` and `render_cache_metrics`. Each returns what its namesake appends.
use vaultwarden_eso_provider.Prelude.{
  ℕ, String, Bool, not, ◌&&◌, Option, none, some, [], ◌∷◌, ◌++◌, if◌then◌else◌, is_empty, is_some,
  unwrap_or,
}
use vaultwarden_eso_provider.Text.{Text, codes}
use vaultwarden_eso_provider.Text.Decimal.{to_string}
use vaultwarden_eso_provider.TreeMap.{get, text_ord}
use vaultwarden_eso_provider.Cache.Counters.{CacheMetrics}
use vaultwarden_eso_provider.Metrics.{PolicyMetrics, unix_epoch, duration_since, as_secs}
use vaultwarden_eso_provider.Metrics.Labels.{append_line, append_labeled_metric}

-- The lines `# HELP` and `# TYPE` of a metric.
unfoldable pub append_heading : String → String → String → Text
unfolding append_line
append_heading name help kind =
    append_line (codes "# HELP " ++ codes name ++ codes " " ++ codes help)
    ++ append_line (codes "# TYPE " ++ codes name ++ codes " " ++ codes kind)

-- The line of a metric without labels.
unfoldable pub append_value : String → ℕ → Text
unfolding append_line to_string
append_value name value = append_line (codes name ++ codes " " ++ to_string value)

unfoldable pub append_gauge : String → String → ℕ → Text
unfolding append_heading append_value
append_gauge name help value = append_heading name help "gauge" ++ append_value name value

unfoldable pub append_optional_gauge : String → String → Option ℕ → Text
unfolding append_gauge
append_optional_gauge name help none = []
append_optional_gauge name help (some value) = append_gauge name help value

unfoldable pub append_outcome : String → String → ℕ → Text
unfolding append_labeled_metric to_string
append_outcome name outcome count =
    append_labeled_metric (codes name) ((codes "outcome", codes outcome) ∷ []) (to_string count)

unfoldable pub render_cache_metrics : CacheMetrics → Text
unfolding append_heading append_value append_outcome append_optional_gauge
render_cache_metrics m =
    append_heading "bweso_cache_hits_total"
      "Resolve requests served from a fresh Bitwarden sync cache." "counter"
    ++ append_value "bweso_cache_hits_total" m.cache_hits
    ++ append_heading "bweso_cache_stale_serves_total"
        "Resolve requests served from a bounded stale cache after a transient upstream refresh failure."
        "counter"
    ++ append_value "bweso_cache_stale_serves_total" m.stale_serves
    ++ append_heading "bweso_cache_refreshes_total"
        "Bitwarden sync cache refresh attempts by outcome." "counter"
    ++ append_outcome "bweso_cache_refreshes_total" "success" m.refresh_successes
    ++ append_outcome "bweso_cache_refreshes_total" "failure" m.refresh_failures
    ++ append_optional_gauge "bweso_cache_last_success_timestamp_seconds"
        "Unix timestamp of the last successful Bitwarden sync cache refresh."
        m.last_success_unix_seconds
    ++ append_optional_gauge "bweso_cache_last_success_age_seconds"
        "Age in seconds of the last successful Bitwarden sync cache refresh."
        m.last_success_age_seconds

-- The counters of a policy's reloads, by outcome.
unfoldable pub append_reloads : String → PolicyMetrics → Text
unfolding append_outcome
append_reloads name m =
    append_outcome name "success" (unwrap_or 0 (get m.reloads (codes "success")))
    ++ append_outcome name "unchanged" (unwrap_or 0 (get m.reloads (codes "unchanged")))
    ++ append_outcome name "failure" (unwrap_or 0 (get m.reloads (codes "failure")))

-- A duration in seconds, where the clock gives one.
abbrev pub seconds_of : Option ℕ → Option ℕ
seconds_of none = none
seconds_of (some duration) = some (as_secs duration)

-- The gauges of the last success, in Unix time and as an age, by the clock at the rendering.
unfoldable pub render_last_success : String → String → String → String → Option ℕ → ℕ → Text
unfolding append_optional_gauge
render_last_success timestamp_name timestamp_help age_name age_help none now = []
render_last_success timestamp_name timestamp_help age_name age_help (some last_success) now =
    append_optional_gauge timestamp_name timestamp_help
      (seconds_of (duration_since last_success unix_epoch))
    ++ append_optional_gauge age_name age_help (seconds_of (duration_since now last_success))

-- Whether a file-backed policy was ever seeded or reloaded.
abbrev pub is_seeded : PolicyMetrics → Bool
is_seeded m = not (is_empty m.reloads && not (is_some m.last_success))

unfoldable pub render_policy_metrics : PolicyMetrics → ℕ → Text
unfolding append_heading append_reloads append_gauge render_last_success
render_policy_metrics m now =
    if not (is_seeded m)
    then []
    else (append_heading "bweso_policy_reloads_total"
          "Selector-policy reload cycles by outcome (success, unchanged, failure)." "counter"
        ++ append_reloads "bweso_policy_reloads_total" m
        ++ append_gauge "bweso_policy_active_allowed_keys"
            "Exact selector keys in the currently-served allow-list." m.active.0
        ++ append_gauge "bweso_policy_active_allowed_key_prefixes"
            "Selector key prefixes in the currently-served allow-list." m.active.1
        ++ render_last_success "bweso_policy_last_reload_success_timestamp_seconds"
            "Unix timestamp of the last successful selector-policy evaluation."
            "bweso_policy_last_reload_success_age_seconds"
            "Age in seconds of the last successful selector-policy evaluation." m.last_success now)

unfoldable pub render_auth_policy_metrics : PolicyMetrics → ℕ → Text
unfolding append_heading append_reloads append_gauge render_last_success
render_auth_policy_metrics m now =
    if not (is_seeded m)
    then []
    else (append_heading "bweso_auth_policy_reloads_total"
          "Token-scoped auth-policy reload cycles by outcome (success, unchanged, failure)."
          "counter"
        ++ append_reloads "bweso_auth_policy_reloads_total" m
        ++ append_gauge "bweso_auth_policy_active_capabilities"
            "Capabilities in the currently-served token-scoped auth policy." m.active.0
        ++ append_gauge "bweso_auth_policy_active_tokens"
            "Bearer-token digests in the currently-served token-scoped auth policy." m.active.1
        ++ render_last_success "bweso_auth_policy_last_reload_success_timestamp_seconds"
            "Unix timestamp of the last successful token-scoped auth-policy evaluation."
            "bweso_auth_policy_last_reload_success_age_seconds"
            "Age in seconds of the last successful token-scoped auth-policy evaluation."
            m.last_success now)
