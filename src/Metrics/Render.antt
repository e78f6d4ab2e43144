-- ===== src/Metrics/Render.antt =====
-- The exposition as a whole: `AppMetrics::render`, with the sections of the requests.
use vaultwarden_eso_provider.Prelude.{
  ℕ, Bool, true, false, Option, none, some, [], ◌∷◌, ◌++◌, unwrap_or, option_map,
}
use vaultwarden_eso_provider.Text.{Text, codes}
use vaultwarden_eso_provider.Text.Decimal.{to_string}
use vaultwarden_eso_provider.TreeMap.{TreeMap}
use vaultwarden_eso_provider.Cache.Counters.{CacheMetrics}
use vaultwarden_eso_provider.Metrics.{
  Floats, HistogramValues, AppMetrics, MetricsInner, snapshot_metrics, duration_since, unix_epoch,
  as_secs,
}
use vaultwarden_eso_provider.Metrics.Keys.{HttpMetricKey, ResolveMetricKey}
use vaultwarden_eso_provider.Metrics.Labels.{
  Labels, append_line, append_labeled_metric, append_histogram,
}
use vaultwarden_eso_provider.Metrics.Sections.{
  append_heading, append_gauge, render_cache_metrics, render_policy_metrics,
  render_auth_policy_metrics,
}

unfoldable pub http_labels : HttpMetricKey → Labels
unfolding to_string
http_labels key =
    (codes "method", key.method)
    ∷ (codes "route", key.route)
    ∷ (codes "status", to_string key.status)
    ∷ []

unfoldable pub resolve_labels : ResolveMetricKey → Labels
unfolding to_string
resolve_labels key =
    (codes "outcome", key.outcome)
    ∷ (codes "error_kind", key.error_kind)
    ∷ (codes "status", to_string key.status)
    ∷ []

-- `u8::from` of a test.
abbrev pub u8_from : Bool → ℕ
u8_from true = 1
u8_from false = 0

module _ (f : Floats) where
  module _ {K : Type 0} (labels_of : K → Labels) where
    -- The loop over the counts, and the loop over the histograms.
    unfoldable pub count_lines : Text → TreeMap K (HistogramValues f) → Text
    unfolding append_labeled_metric to_string
    count_lines name [] = []
    count_lines name ((key, histogram) ∷ values) =
        append_labeled_metric name (labels_of key) (to_string histogram.count)
        ++ count_lines name values

    unfoldable pub histogram_lines : Text → TreeMap K (HistogramValues f) → Text
    unfolding append_histogram
    histogram_lines name [] = []
    histogram_lines name ((key, histogram) ∷ values) =
        append_histogram f name (labels_of key) histogram ++ histogram_lines name values

  unfoldable pub render_http_metrics : TreeMap HttpMetricKey (HistogramValues f) → Text
  unfolding append_heading count_lines histogram_lines http_labels
  render_http_metrics values =
      append_heading "bweso_http_requests_total"
        "HTTP requests served by the provider, labeled by method, route, and status." "counter"
      ++ count_lines http_labels (codes "bweso_http_requests_total") values
      ++ append_heading "bweso_http_request_duration_seconds" "HTTP request duration in seconds."
          "histogram"
      ++ histogram_lines http_labels (codes "bweso_http_request_duration_seconds") values

  unfoldable pub render_resolve_metrics : TreeMap ResolveMetricKey (HistogramValues f) → Text
  unfolding append_heading count_lines histogram_lines resolve_labels
  render_resolve_metrics values =
      append_heading "bweso_resolve_requests_total"
        "Secret resolution requests, labeled only by outcome, error class, and status." "counter"
      ++ count_lines resolve_labels (codes "bweso_resolve_requests_total") values
      ++ append_heading "bweso_resolve_duration_seconds" "Secret resolution duration in seconds."
          "histogram"
      ++ histogram_lines resolve_labels (codes "bweso_resolve_duration_seconds") values

  -- The cache's section, where the provider has a cache.
  unfoldable pub render_some_cache : Option CacheMetrics → Text
  unfolding render_cache_metrics
  render_some_cache none = []
  render_some_cache (some m) = render_cache_metrics m

  -- The sections that read the registry: none where its lock is poisoned.
  unfoldable pub render_snapshot : Option (MetricsInner f) → Option CacheMetrics → ℕ → Text
  unfolding render_http_metrics render_resolve_metrics render_some_cache render_policy_metrics
      render_auth_policy_metrics
  render_snapshot none cache_metrics now = []
  render_snapshot (some inner) cache_metrics now =
      render_http_metrics inner.http_requests
      ++ render_resolve_metrics inner.resolve_requests
      ++ render_some_cache cache_metrics
      ++ render_policy_metrics inner.policy now
      ++ render_auth_policy_metrics inner.auth_policy now

  -- The lines on the process.
  unfoldable pub process_lines : Text → ℕ → Bool → AppMetrics f → Text
  unfolding append_heading append_line append_gauge
  process_lines version elapsed ready m =
      append_heading "bweso_build_info" "Vaultwarden ESO Provider build information." "gauge"
      ++ append_line (codes "bweso_build_info{version=\"" ++ version ++ codes "\"} 1")
      ++ append_gauge "bweso_process_start_time_seconds" "Unix timestamp when the process started."
          (unwrap_or 0 (option_map as_secs (duration_since m.start_time unix_epoch)))
      ++ append_heading "bweso_uptime_seconds" "Seconds since the process started." "gauge"
      ++ append_line (codes "bweso_uptime_seconds " ++ f.fixed 6 (f.as_secs_f64 elapsed))
      ++ append_gauge "bweso_ready" "Readiness state exposed by /readyz." (u8_from ready)

  -- `AppMetrics::render`; `elapsed` is the time since the start by the monotonic clock, `now` the
  -- system time at the rendering, and `version` the version that the build sets.
  unfoldable pub render : Text → ℕ → ℕ → Bool → Option CacheMetrics → AppMetrics f → Text
  unfolding process_lines render_snapshot snapshot_metrics
  render version elapsed now ready cache_metrics m =
      process_lines version elapsed ready m
      ++ render_snapshot (snapshot_metrics f m) cache_metrics now
