-- ===== src/Metrics/Exposition.antt =====
-- What a scrape of the exposition reads of the requests.
use vaultwarden_eso_provider.Prelude.{
  ℕ, ◌%◌, ◌^◌, ◌≡◌, refl, ap₂, subst, sym, Bool, true, false, not, Option, some, List, [], ◌∷◌,
  ◌++◌, arith, ◌==◌, All, all, length, Bool-cases, inl, inr,
}
use vaultwarden_eso_provider.Text.{Text, codes}
use vaultwarden_eso_provider.Text.Decimal.{to_string}
use vaultwarden_eso_provider.Text.Splitting.{Avoids}
use vaultwarden_eso_provider.TreeMap.{Ord, TreeMap, get, is_eq, is_eq_sound}
use vaultwarden_eso_provider.Cache.Counters.{CacheMetrics}
use vaultwarden_eso_provider.Metrics.{
  Floats, HistogramValues, AppMetrics, MetricsInner, snapshot_metrics,
}
use vaultwarden_eso_provider.Metrics.Keys.{HttpMetricKey, http_key_ord}
use vaultwarden_eso_provider.Metrics.Labels.{Labels, append_labeled_metric}
use vaultwarden_eso_provider.Metrics.Sections.{
  append_heading, render_policy_metrics, render_auth_policy_metrics,
}
use vaultwarden_eso_provider.Metrics.Reading.{
  IsLabelName, read_line, metric_line, read_line-metric_line,
}
use vaultwarden_eso_provider.Metrics.Lines.{append_labeled_metric-IsEnded, to_string-Avoids}
use vaultwarden_eso_provider.Metrics.Histograms.{summary}
use vaultwarden_eso_provider.Metrics.Requests.{
  Call, after, http_durations, summary_at, after-get, after_unpoisoned,
}
use vaultwarden_eso_provider.Metrics.Render.{
  http_labels, count_lines, histogram_lines, render_http_metrics, render_resolve_metrics,
  render_some_cache, render_snapshot, process_lines, render,
}
use vaultwarden_eso_provider.Metrics.Ends.{
  HasLine, HasLine-append_left, HasLine-append_right, HasLine-append_labeled_metric,
  append_heading-IsEnded, process_lines-IsEnded,
}

Avoids-all : (sep : ℕ) (s : Text) → all (λ c. not (c == sep)) s ≡ true → Avoids sep s
Avoids-all sep [] h = tt
Avoids-all sep (c ∷ s) h = (ground arith, Avoids-all sep s (ground arith))

label_name :
    (s : Text)
    → all (λ c. not (c == b'=')) s ≡ true
    → all (λ c. not (c == b'}')) s ≡ true
    → all (λ c. not (c == b',')) s ≡ true
    → all (λ c. not (c == b'\n')) s ≡ true
    → IsLabelName s
label_name s h₁ h₂ h₃ h₄ =
    (Avoids-all b'=' s h₁, Avoids-all b'}' s h₂, Avoids-all b',' s h₃, Avoids-all b'\n' s h₄)

http_labels_named : (key : HttpMetricKey) → All (λ label. IsLabelName label.0) (http_labels key)
unfolding http_labels
http_labels_named key = (
  label_name (codes "method") refl refl refl refl,
  (
    label_name (codes "route") refl refl refl refl,
    (label_name (codes "status") refl refl refl refl, tt),
  ),
)

some_injective {ℓ} : {A : Type ℓ} {x y : A} → some x ≡ some y → x ≡ y
some_injective h = ground arith

module _ (f : Floats) where
  -- The line of a key that the map has.
  HasLine-count_lines :
      {K : Type 0} ⦃o : Ord K⦄ (labels_of : K → Labels) (name : Text)
      (m : TreeMap K (HistogramValues f)) (key : K) (histogram : HistogramValues f)
      → Avoids b'\n' name
      → ((k : K) → All (λ label. IsLabelName label.0) (labels_of k))
      → get m key ≡ some histogram
      → HasLine
          (count_lines f labels_of name m)
          (metric_line name (labels_of key) (to_string histogram.count))
  unfolding count_lines get
  HasLine-count_lines labels_of name [] key histogram free names h = cc
  HasLine-count_lines ⦃o⦄ labels_of name ((j, w) ∷ m) key histogram free names h =
      let first = append_labeled_metric name (labels_of j) (to_string w.count) in
      elim (Bool-cases (is_eq (o.cmp key j))) [
        | inl same ↦
            let e : w ≡ histogram = some_injective (rw same at h) in
            subst (λ line'. HasLine (first ++ count_lines f labels_of name m) line')
              (ap₂ (λ k (v : HistogramValues f). metric_line name (labels_of k) (to_string v.count))
                (sym (is_eq_sound key j same)) e)
              (HasLine-append_right first (count_lines f labels_of name m)
                (metric_line name (labels_of j) (to_string w.count))
                (HasLine-append_labeled_metric name (labels_of j) (to_string w.count) free (names j)
                  (to_string-Avoids w.count)))
        | inr other ↦
            HasLine-append_left first (count_lines f labels_of name m)
              (metric_line name (labels_of key) (to_string histogram.count))
              (append_labeled_metric-IsEnded name (labels_of j) (to_string w.count))
              (HasLine-count_lines labels_of name m key histogram free names (rw other at h))
      ]

  HasLine-render_http_metrics :
      (m : TreeMap HttpMetricKey (HistogramValues f)) (key : HttpMetricKey)
      (histogram : HistogramValues f)
      → get m key ≡ some histogram
      → HasLine (render_http_metrics f m) (
          metric_line
            (codes "bweso_http_requests_total")
            (http_labels key)
            (to_string histogram.count))
  unfolding render_http_metrics
  HasLine-render_http_metrics m key histogram h =
      let name = codes "bweso_http_requests_total" in
      let found =
        HasLine-count_lines http_labels name m key histogram (Avoids-all b'\n' name refl)
          http_labels_named h in
      let counts = count_lines f http_labels name m in
      let line = metric_line name (http_labels key) (to_string histogram.count) in
      let first_heading =
        append_heading "bweso_http_requests_total"
          "HTTP requests served by the provider, labeled by method, route, and status." "counter" in
      let ended =
        append_heading-IsEnded "bweso_http_requests_total"
          "HTTP requests served by the provider, labeled by method, route, and status." "counter" in
      let second_heading =
        append_heading "bweso_http_request_duration_seconds" "HTTP request duration in seconds."
          "histogram" in
      HasLine-append_right (first_heading ++ counts ++ second_heading)
        (histogram_lines f http_labels (codes "bweso_http_request_duration_seconds") m) line
        (HasLine-append_right (first_heading ++ counts) second_heading line
          (HasLine-append_left first_heading counts line ended found))

  -- A line of the first section is one of the whole registry's.
  HasLine-render_snapshot :
      (inner : MetricsInner f) (cache_metrics : Option CacheMetrics) (now : ℕ) (line : Text)
      → HasLine (render_http_metrics f inner.http_requests) line
      → HasLine (render_snapshot f (some inner) cache_metrics now) line
  unfolding render_snapshot
  HasLine-render_snapshot inner cache_metrics now line found =
      let first = render_http_metrics f inner.http_requests in
      let second = first ++ render_resolve_metrics f inner.resolve_requests in
      let third = second ++ render_some_cache f cache_metrics in
      let fourth = third ++ render_policy_metrics inner.policy now in
      HasLine-append_right fourth (render_auth_policy_metrics inner.auth_policy now) line (
        HasLine-append_right third (render_policy_metrics inner.policy now) line (
          HasLine-append_right second (render_some_cache f cache_metrics) line (
            HasLine-append_right first (render_resolve_metrics f inner.resolve_requests) line
              found)))

  HasLine-render :
      (version : Text) (elapsed now : ℕ) (ready : Bool) (cache_metrics : Option CacheMetrics)
      (m : AppMetrics f) (line : Text)
      → m.is_poisoned ≡ false
      → HasLine (render_http_metrics f m.inner.http_requests) line
      → HasLine (render f version elapsed now ready cache_metrics m) line
  unfolding render snapshot_metrics
  HasLine-render version elapsed now ready cache_metrics m line unpoisoned found =
      HasLine-append_left (process_lines f version elapsed ready m)
        (render_snapshot f (snapshot_metrics f m) cache_metrics now) line
        (process_lines-IsEnded f version elapsed ready m)
        (rw unpoisoned (HasLine-render_snapshot m.inner cache_metrics now line found))

  -- After any calls, every key with which a request was recorded has a line of its own in the
  -- exposition: the line is read as the name of the counter, the method, the route and the status of
  -- the key, and the number of those requests, as far as 64 bits count.
  pub render-HasLine :
      (version : Text) (elapsed now : ℕ) (ready : Bool) (cache_metrics : Option CacheMetrics)
      (started_at start_time : ℕ) (calls : List Call) (key : HttpMetricKey) (last : ℕ)
      (earlier : List ℕ)
      → http_durations key calls ≡ last ∷ earlier
      → (line : Text) × HasLine
          (render f version elapsed now ready cache_metrics (after f started_at start_time calls))
          line
        × (read_line line
            ≡ some (
              codes "bweso_http_requests_total",
              http_labels key,
              b' ' ∷ to_string (length (last ∷ earlier) % 2 ^ 64),
            ))
  render-HasLine version elapsed now ready cache_metrics started_at start_time calls key last
        earlier h =
      let m = after f started_at start_time calls in
      let name = codes "bweso_http_requests_total" in
      let count = to_string (length (last ∷ earlier) % 2 ^ 64) in
      let line = metric_line name (http_labels key) count in
      let found : get m.inner.http_requests key ≡ summary_at f (last ∷ earlier) =
        subst (λ ds. get m.inner.http_requests key ≡ summary_at f ds) h
          ((after-get f started_at start_time calls).0 key) in
      let shown =
        HasLine-render_http_metrics m.inner.http_requests key (summary f (last ∷ earlier)) found in
      (
        line,
        HasLine-render version elapsed now ready cache_metrics m line
            (after_unpoisoned f started_at start_time calls) shown,
        read_line-metric_line name (http_labels key) count (Avoids-all b'{' name refl)
            (http_labels_named key),
      )
