-- ===== src/Metrics.antt =====
-- The metrics registry of crates/vaultwarden-eso-provider/src/metrics.rs: what is counted, and how a
-- request, a reload and a start change it. Metrics/Render has the text, Metrics/Labels its lines.
pub mod Keys
pub mod Histograms
pub mod Requests
pub mod Labels
pub mod Reading
pub mod Lines
pub mod Ends
pub mod Sections
pub mod Render
pub mod Exposition
use vaultwarden_eso_provider.Metrics.Keys.{
  HttpMetricKey, ResolveMetricKey, then_cmp, http_key_cmp, resolve_key_cmp, http_key_iff,
  resolve_key_iff, http_key_ord, resolve_key_ord,
}
use vaultwarden_eso_provider.Prelude.{
  ℕ, ◌+◌, ◌-◌, ◌*◌, ◌/◌, ◌%◌, ◌^◌, ◌≡◌, refl, Bool, true, false, not, ◌&&◌, Option, none, some,
  List, [], ◌∷◌, map, leb, if◌then◌else◌, is_some, unwrap_or, arith, compare, Ordering, ◌↔◌, ap,
}
use vaultwarden_eso_provider.Text.{Text, codes, text_eq, text_cmp}
use vaultwarden_eso_provider.Text.Laws.{text_cmp_iff}
use vaultwarden_eso_provider.TreeMap.{Ord, TreeMap, get, insert, text_ord}

-- `f64` with the operations that the registry uses. Durations are counted in nanoseconds.
pub record Floats : Type 1 where
  pub F64 : Type 0
  pub zero_f64 : F64
  pub add_f64 : F64 → F64 → F64
  pub le_f64 : F64 → F64 → Bool
  -- The literal of a number of thousandths.
  pub thousandths : ℕ → F64
  -- `Duration::as_secs_f64`.
  pub as_secs_f64 : ℕ → F64
  -- `{:.n}` of a number, with n digits.
  pub fixed : ℕ → F64 → Text

-- `+= 1` on a `u64`, without overflow checks.
abbrev pub add_one : ℕ → ℕ
add_one n = (n + 1) % 2 ^ 64

-- `HISTOGRAM_BUCKETS`, in thousandths.
abbrev pub histogram_buckets : List ℕ
histogram_buckets = 5 ∷ 10 ∷ 25 ∷ 50 ∷ 100 ∷ 250 ∷ 500 ∷ 1000 ∷ 2500 ∷ 5000 ∷ 10000 ∷ []

-- `SystemTime`, in nanoseconds from 2^63 seconds before the Unix epoch; and `duration_since`.
abbrev pub unix_epoch : ℕ
unix_epoch = 2 ^ 63 * 1_000_000_000

abbrev pub duration_since : ℕ → ℕ → Option ℕ
duration_since later earlier = if leb earlier later then some (later - earlier) else none

abbrev pub as_secs : ℕ → ℕ
as_secs duration = duration / 1_000_000_000

-- What the registry has on the reloads of one policy: `policy_*` or `auth_policy_*`.
pub record PolicyMetrics : Type 0 where
  pub reloads : TreeMap Text ℕ
  pub active : ℕ × ℕ
  pub last_success : Option ℕ

-- `record_policy_reload`, and `record_auth_policy_reload`, on those fields.
unfoldable pub count_reload : Text → ℕ × ℕ → ℕ → PolicyMetrics → PolicyMetrics
count_reload outcome active now m = record {
  reloads = insert outcome (add_one (unwrap_or 0 (get m.reloads outcome))) m.reloads;
  active = active;
  last_success = if not (text_eq outcome (codes "failure")) then some now else m.last_success;
}

-- `record_policy_baseline`, and `record_auth_policy_baseline`, on those fields.
unfoldable pub seed_baseline : ℕ × ℕ → ℕ → PolicyMetrics → PolicyMetrics
seed_baseline active now m = record {
  reloads = m.reloads;
  active = active;
  last_success = if not (is_some m.last_success) then some now else m.last_success;
}

module _ (f : Floats) where
  pub record HistogramValues : Type 0 where
    pub count : ℕ
    pub sum_seconds : f.F64
    pub buckets : List ℕ

  -- `HistogramValues::default`, with as many buckets as there are bounds.
  unfoldable pub default_histogram : HistogramValues
  default_histogram = record {
    count = 0;
    sum_seconds = f.zero_f64;
    buckets = map (λ bound. 0) histogram_buckets;
  }

  -- The loop over the bounds, on the buckets beside them.
  unfoldable pub fill_buckets : f.F64 → List ℕ → List ℕ → List ℕ
  fill_buckets seconds (bound ∷ bounds) (bucket ∷ buckets) =
      (if f.le_f64 seconds (f.thousandths bound) then add_one bucket else bucket)
      ∷ fill_buckets seconds bounds buckets
  fill_buckets seconds _ buckets = buckets

  -- `HistogramValues::observe`.
  unfoldable pub observe : ℕ → HistogramValues → HistogramValues
  unfolding fill_buckets
  observe duration h =
      let seconds = f.as_secs_f64 duration in
      record {
        count = add_one h.count;
        sum_seconds = f.add_f64 h.sum_seconds seconds;
        buckets = fill_buckets seconds histogram_buckets h.buckets;
      }

  pub record MetricsInner : Type 0 where
    pub http_requests : TreeMap HttpMetricKey HistogramValues
    pub resolve_requests : TreeMap ResolveMetricKey HistogramValues
    pub policy : PolicyMetrics
    pub auth_policy : PolicyMetrics

  -- `entry(key).or_default().observe(duration)`.
  unfoldable pub observe_at {κ} :
      {K : Type κ} ⦃o : Ord K⦄ → K → ℕ → TreeMap K HistogramValues → TreeMap K HistogramValues
  observe_at key duration m =
      insert key (observe duration (unwrap_or default_histogram (get m key))) m

  -- `AppMetrics`; the lock is poisoned where a task panicked while it held it.
  pub record AppMetrics : Type 0 where
    pub started_at : ℕ
    pub start_time : ℕ
    pub is_poisoned : Bool
    pub inner : MetricsInner

  abbrev no_policy : PolicyMetrics
  no_policy = record { reloads = []; active = (0, 0); last_success = none }

  -- `AppMetrics::new`.
  unfoldable pub new_metrics : ℕ → ℕ → AppMetrics
  new_metrics started_at start_time = record {
    started_at = started_at;
    start_time = start_time;
    is_poisoned = false;
    inner = record {
      http_requests = [];
      resolve_requests = [];
      policy = no_policy;
      auth_policy = no_policy;
    };
  }

  -- `AppMetrics::record`.
  unfoldable pub record_update : (MetricsInner → MetricsInner) → AppMetrics → AppMetrics
  record_update update m = if m.is_poisoned then m else record m { inner = update m.inner }

  unfoldable pub record_http_request : Text → Text → ℕ → ℕ → AppMetrics → AppMetrics
  unfolding record_update observe_at
  record_http_request method route status duration m =
      let key : HttpMetricKey = record { method = method; route = route; status = status } in
      record_update
        (λ inner. record inner { http_requests = observe_at key duration inner.http_requests }) m

  unfoldable pub record_resolve_request : ℕ → Text → Text → ℕ → AppMetrics → AppMetrics
  unfolding record_update observe_at
  record_resolve_request status outcome error_kind duration m =
      let key : ResolveMetricKey = record {
        outcome = outcome;
        error_kind = error_kind;
        status = status;
      } in
      record_update
        (λ inner. record inner {
          resolve_requests = observe_at key duration inner.resolve_requests;
        })
        m

  unfoldable pub record_policy_reload : Text → ℕ × ℕ → ℕ → AppMetrics → AppMetrics
  unfolding record_update count_reload
  record_policy_reload outcome active now m =
      record_update
        (λ inner. record inner { policy = count_reload outcome active now inner.policy }) m

  unfoldable pub record_policy_baseline : ℕ × ℕ → ℕ → AppMetrics → AppMetrics
  unfolding record_update seed_baseline
  record_policy_baseline active now m =
      record_update (λ inner. record inner { policy = seed_baseline active now inner.policy }) m

  unfoldable pub record_auth_policy_reload : Text → ℕ × ℕ → ℕ → AppMetrics → AppMetrics
  unfolding record_update count_reload
  record_auth_policy_reload outcome active now m =
      record_update
        (λ inner. record inner { auth_policy = count_reload outcome active now inner.auth_policy })
        m

  unfoldable pub record_auth_policy_baseline : ℕ × ℕ → ℕ → AppMetrics → AppMetrics
  unfolding record_update seed_baseline
  record_auth_policy_baseline active now m =
      record_update
        (λ inner. record inner { auth_policy = seed_baseline active now inner.auth_policy }) m

  -- `AppMetrics::snapshot`.
  unfoldable pub snapshot_metrics : AppMetrics → Option MetricsInner
  snapshot_metrics m = if m.is_poisoned then none else some m.inner
