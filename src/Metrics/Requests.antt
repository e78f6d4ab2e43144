-- ===== src/Metrics/Requests.antt =====
-- The registry after any calls, against the list of those calls.
use vaultwarden_eso_provider.Prelude.{
  ℕ, ◌≡◌, refl, false, Option, none, some, List, [], ◌∷◌, if◌then◌else◌, unwrap_or, ap, subst,
  Bool-cases, inl, inr,
}
use vaultwarden_eso_provider.Text.{Text}
use vaultwarden_eso_provider.TreeMap.{Ord, TreeMap, get, is_eq, is_eq_sound, get-insert}
use vaultwarden_eso_provider.Metrics.{
  Floats, HistogramValues, AppMetrics, MetricsInner, new_metrics, record_http_request,
  record_resolve_request, record_policy_reload, record_policy_baseline, record_auth_policy_reload,
  record_auth_policy_baseline, record_update, observe_at, observe, count_reload, seed_baseline,
  default_histogram,
}
use vaultwarden_eso_provider.Metrics.Keys.{
  HttpMetricKey, ResolveMetricKey, http_key_ord, resolve_key_ord,
}
use vaultwarden_eso_provider.Metrics.Histograms.{summary, observe-summary, summary_nil}

-- The calls that change the registry, with the clock where they read it.
pub data Call : Type 0 where
  http_request : HttpMetricKey → (duration : ℕ) → Call
  resolve_request : ResolveMetricKey → (duration : ℕ) → Call
  policy_reload auth_policy_reload : (outcome : Text) → (active : ℕ × ℕ) → (now : ℕ) → Call
  policy_baseline auth_policy_baseline : (active : ℕ × ℕ) → (now : ℕ) → Call

abbrev pub http_observation : Call → Option (HttpMetricKey × ℕ)
http_observation (http_request key duration) = some (key, duration)
http_observation _ = none

abbrev pub resolve_observation : Call → Option (ResolveMetricKey × ℕ)
resolve_observation (resolve_request key duration) = some (key, duration)
resolve_observation _ = none

-- The observations with one key, the last one first.
abbrev pub under {κ} : {K : Type κ} ⦃o : Ord K⦄ → K → Option (K × ℕ) → List ℕ → List ℕ
under k none rest = rest
under ⦃o⦄ k (some (j, duration)) rest = if is_eq (o.cmp k j) then duration ∷ rest else rest

unfoldable pub http_durations : HttpMetricKey → List Call → List ℕ
http_durations k [] = []
http_durations k (c ∷ earlier) = under k (http_observation c) (http_durations k earlier)

unfoldable pub resolve_durations : ResolveMetricKey → List Call → List ℕ
resolve_durations k [] = []
resolve_durations k (c ∷ earlier) = under k (resolve_observation c) (resolve_durations k earlier)

module _ (f : Floats) where
  unfoldable pub call_with : Call → AppMetrics f → AppMetrics f
  unfolding record_http_request record_resolve_request record_policy_reload record_policy_baseline
      record_auth_policy_reload record_auth_policy_baseline
  call_with (http_request key duration) m =
      record_http_request f key.method key.route key.status duration m
  call_with (resolve_request key duration) m =
      record_resolve_request f key.status key.outcome key.error_kind duration m
  call_with (policy_reload outcome active now) m = record_policy_reload f outcome active now m
  call_with (auth_policy_reload outcome active now) m =
      record_auth_policy_reload f outcome active now m
  call_with (policy_baseline active now) m = record_policy_baseline f active now m
  call_with (auth_policy_baseline active now) m = record_auth_policy_baseline f active now m

  -- The registry after calls, of which the last one comes first.
  unfoldable pub after : ℕ → ℕ → List Call → AppMetrics f
  unfolding new_metrics
  after started_at start_time [] = new_metrics f started_at start_time
  after started_at start_time (c ∷ earlier) = call_with c (after started_at start_time earlier)

  -- What the registry holds of some durations: nothing where there are none.
  abbrev pub summary_at : List ℕ → Option (HistogramValues f)
  summary_at [] = none
  summary_at (duration ∷ earlier) = some (summary f (duration ∷ earlier))

  observe-summary_at :
      (duration : ℕ) (earlier : List ℕ)
      → observe f duration (unwrap_or (default_histogram f) (summary_at earlier))
        ≡ summary f (duration ∷ earlier)
  observe-summary_at duration [] = rw (summary_nil f) (observe-summary f duration [])
  observe-summary_at duration (d ∷ earlier) = observe-summary f duration (d ∷ earlier)

  module _ {κ} {K : Type κ} ⦃o : Ord K⦄ where
    get-observe_at :
        (j k : K) (duration : ℕ) (earlier : List ℕ) (m : TreeMap K (HistogramValues f))
        → get m k ≡ summary_at earlier
        → get (observe_at f j duration m) k ≡ summary_at (under k (some (j, duration)) earlier)
    unfolding observe_at
    get-observe_at j k duration earlier m h = elim (Bool-cases (is_eq (o.cmp k j))) [
      | inl same ↦
          let e = is_eq_sound k j same in
          let found : get m j ≡ summary_at earlier =
            subst (λ i. get m i ≡ summary_at earlier) e h in
          rw
            (
              get-insert j k (observe f duration (unwrap_or (default_histogram f) (get m j))) m,
              same,
              found,
            )
            (ap some (observe-summary_at duration earlier))
      | inr other ↦
          rw
            (
              get-insert j k (observe f duration (unwrap_or (default_histogram f) (get m j))) m,
              other,
            )
            h
    ]

  -- What a call does to the fields behind the lock.
  abbrev pub inner_with : Call → MetricsInner f → MetricsInner f
  inner_with (http_request key duration) i = record i {
    http_requests = observe_at f key duration i.http_requests;
  }
  inner_with (resolve_request key duration) i = record i {
    resolve_requests = observe_at f key duration i.resolve_requests;
  }
  inner_with (policy_reload outcome active now) i = record i {
    policy = count_reload outcome active now i.policy;
  }
  inner_with (auth_policy_reload outcome active now) i = record i {
    auth_policy = count_reload outcome active now i.auth_policy;
  }
  inner_with (policy_baseline active now) i = record i {
    policy = seed_baseline active now i.policy;
  }
  inner_with (auth_policy_baseline active now) i = record i {
    auth_policy = seed_baseline active now i.auth_policy;
  }

  pub call_with-inner :
      (c : Call) (m : AppMetrics f)
      → m.is_poisoned ≡ false
      → call_with c m ≡ record m { inner = inner_with c m.inner }
  unfolding call_with record_update
  call_with-inner (http_request key duration) m h = rw h
  call_with-inner (resolve_request key duration) m h = rw h
  call_with-inner (policy_reload outcome active now) m h = rw h
  call_with-inner (auth_policy_reload outcome active now) m h = rw h
  call_with-inner (policy_baseline active now) m h = rw h
  call_with-inner (auth_policy_baseline active now) m h = rw h

  module _ (started_at start_time : ℕ) where
    abbrev pub at' : List Call → MetricsInner f
    at' calls = (after started_at start_time calls).inner

    -- No call poisons the lock.
    pub after_unpoisoned :
        (calls : List Call) → (after started_at start_time calls).is_poisoned ≡ false
    unfolding after
    after_unpoisoned [] = refl
    after_unpoisoned (c ∷ earlier) =
        rw (call_with-inner c (after started_at start_time earlier) (after_unpoisoned earlier))
          (after_unpoisoned earlier)

    pub after-inner :
        (c : Call) (earlier : List Call) → at' (c ∷ earlier) ≡ inner_with c (at' earlier)
    unfolding after
    after-inner c earlier =
        ap (λ m. m.inner)
          (call_with-inner c (after started_at start_time earlier) (after_unpoisoned earlier))

  pub get-http_with :
      (c : Call) (i : MetricsInner f) (k : HttpMetricKey) (ds : List ℕ)
      → get i.http_requests k ≡ summary_at ds
      → get (inner_with c i).http_requests k ≡ summary_at (under k (http_observation c) ds)
  get-http_with (http_request key duration) i k ds h =
      get-observe_at key k duration ds i.http_requests h
  get-http_with (resolve_request key duration) i k ds h = h
  get-http_with (policy_reload outcome active now) i k ds h = h
  get-http_with (auth_policy_reload outcome active now) i k ds h = h
  get-http_with (policy_baseline active now) i k ds h = h
  get-http_with (auth_policy_baseline active now) i k ds h = h

  get-resolve_with :
      (c : Call) (i : MetricsInner f) (k : ResolveMetricKey) (ds : List ℕ)
      → get i.resolve_requests k ≡ summary_at ds
      → get (inner_with c i).resolve_requests k ≡ summary_at (under k (resolve_observation c) ds)
  get-resolve_with (resolve_request key duration) i k ds h =
      get-observe_at key k duration ds i.resolve_requests h
  get-resolve_with (http_request key duration) i k ds h = h
  get-resolve_with (policy_reload outcome active now) i k ds h = h
  get-resolve_with (auth_policy_reload outcome active now) i k ds h = h
  get-resolve_with (policy_baseline active now) i k ds h = h
  get-resolve_with (auth_policy_baseline active now) i k ds h = h

  -- After any calls, and under each key, the registry holds the summary of the durations that were
  -- recorded under that key, and nothing under a key with which there was no call.
  pub after-get :
      (started_at start_time : ℕ) (calls : List Call)
      → ((k : HttpMetricKey)
          → get (at' started_at start_time calls).http_requests k
            ≡ summary_at (http_durations k calls))
        × ((k : ResolveMetricKey)
            → get (at' started_at start_time calls).resolve_requests k
              ≡ summary_at (resolve_durations k calls))
  unfolding http_durations resolve_durations after new_metrics get
  after-get started_at start_time [] = (λ k. refl, λ k. refl)
  after-get started_at start_time (c ∷ earlier) =
      let before = after-get started_at start_time earlier in
      let now = at' started_at start_time earlier in
      (
        λ k.
            rw (after-inner started_at start_time c earlier)
              (get-http_with c now k (http_durations k earlier) (before.0 k)),
        λ k.
            rw (after-inner started_at start_time c earlier)
              (get-resolve_with c now k (resolve_durations k earlier) (before.1 k)),
      )
