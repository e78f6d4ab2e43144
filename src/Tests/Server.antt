-- ===== src/Tests/Server.antt =====
-- A witness on the requests that a server records.
use vaultwarden_eso_provider.Prelude.{ℕ, ◌≡◌, refl, none, List, [], ◌∷◌}
use vaultwarden_eso_provider.Text.{codes}
use vaultwarden_eso_provider.TreeMap.{get}
use vaultwarden_eso_provider.Lifecycle.{initial, store_flag}
use vaultwarden_eso_provider.Metrics.{new_metrics}
use vaultwarden_eso_provider.Metrics.Keys.{HttpMetricKey, http_key_ord}
use vaultwarden_eso_provider.Metrics.Requests.{summary_at}
use vaultwarden_eso_provider.Server.{Exchange, ServerState, to_readyz, to_resolve, serve_all}
use vaultwarden_eso_provider.Server.Recording.{answered_durations, serve_all-get}
use vaultwarden_eso_provider.Tests.Samples.{toy}
use vaultwarden_eso_provider.Tests.Metrics.{nanoseconds}
use vaultwarden_eso_provider.Tests.Provider.{counting, state, request, from_slice}

abbrev probe : Exchange
probe = record {
  method = codes "GET";
  routed = to_readyz;
  app = state;
  lifecycle = initial;
  resolve_duration = 0;
  duration = 1_000;
  elapsed = 5;
  now = 6;
}

-- A probe during the shutdown, after a resolve, after a probe.
abbrev exchanges : List Exchange
exchanges =
    record probe { lifecycle = store_flag initial }
    ∷ record probe { method = codes "POST"; routed = to_resolve request }
    ∷ probe
    ∷ []

abbrev fresh : ServerState nanoseconds ℕ
fresh = record { metrics = new_metrics nanoseconds 0 0; provider_state = 0 }

abbrev refused_probe : HttpMetricKey
refused_probe = record { method = codes "GET"; route = codes "/readyz"; status = 503 }

serve_all-get_example :
    get
      (serve_all nanoseconds toy from_slice
        (codes "1")
        counting
        (λ n. none)
        fresh
        exchanges).metrics.inner.http_requests
      refused_probe
    ≡ summary_at nanoseconds (
        answered_durations nanoseconds toy from_slice
          (codes "1")
          counting
          (λ n. none)
          fresh
          refused_probe
          exchanges)
unfolding new_metrics
serve_all-get_example =
    serve_all-get nanoseconds toy from_slice (codes "1") counting (λ n. none) fresh refl refl
      exchanges refused_probe
