-- ===== src/Server/Recording.antt =====
-- What the registry says of the requests that were served.
use vaultwarden_eso_provider.Prelude.{
  ℕ, ◌≡◌, refl, ap, ◌∙◌, false, Option, some, List, [], ◌∷◌, Result,
}
use vaultwarden_eso_provider.Text.{Text, codes}
use vaultwarden_eso_provider.Utf8.{Bytes}
use vaultwarden_eso_provider.Primitives.{Primitives}
use vaultwarden_eso_provider.Core.{RemoteRef, SecretDocument}
use vaultwarden_eso_provider.Errors.{ClientError}
use vaultwarden_eso_provider.Selector.{Selector}
use vaultwarden_eso_provider.Cache.Counters.{CacheMetrics}
use vaultwarden_eso_provider.TreeMap.{get}
use vaultwarden_eso_provider.Metrics.{
  Floats, AppMetrics, record_http_request, record_resolve_request, record_update,
}
use vaultwarden_eso_provider.Metrics.Keys.{HttpMetricKey, http_key_ord}
use vaultwarden_eso_provider.Metrics.Requests.{
  http_request, under, summary_at, call_with, call_with-inner, inner_with, get-http_with,
}
use vaultwarden_eso_provider.Resolve.{Recorded, resolve}
use vaultwarden_eso_provider.Server.{
  Routed, to_livez, to_readyz, to_metrics, to_resolve, fallback, Exchange, ServerState,
  matched_path, route_of, record_all, respond, serve, serve_all,
}

-- The key of an exchange that was answered with a status.
abbrev pub key_of : Exchange → ℕ → HttpMetricKey
key_of x status = record {
  method = x.method;
  route = route_of (matched_path x.routed);
  status = status;
}

module _ (f : Floats) where
  -- What a resolve records leaves the HTTP requests as they are.
  abbrev KeepsHttp : AppMetrics f → AppMetrics f → Type 0
  KeepsHttp m m' = (m'.is_poisoned ≡ false) × (m'.inner.http_requests ≡ m.inner.http_requests)

  record_resolve_request-KeepsHttp :
      (status : ℕ) (outcome error_kind : Text) (duration : ℕ) (m : AppMetrics f)
      → m.is_poisoned ≡ false
      → KeepsHttp m (record_resolve_request f status outcome error_kind duration m)
  unfolding record_resolve_request record_update
  record_resolve_request-KeepsHttp status outcome error_kind duration m h = rw h (refl, refl)

  record_all-KeepsHttp :
      (duration : ℕ) (recorded : List Recorded) (m : AppMetrics f)
      → m.is_poisoned ≡ false
      → KeepsHttp m (record_all f duration recorded m)
  unfolding record_all
  record_all-KeepsHttp duration [] m h = (h, refl)
  record_all-KeepsHttp duration (r ∷ rest) m h =
      let m' =
        record_resolve_request f r.status (codes r.outcome) (codes r.error_kind) duration m in
      let (unpoisoned, same) =
        record_resolve_request-KeepsHttp r.status (codes r.outcome) (codes r.error_kind) duration m
          h in
      let (unpoisoned', same') = record_all-KeepsHttp duration rest m' unpoisoned in
      (unpoisoned', same' ∙ same)

  record_http_request-inner :
      (k : HttpMetricKey) (duration : ℕ) (m : AppMetrics f)
      → m.is_poisoned ≡ false
      → record_http_request f k.method k.route k.status duration m
        ≡ record m { inner = inner_with f (http_request k duration) m.inner }
  unfolding call_with
  record_http_request-inner k duration m h = call_with-inner f (http_request k duration) m h

  module _ {S : Type 0} (p : Primitives) (from_slice : Bytes → Option RemoteRef) (version : Text)
      (provider : Selector → S → Result ClientError SecretDocument × S)
      (cache_metrics : S → Option CacheMetrics) where
    respond-KeepsHttp :
        (x : Exchange) (routed : Routed) (s : ServerState f S)
        → s.metrics.is_poisoned ≡ false
        → KeepsHttp s.metrics
            (respond f p from_slice version provider cache_metrics x routed s).1.metrics
    unfolding respond
    respond-KeepsHttp x to_livez s h = (h, refl)
    respond-KeepsHttp x to_readyz s h = (h, refl)
    respond-KeepsHttp x to_metrics s h = (h, refl)
    respond-KeepsHttp x (to_resolve request) s h =
        record_all-KeepsHttp x.resolve_duration
          (resolve provider x.app p from_slice request s.provider_state).recorded s.metrics h
    respond-KeepsHttp x (fallback path status) s h = (h, refl)

    -- The status with which a request is answered behind earlier ones.
    abbrev pub status_after : ServerState f S → Exchange → List Exchange → ℕ
    status_after s x earlier =
        (serve f p from_slice version provider cache_metrics x
          (serve_all f p from_slice version provider cache_metrics s earlier)).0.status

    -- The durations of the requests with a method, a route and the status of the answer, the last
    -- request first.
    unfoldable pub answered_durations : ServerState f S → HttpMetricKey → List Exchange → List ℕ
    answered_durations s k [] = []
    answered_durations s k (x ∷ earlier) =
        under k (some (key_of x (status_after s x earlier), x.duration))
          (answered_durations s k earlier)

    module _ (s : ServerState f S) (unpoisoned : s.metrics.is_poisoned ≡ false)
        (fresh : s.metrics.inner.http_requests ≡ []) where
      serve_all_unpoisoned :
          (xs : List Exchange)
          → (serve_all f p from_slice version provider cache_metrics s xs).metrics.is_poisoned
            ≡ false
      unfolding serve_all serve
      serve_all_unpoisoned [] = unpoisoned
      serve_all_unpoisoned (x ∷ earlier) =
          let before = serve_all f p from_slice version provider cache_metrics s earlier in
          let (response, s') =
            respond f p from_slice version provider cache_metrics x x.routed before in
          let (kept, _) = respond-KeepsHttp x x.routed before (serve_all_unpoisoned earlier) in
          ap (λ m. m.is_poisoned)
            (record_http_request-inner (key_of x response.status) x.duration s'.metrics kept)
          ∙ kept

      -- After any requests, with any state of the process and of the provider at each of them: under
      -- each method, route and status, the registry has the summary of the durations of the requests
      -- that were answered so, each of them once.
      pub serve_all-get :
          (xs : List Exchange) (k : HttpMetricKey)
          → get
              (serve_all f p from_slice version provider cache_metrics s
                xs).metrics.inner.http_requests
              k
            ≡ summary_at f (answered_durations s k xs)
      unfolding serve_all answered_durations serve get
      serve_all-get [] k = rw fresh
      serve_all-get (x ∷ earlier) k =
          let before = serve_all f p from_slice version provider cache_metrics s earlier in
          let (response, s') =
            respond f p from_slice version provider cache_metrics x x.routed before in
          let (kept, same) = respond-KeepsHttp x x.routed before (serve_all_unpoisoned earlier) in
          let durations = answered_durations s k earlier in
          let found : get s'.metrics.inner.http_requests k ≡ summary_at f durations =
            ap (λ m. get m k) same ∙ serve_all-get earlier k in
          ap (λ m. get m.inner.http_requests k)
            (record_http_request-inner (key_of x response.status) x.duration s'.metrics kept)
          ∙ get-http_with f (http_request (key_of x response.status) x.duration) s'.metrics.inner k
              durations found
