-- ===== src/Server.antt =====
-- The server of crates/vaultwarden-eso-provider/src/main.rs: the handlers behind its router, and the
-- middleware that records every request. axum's routing is not modelled: a request comes with the
-- handler that it is routed to.
pub mod Recording
use vaultwarden_eso_provider.Prelude.{
  ℕ, String, Bool, true, false, Option, none, some, List, [], ◌∷◌, Result, ok, err, if◌then◌else◌,
}
use vaultwarden_eso_provider.Text.{Text, codes}
use vaultwarden_eso_provider.Utf8.{Bytes}
use vaultwarden_eso_provider.Primitives.{Primitives}
use vaultwarden_eso_provider.Core.{RemoteRef, SecretDocument}
use vaultwarden_eso_provider.Errors.{ClientError}
use vaultwarden_eso_provider.Selector.{Selector}
use vaultwarden_eso_provider.Lifecycle.{Lifecycle, is_ready}
use vaultwarden_eso_provider.Cache.Counters.{CacheMetrics}
use vaultwarden_eso_provider.Metrics.{
  Floats, AppMetrics, record_http_request, record_resolve_request,
}
use vaultwarden_eso_provider.Metrics.Render.{render}
use vaultwarden_eso_provider.Resolve.{AppState, Answered, Recorded, ResolveHttpRequest, resolve}

-- The handlers; `fallback` is what axum answers by itself, with the path that matched.
pub data Routed : Type 0 where
  to_livez to_readyz to_metrics : Routed
  to_resolve : ResolveHttpRequest → Routed
  fallback : (matched_path : Option Text) → (status : ℕ) → Routed

-- `MatchedPath`, where there is one.
unfoldable pub matched_path : Routed → Option Text
matched_path to_livez = some (codes "/livez")
matched_path to_readyz = some (codes "/readyz")
matched_path to_metrics = some (codes "/metrics")
matched_path (to_resolve request) = some (codes "/v1/resolve")
matched_path (fallback path status) = path

unfoldable pub route_of : Option Text → Text
route_of none = codes "unmatched"
route_of (some path) = path

-- A request as it is served: what the process is like at that time, and the clock.
pub record Exchange : Type 0 where
  pub method : Text
  pub routed : Routed
  pub app : AppState
  pub lifecycle : Lifecycle
  -- The durations that the handler of the resolve and the middleware measure.
  pub resolve_duration : ℕ
  pub duration : ℕ
  -- The time since the start, and the system time.
  pub elapsed : ℕ
  pub now : ℕ

pub data Body : Type 0 where
  empty : Body
  exposition : Text → Body
  document : SecretDocument → Body
  public_message : String → Body

pub record Response : Type 0 where
  pub status : ℕ
  pub body : Body

unfoldable pub livez : Response
livez = record { status = 204; body = empty }

unfoldable pub readyz : Lifecycle → Response
readyz lifecycle = record { status = if is_ready lifecycle then 204 else 503; body = empty }

-- The response of the resolve.
unfoldable pub response_of : Result (ℕ × String) SecretDocument → Response
response_of (ok resolved) = record { status = 200; body = document resolved }
response_of (err (status, message)) = record { status = status; body = public_message message }

pub record ServerState (f : Floats) (S : Type 0) : Type 0 where
  pub metrics : AppMetrics f
  pub provider_state : S

module _ (f : Floats) where
  -- The calls of `record_resolve_request` in one resolve.
  unfoldable pub record_all : ℕ → List Recorded → AppMetrics f → AppMetrics f
  record_all duration [] m = m
  record_all duration (r ∷ rest) m =
      record_all duration rest
        (record_resolve_request f r.status (codes r.outcome) (codes r.error_kind) duration m)

  module _ {S : Type 0} (p : Primitives) (from_slice : Bytes → Option RemoteRef) (version : Text)
      (provider : Selector → S → Result ClientError SecretDocument × S)
      (cache_metrics : S → Option CacheMetrics) where
    -- The handler.
    unfoldable pub respond : Exchange → Routed → ServerState f S → Response × ServerState f S
    unfolding livez readyz response_of record_all
    respond x to_livez s = (livez, s)
    respond x to_readyz s = (readyz x.lifecycle, s)
    respond x to_metrics s = (
      record {
        status = 200;
        body = exposition (
            render f version x.elapsed x.now (is_ready x.lifecycle) (cache_metrics s.provider_state)
              s.metrics);
      },
      s,
    )
    respond x (to_resolve request) s =
        let answered = resolve provider x.app p from_slice request s.provider_state in
        (
          response_of answered.answer,
          record {
            metrics = record_all x.resolve_duration answered.recorded s.metrics;
            provider_state = answered.provider_state;
          },
        )
    respond x (fallback path status) s = (record { status = status; body = empty }, s)

    -- `record_http_metrics` around the handler.
    unfoldable pub serve : Exchange → ServerState f S → Response × ServerState f S
    unfolding respond matched_path route_of
    serve x s =
        let (response, s') = respond x x.routed s in
        (
          response,
          record s' {
            metrics =
                record_http_request f x.method (route_of (matched_path x.routed)) response.status
                  x.duration s'.metrics;
          },
        )

    -- The state after requests, of which the last one comes first.
    unfoldable pub serve_all : ServerState f S → List Exchange → ServerState f S
    unfolding serve
    serve_all s [] = s
    serve_all s (x ∷ earlier) = (serve x (serve_all s earlier)).1
