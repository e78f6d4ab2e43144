-- ===== src/Startup/Healthcheck.antt =====
-- The healthcheck of crates/vaultwarden-eso-provider/src/main.rs, one request over HTTP.
use vaultwarden_eso_provider.Prelude.{
  ℕ, not, ◌||◌, Option, none, some, List, [], ◌∷◌, ◌++◌, Result, ok, err, ◌>>=◌, ◌>>◌, ok_or,
  bail_if, if◌then◌else◌, is_empty,
}
use vaultwarden_eso_provider.Text.{Text, codes, text_eq, starts_with, lines}
use vaultwarden_eso_provider.Endpoints.{UrlCrate}

pub data HealthcheckError : Type 0 where
  bad_url not_http no_host no_port no_connection empty_response : HealthcheckError
  not_successful : (status_line : Text) → HealthcheckError

pub record HealthcheckTarget : Type 0 where
  pub host : Text
  pub port : ℕ
  pub target_path : Text

-- A query behind a path.
abbrev with_query : Text → Option Text → Text
with_query path none = path
with_query path (some query) = path ++ b'?' ∷ query

unfoldable pub status_line_of : List Text → Result HealthcheckError Text
status_line_of [] = err empty_response
status_line_of (status_line ∷ rest) = ok status_line

unfoldable pub ensure_successful_healthcheck_response : Text → Result HealthcheckError (Unit {0})
unfolding status_line_of
ensure_successful_healthcheck_response response = do
  status_line ← status_line_of (lines response)
  bail_if
      (not (
        starts_with status_line (codes "HTTP/1.1 2")
        || starts_with status_line (codes "HTTP/1.0 2")))
      (not_successful status_line)

-- What is written to the connection.
unfoldable pub healthcheck_request : HealthcheckTarget → Text
healthcheck_request target =
    codes "GET "
    ++ target.target_path
    ++ codes " HTTP/1.1\r\nHost: "
    ++ target.host
    ++ codes "\r\nConnection: close\r\n\r\n"

module _ (c : UrlCrate) where
  unfoldable pub healthcheck_request_path : c.Url → Text
  healthcheck_request_path url =
      with_query (if is_empty (c.url_path url) then b'/' ∷ [] else c.url_path url) (c.url_query url)

  unfoldable pub parse_healthcheck_target : Text → Result HealthcheckError HealthcheckTarget
  unfolding healthcheck_request_path
  parse_healthcheck_target raw_url = do
    url ← ok_or bad_url (c.parse_url raw_url)
    bail_if (not (text_eq (c.scheme url) (codes "http"))) not_http
    host ← ok_or no_host (c.host_str url)
    port ← ok_or no_port (c.port_or_known_default url)
    ok (record { host = host; port = port; target_path = healthcheck_request_path url })

  -- `run_healthcheck`; the parameter connects to a host and a port, writes a text and reads the
  -- answer, and is `none` where one of these fails.
  unfoldable pub run_healthcheck :
      (Text → ℕ → Text → Option Text) → Text → Result HealthcheckError (Unit {0})
  unfolding parse_healthcheck_target healthcheck_request ensure_successful_healthcheck_response
  run_healthcheck exchange raw_url = do
    target ← parse_healthcheck_target raw_url
    response ← ok_or no_connection (exchange target.host target.port (healthcheck_request target))
    ensure_successful_healthcheck_response response
